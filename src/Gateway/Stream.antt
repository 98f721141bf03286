-- ===== src/Gateway/Stream.antt =====
-- sseObserver of internal/gateway/gateway.go: the outcome that an event stream announces. The
-- decoding of the JSON after "data:", to the text under "type", is an argument.
use codex_account_pool.Prelude.{
  ℕ, zero, suc, ◌+◌, Bool, true, false, Option, none, some, List, [], ◌∷◌, ◌++◌, length, leb,
  if◌then◌else◌, codes, lower_bytes, same_codes, trim_space, cut_prefix, cut_line,
}

pub data Semantic : Type 0 where
  unobserved completed failed incomplete not_applicable : Semantic

pub record SseObserver : Type 0 where
  pub line : List ℕ
  pub overflow : Bool
  pub outcome : Semantic

abbrev pub max_observed_sse_line : ℕ
max_observed_sse_line = 16384

unfoldable pub new_sse_observer : SseObserver
new_sse_observer = record { line = []; overflow = false; outcome = unobserved }

abbrev pub is_unobserved : Semantic → Bool
is_unobserved unobserved = true
is_unobserved completed = false
is_unobserved failed = false
is_unobserved incomplete = false
is_unobserved not_applicable = false

-- The type of an event, as the bytes of a text.
unfoldable pub set_terminal : SseObserver → List ℕ → SseObserver
set_terminal o kind =
    let name = lower_bytes (trim_space kind) in
    if same_codes name (codes "response.completed")
    then record o { outcome = completed }
    else if same_codes name (codes "response.failed")
    then record o { outcome = failed }
    else if same_codes name (codes "response.incomplete")
    then record o { outcome = incomplete }
    else o

unfoldable pub set_typed : SseObserver → Option (List ℕ) → SseObserver
set_typed o none = o
set_typed o (some kind) = set_terminal o kind

-- A part of a line.
unfoldable pub take_chunk : SseObserver → List ℕ → SseObserver
take_chunk o chunk =
    if o.overflow
    then o
    else if leb (length o.line + length chunk) max_observed_sse_line
    then record o { line = o.line ++ chunk }
    else record o { line = []; overflow = true }

module _ (event_type : List ℕ → Option (List ℕ)) where
  unfoldable pub observe_data : SseObserver → List ℕ → SseObserver
  observe_data o payload =
      if leb (length payload) max_observed_sse_line then set_typed o (event_type payload) else o

  -- A line that starts with "event:", with "data:", or with neither.
  unfoldable pub observe_field :
      SseObserver → List ℕ → Option (List ℕ) → Option (List ℕ) → SseObserver
  observe_field o line (some kind) rest = set_terminal o (trim_space kind)
  observe_field o line none (some payload) = observe_data o (trim_space payload)
  observe_field o line none none = o

  unfoldable pub observe_line : SseObserver → List ℕ → SseObserver
  observe_line o line =
      let text = trim_space line in
      observe_field o text (cut_prefix (codes "event:") text) (cut_prefix (codes "data:") text)

  unfoldable pub end_line : SseObserver → SseObserver
  end_line o = record (if o.overflow then o else observe_line o o.line) {
    line = [];
    overflow = false;
  }

  -- The loop, for so many rounds.
  unfoldable pub observe_loop : ℕ → List ℕ → SseObserver → SseObserver
  observe_loop zero p o = o
  observe_loop (suc n) [] o = o
  observe_loop (suc n) (b ∷ p) o = elim (cut_line (b ∷ p)) [
    | none ↦ take_chunk o (b ∷ p)
    | some (chunk, rest) ↦
        let ended = end_line (take_chunk o chunk) in
        let more = observe_loop n rest ended in if is_unobserved ended.outcome then more else ended
  ]

  unfoldable pub observe : SseObserver → List ℕ → SseObserver
  observe o p = if is_unobserved o.outcome then observe_loop (length p) p o else o

-- A nil observer belongs to a response that is no event stream.
unfoldable pub semantic_of : Option SseObserver → Semantic
semantic_of none = not_applicable
semantic_of (some o) = o.outcome
