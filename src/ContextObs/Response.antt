-- ===== src/ContextObs/Response.antt =====
-- ResponseObserver of internal/contextobs/response.go. The JSON of an event comes decoded: `decode`
-- is encoding/json on the bytes after "data:", and `fingerprint` is the analyzer's keyed digest.
use codex_account_pool.Prelude.{
  ℕ, ◌+◌, String, Bool, true, false, ◌||◌, Option, none, some, List, [], ◌∷◌, ◌++◌, map, length,
  leb, eqb, if◌then◌else◌, ◌==◌, codes, lower, same_codes, ends, trim_codes, is_blank, trim_space,
  cut_prefix,
}

-- The numbers of a usage object that are readable: a field that is absent, negative or no int64 is
-- `none`, and a null is 0. The last two are those of the details objects.
pub record Usage : Type 0 where
  pub input_tokens : Option ℕ
  pub cached_input_tokens : Option ℕ
  pub output_tokens : Option ℕ
  pub reasoning_tokens : Option ℕ
  pub total_tokens : Option ℕ
  pub cached_tokens : Option ℕ
  pub detailed_reasoning_tokens : Option ℕ

-- The object under "response": its "id" and its "usage", where they are a text and an object.
pub record Response : Type 0 where
  pub id : Option String
  pub usage : Option Usage

-- The parts of an event: its "type", or an empty text; the type of its "item"; its "response" and
-- its "usage", where they are objects.
pub record Event : Type 0 where
  pub kind : String
  pub item : Option String
  pub response : Option Response
  pub usage : Option Usage

pub record ResponseMetrics : Type 0 where
  pub sse_event_count : ℕ
  pub output_item_count : ℕ
  pub tool_call_count : ℕ
  pub usage_available : Bool
  pub input_tokens : ℕ
  pub cached_input_tokens : ℕ
  pub output_tokens : ℕ
  pub reasoning_tokens : ℕ
  pub total_tokens : ℕ
  pub response_ref : String

pub record ResponseObserver : Type 0 where
  pub line : List ℕ
  pub discard : Bool
  pub max_line : ℕ
  pub metrics : ResponseMetrics

abbrev pub default_max_sse_line_bytes : ℕ
default_max_sse_line_bytes = 1048576

abbrev pub no_metrics : ResponseMetrics
no_metrics = record {
  sse_event_count = 0;
  output_item_count = 0;
  tool_call_count = 0;
  usage_available = false;
  input_tokens = 0;
  cached_input_tokens = 0;
  output_tokens = 0;
  reasoning_tokens = 0;
  total_tokens = 0;
  response_ref = "";
}

-- A non-positive bound is the number 0 here.
unfoldable pub new_response_observer : ℕ → ResponseObserver
new_response_observer max = record {
  line = [];
  discard = false;
  max_line = if eqb max 0 then default_max_sse_line_bytes else max;
  metrics = no_metrics;
}

unfoldable pub is_tool_call_item : Option String → Bool
is_tool_call_item none = false
is_tool_call_item (some kind) =
    let t = map lower (trim_codes (codes kind)) in
    same_codes t (codes "function_call")
    || (same_codes t (codes "tool_call") || ends (codes "_call") t)

-- A value that is read replaces the last one.
abbrev pub or_last : Option ℕ → ℕ → ℕ
or_last none last = last
or_last (some n) last = n

abbrev pub is_read : Option ℕ → Bool
is_read none = false
is_read (some n) = true

unfoldable pub is_seen : Usage → Bool
is_seen u =
    is_read u.input_tokens
    || (is_read u.cached_input_tokens
        || (is_read u.output_tokens
            || (is_read u.reasoning_tokens
                || (is_read u.total_tokens
                    || (is_read u.cached_tokens || is_read u.detailed_reasoning_tokens)))))

unfoldable pub capture_usage : Option Usage → ResponseMetrics → ResponseMetrics
capture_usage none m = m
capture_usage (some u) m = record m {
  input_tokens = or_last u.input_tokens m.input_tokens;
  cached_input_tokens =
      or_last u.cached_tokens (or_last u.cached_input_tokens m.cached_input_tokens);
  output_tokens = or_last u.output_tokens m.output_tokens;
  reasoning_tokens =
      or_last u.detailed_reasoning_tokens (or_last u.reasoning_tokens m.reasoning_tokens);
  total_tokens = or_last u.total_tokens m.total_tokens;
  usage_available = is_seen u || m.usage_available;
}

unfoldable pub count_item : Event → ResponseMetrics → ResponseMetrics
count_item e m =
    if e.kind == "response.output_item.done"
    then record m {
      output_item_count = m.output_item_count + 1;
      tool_call_count = m.tool_call_count + (if is_tool_call_item e.item then 1 else 0);
    }
    else m

-- `fingerprint` is none where the observer has no key.
module _ (fingerprint : Option (String → String)) where
  unfoldable pub capture_response_id : Option String → ResponseMetrics → ResponseMetrics
  capture_response_id none m = m
  capture_response_id (some id) m = elim fingerprint [
    | none ↦ m
    | some digest ↦ if is_blank id then m else record m { response_ref = digest id }
  ]

  unfoldable pub capture_response : Option Response → ResponseMetrics → ResponseMetrics
  capture_response none m = m
  capture_response (some r) m = capture_usage r.usage (capture_response_id r.id m)

  unfoldable pub observe_event : Event → ResponseMetrics → ResponseMetrics
  observe_event e m =
      let counted = record m { sse_event_count = m.sse_event_count + 1 } in
      capture_usage e.usage (capture_response e.response (count_item e counted))

  module _ (decode : List ℕ → Option Event) where
    unfoldable pub observe_decoded : Option Event → ResponseMetrics → ResponseMetrics
    observe_decoded none m = m
    observe_decoded (some e) m = observe_event e m

    unfoldable pub observe_payload : List ℕ → ResponseMetrics → ResponseMetrics
    observe_payload payload m =
        if same_codes payload [] || same_codes payload (codes "[DONE]")
        then m
        else observe_decoded (decode payload) m

    -- The text after "data:", if the line starts with it.
    unfoldable pub observe_rest : Option (List ℕ) → ResponseMetrics → ResponseMetrics
    observe_rest none m = m
    observe_rest (some rest) m = observe_payload (trim_space rest) m

    unfoldable pub read_line : List ℕ → ResponseMetrics → ResponseMetrics
    read_line line m = observe_rest (cut_prefix (codes "data:") (trim_space line)) m

    unfoldable pub read_byte : ResponseObserver → ℕ → ResponseObserver
    read_byte o b =
        if eqb b 10
        then record o {
          line = [];
          discard = false;
          metrics = if o.discard then o.metrics else read_line o.line o.metrics;
        }
        else if o.discard
        then o
        else if leb o.max_line (length o.line)
        then record o { line = []; discard = true }
        else record o { line = o.line ++ (b ∷ []) }

    unfoldable pub read : ResponseObserver → List ℕ → ResponseObserver
    read o [] = o
    read o (b ∷ p) = read (read_byte o b) p
