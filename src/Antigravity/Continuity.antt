-- ===== src/Antigravity/Continuity.antt =====
-- resolveContinuity of internal/antigravity/session.go: the session and the model on which a request
-- goes on, from the calls that its history names in the replay cache. SHA-256 and the random source
-- are arguments, and so is the clock, by the number of its readings.
pub mod Turns
pub mod Routes
pub mod Tests
use Prim.Native.String.{String, ◌++◌ as ◌<>◌}
use mathlib.Core.List.{reverse}
use codex_account_pool.Prelude.{
  ℕ, zero, suc, ◌+◌, ◌/◌, ◌%◌, ◌^◌, Bool, true, false, not, ◌&&◌, ◌||◌, Option, none, some, List,
  [], ◌∷◌, map, ltb, eqb, if◌then◌else◌, ◌==◌, codes, lower, trim_codes, same_codes, starts, ends,
  take, drop, Result, ok, err,
}
use codex_account_pool.Antigravity.Arguments.{Encoding, Args, text}
use codex_account_pool.Antigravity.Replay.{CallRecord, ReplayCache, lookup_call_identity}

-- An item of the input: its texts "type", "role", "call_id", "name" and "arguments", empty where the
-- item is no object or the value no text.
pub record Item : Type 0 where
  pub kind : String
  pub role : String
  pub call_id : String
  pub name : String
  pub arguments : String

-- The headers of the request that name a session, in their order, trimmed, and the trimmed text under
-- "prompt_cache_key".
pub record Payload : Type 0 where
  pub thread_headers : List String
  pub prompt_cache_key : String
  pub input : List Item

-- continuityRoute
pub record Route : Type 0 where
  pub session : String
  pub wire_model : String

pub data Error : Type 0 where
  session_continuity_unavailable : Error

abbrev digit : ℕ → String
digit n =
    if ltb n 5
    then (if eqb n 0
        then "0"
        else if eqb n 1
        then "1"
        else if eqb n 2
        then "2"
        else if eqb n 3
        then "3"
        else "4")
    else (if eqb n 5
        then "5"
        else if eqb n 6
        then "6"
        else if eqb n 7
        then "7"
        else if eqb n 8
        then "8"
        else "9")

-- The last so many digits of a number, without the zeros before it.
unfoldable pub decimal : ℕ → ℕ → String
decimal zero n = ""
decimal (suc fuel) n =
    let front = decimal fuel (n / 10) in if ltb n 10 then digit n else front <> digit (n % 10)

-- fmt.Sprintf("-%d", value & 0x7fff…): a number below 2 ^ 63 has nineteen digits at most.
unfoldable pub session_text : ℕ → String
session_text value = "-" <> decimal 19 (value % 2 ^ 63)

unfoldable pub first_header : List String → String
first_header [] = ""
first_header (h ∷ hs) = if h == "" then first_header hs else h

-- `digest` is the first eight bytes of the SHA-256 sum, as a number.
module _ (digest : String → ℕ) where
  unfoldable pub stable_session_id : String → String
  stable_session_id seed = session_text (digest seed)

  unfoldable pub explicit_session_id : Payload → String
  explicit_session_id p =
      let thread = first_header p.thread_headers in
      if not (thread == "")
      then stable_session_id ("thread:" <> thread)
      else if not (p.prompt_cache_key == "")
      then stable_session_id ("prompt-cache:" <> p.prompt_cache_key)
      else ""

  abbrev pub random_session : Option ℕ → String
  random_session none = ""
  random_session (some n) = session_text n

  unfoldable pub session_id : Payload → Option ℕ → String
  session_id p random =
      let id = explicit_session_id p in if not (id == "") then id else random_session random

unfoldable pub has_tool_history : List Item → Bool
has_tool_history [] = false
has_tool_history (x ∷ xs) =
    (x.kind == "function_call") || ((x.kind == "function_call_output") || has_tool_history xs)

abbrev is_user : Item → Bool
is_user x = ((x.kind == "message") || (x.kind == "")) && (x.role == "user")

-- currentTurnStart of request.go: the position of the last message of the user, or 0.
unfoldable pub turn_start : ℕ → ℕ → List Item → ℕ
turn_start i start [] = start
turn_start i start (x ∷ xs) = turn_start (suc i) (if is_user x then i else start) xs

unfoldable pub current_turn_start : List Item → ℕ
current_turn_start = turn_start 0 0

unfoldable pub continuity_model_family : String → List ℕ
continuity_model_family model =
    let m = map lower (trim_codes (codes model)) in
    if starts (codes "gemini-3.8-flash-") m
      && (ends (codes "-low") m || (ends (codes "-medium") m || ends (codes "-high") m))
    then codes "gemini-3.8-flash"
    else if same_codes m (codes "gemini-3.1-pro-low") || same_codes m (codes "gemini-pro-agent")
    then codes "gemini-3.1-pro"
    else m

unfoldable pub same_continuity_model_family : String → String → Bool
same_continuity_model_family requested stored =
    same_codes (continuity_model_family requested) (continuity_model_family stored)

-- A call with a handle that the router has issued.
unfoldable pub is_router_call : Item → Bool
is_router_call x = (x.kind == "function_call") && starts (codes "call_ag_") (codes x.call_id)

-- What the loop over the current turn knows: the session, the model, and how many calls it has met.
pub record Agreed : Type 0 where
  pub session : String
  pub wire_model : String
  pub calls : ℕ

unfoldable pub agree : Agreed → Option CallRecord → Option Agreed
agree a none = none
agree a (some r) =
    if (not (a.session == "") && not (r.session == a.session))
      || (not (a.wire_model == "") && not (r.model == a.wire_model))
    then none
    else some (record {
      session = if a.session == "" then r.session else a.session;
      wire_model = r.model;
      calls = a.calls + 1;
    })

unfoldable pub past_route : String → String → Option CallRecord → Option (Result Error Route)
past_route explicit requested none = none
past_route explicit requested (some r) =
    if not (explicit == "") && not (r.session == explicit)
    then none
    else if not (same_continuity_model_family requested r.model)
    then some (err session_continuity_unavailable)
    else some (ok (record { session = r.session; wire_model = r.model }))

module _ (json : Encoding) (now : ℕ → ℕ) where
  abbrev pub found : ReplayCache → ℕ → Item → Option CallRecord × ReplayCache
  found c i x = lookup_call_identity json c x.call_id x.name (text x.arguments) (now i)

  -- The loop from the start of the turn; `i` is the number of the clock's next reading.
  unfoldable pub current_calls : ReplayCache → ℕ → Agreed → List Item → Option Agreed × ReplayCache
  current_calls c i a [] = (some a, c)
  current_calls c i a (x ∷ xs) = elim (is_router_call x) [
    | false ↦ current_calls c i a xs
    | true ↦ elim (agree a (found c i x).0) [
      | none ↦ (none, (found c i x).1)
      | some b ↦ current_calls (found c i x).1 (suc i) b xs
    ]
  ]

  -- The loop back over the items before the turn, the last one first.
  unfoldable pub past_calls :
      String → String → ReplayCache → ℕ → List Item → Option (Result Error Route) × ReplayCache
  past_calls explicit requested c i [] = (none, c)
  past_calls explicit requested c i (x ∷ xs) = elim (is_router_call x) [
    | false ↦ past_calls explicit requested c i xs
    | true ↦ elim (past_route explicit requested (found c i x).0) [
      | some r ↦ (some r, (found c i x).1)
      | none ↦ past_calls explicit requested (found c i x).1 (suc i) xs
    ]
  ]

-- With no history of calls: the session that the request names, or a random one.
module _ (digest : String → ℕ) (p : Payload) (requested : String) where
  unfoldable pub fresh_route : Option ℕ → Route
  fresh_route random =
      let explicit = explicit_session_id digest p in
      record {
        session = if explicit == "" then session_id digest p random else explicit;
        wire_model = requested;
      }

-- What the request names itself, when no call of its history answers.
unfoldable pub named_route : String → String → Option (Result Error Route) → Result Error Route
named_route explicit requested (some r) = r
named_route explicit requested none =
    if not (explicit == "")
    then ok (record { session = explicit; wire_model = requested })
    else err session_continuity_unavailable

unfoldable pub agreed_route : String → Agreed → Result Error Route
agreed_route requested a =
    if not (same_continuity_model_family requested a.wire_model)
    then err session_continuity_unavailable
    else ok (record { session = a.session; wire_model = a.wire_model })

module _ (json : Encoding) (now : ℕ → ℕ) where
  unfoldable pub past_outcome :
      String → String → ReplayCache → List Item → Result Error Route × ReplayCache
  past_outcome explicit requested c past =
      let r = past_calls json now explicit requested c 0 (reverse past) in
      (named_route explicit requested r.0, r.1)

  -- After the loop over the current turn.
  unfoldable pub turn_outcome :
      String → String → List Item → Option Agreed → ReplayCache → Result Error Route × ReplayCache
  turn_outcome explicit requested past none c = (err session_continuity_unavailable, c)
  turn_outcome explicit requested past (some a) c =
      if ltb 0 a.calls
      then (agreed_route requested a, c)
      else past_outcome explicit requested c past

  module _ (digest : String → ℕ) where
    unfoldable pub resolve_continuity :
        Payload → String → Option ℕ → ReplayCache → Result Error Route × ReplayCache
    resolve_continuity p requested random c =
        let explicit = explicit_session_id digest p in
        let start = current_turn_start p.input in
        let unset : Agreed = record { session = explicit; wire_model = ""; calls = 0 } in
        let turn = current_calls json now c 0 unset (drop start p.input) in
        if not (has_tool_history p.input)
        then (ok (fresh_route digest p requested random), c)
        else turn_outcome explicit requested (take start p.input) turn.0 turn.1
