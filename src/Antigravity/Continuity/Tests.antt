-- ===== src/Antigravity/Continuity/Tests.antt =====
-- Runs of resolveContinuity of internal/antigravity/session.go on a small history.
use codex_account_pool.Prelude.{
  ℕ, String, ◌≡◌, refl, none, List, [], ◌∷◌, ok, err, All, drop, lookup, insert, erase, starts,
  ends, same_codes, trim_codes, trim_left, trim_right,
}
use codex_account_pool.Antigravity.Arguments.{
  args_digest, canonical_args, canonical_text, encoded, is_replaced_plan, matches_call_args,
  matches_objects, object_of, or_empty_text, text_under, with_plan,
}
use codex_account_pool.Antigravity.Replay.{
  ReplayCache, new_replay_cache, positive_or, call_record, lookup_call_identity, replay_call,
  created_now, extend_expiry, is_live, session_key, touched, touch_found, touch_session_locked,
}
use codex_account_pool.Antigravity.Replay.Tests.{plain, arguments, signature, empty_cache}
use codex_account_pool.Antigravity.Continuity.{
  Item, Payload, Route, session_continuity_unavailable, resolve_continuity, explicit_session_id,
  current_turn_start, session_text, has_tool_history, turn_outcome, current_calls, turn_start,
  is_router_call, agree, past_outcome, named_route, past_calls, past_route, agreed_route,
  continuity_model_family, first_header, fresh_route, same_continuity_model_family, session_id,
  decimal,
}
use codex_account_pool.Antigravity.Continuity.Routes.{
  IsAsked, resolve_continuity-IsAsked, resolve_continuity-IsBacked,
}
use codex_account_pool.Antigravity.Continuity.Turns.{IsBacked}

-- One router call of a session is stored.
abbrev cache : ReplayCache
cache = record empty_cache {
  calls =
      (
        "call_ag_1",
        call_record plain empty_cache "w1" "work" "gemini-3.8-flash-low" "-7" "read" arguments
            signature "step" 0 10,
      )
      ∷ [];
}

abbrev question : Item
question = record { kind = "message"; role = "user"; call_id = ""; name = ""; arguments = "" }

abbrev call : String → Item
call id = record {
  kind = "function_call";
  role = "";
  call_id = id;
  name = "read";
  arguments = "{}";
}

abbrev payload : List String → String → List Item → Payload
payload headers key input = record {
  thread_headers = headers;
  prompt_cache_key = key;
  input = input;
}

-- A call of the current turn, no session named.
abbrev turn : Payload
turn = payload [] "" (question ∷ call "call_ag_1" ∷ [])

abbrev digest_of : String → ℕ
digest_of s = 7

abbrev route : Route
route = record { session = "-7"; wire_model = "gemini-3.8-flash-low" }

session_text_12 : session_text 9223372036854775820 ≡ "-12"
unfolding session_text decimal
session_text_12 = refl

other_family :
    (resolve_continuity plain (λ i. 20) digest_of turn "gemini-3.1-pro" none cache).0
    ≡ err session_continuity_unavailable
unfolding resolve_continuity has_tool_history turn_outcome current_calls current_turn_start
    turn_start is_router_call agree past_outcome named_route past_calls past_route agreed_route
    continuity_model_family explicit_session_id first_header fresh_route
    same_continuity_model_family session_id call_record lookup_call_identity replay_call created_now
    extend_expiry is_live session_key touched touch_found touch_session_locked args_digest
    canonical_args canonical_text encoded is_replaced_plan matches_call_args matches_objects
    object_of or_empty_text text_under with_plan lookup insert erase starts ends same_codes
    trim_codes trim_left trim_right new_replay_cache positive_or
other_family = refl

past_turn :
    (resolve_continuity plain
      (λ i. 20)
      digest_of
      (payload [] "" (call "call_ag_1" ∷ question ∷ []))
      "gemini-3.8-flash-high"
      none
      cache).0
    ≡ ok route
unfolding resolve_continuity has_tool_history turn_outcome current_calls current_turn_start
    turn_start is_router_call agree past_outcome named_route past_calls past_route agreed_route
    continuity_model_family explicit_session_id first_header fresh_route
    same_continuity_model_family session_id call_record lookup_call_identity replay_call created_now
    extend_expiry is_live session_key touched touch_found touch_session_locked args_digest
    canonical_args canonical_text encoded is_replaced_plan matches_call_args matches_objects
    object_of or_empty_text text_under with_plan lookup insert erase starts ends same_codes
    trim_codes trim_left trim_right new_replay_cache positive_or
past_turn = refl

current_turn :
    (resolve_continuity plain (λ i. 20) digest_of turn "gemini-3.8-flash-high" none cache).0
    ≡ ok route
unfolding resolve_continuity has_tool_history turn_outcome current_calls current_turn_start
    turn_start is_router_call agree past_outcome named_route past_calls past_route agreed_route
    continuity_model_family explicit_session_id first_header fresh_route
    same_continuity_model_family session_id call_record lookup_call_identity replay_call created_now
    extend_expiry is_live session_key touched touch_found touch_session_locked args_digest
    canonical_args canonical_text encoded is_replaced_plan matches_call_args matches_objects
    object_of or_empty_text text_under with_plan lookup insert erase starts ends same_codes
    trim_codes trim_left trim_right new_replay_cache positive_or
current_turn = refl

resolve_continuity-IsAsked_example :
    IsAsked (explicit_session_id digest_of turn) "gemini-3.8-flash-high" route
resolve_continuity-IsAsked_example =
    resolve_continuity-IsAsked plain (λ i. 20) digest_of turn "gemini-3.8-flash-high" none cache
      route current_turn

resolve_continuity-IsBacked_example :
    All
      (IsBacked cache "-7" "gemini-3.8-flash-low")
      (drop (current_turn_start turn.input) turn.input)
unfolding has_tool_history
resolve_continuity-IsBacked_example =
    resolve_continuity-IsBacked plain (λ i. 20) digest_of turn "gemini-3.8-flash-high" none cache
      route refl current_turn
