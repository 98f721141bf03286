-- ===== src/Gateway/TraceTests.antt =====
-- Runs of requestTrace of internal/gateway/gateway.go.
use codex_account_pool.Prelude.{
  ℕ, Option, true, false, ◌≡◌, refl, none, some, List, [], ◌∷◌, codes, cut_prefix, trim_space,
  reversed, drop_spaces, front_space, end_space, same_codes, is_blank,
}
use codex_account_pool.ContextObs.{
  RequestMetrics, Tracker, Event, new_tracker, bind_response, read, new_response_observer,
  read_byte, read_line, observe_rest, capture_response, capture_response_id, capture_usage,
  count_item, is_seen, is_tool_call_item, observe_decoded, observe_event, observe_payload,
}
use codex_account_pool.Gateway.{not_applicable, semantic_of}
use codex_account_pool.Gateway.Trace.{
  RequestTrace, client_cancel, local_response, end_event, outcome_of, note_abort, more, at_end,
  read_body, note_body_eof, bind_ref, bound_ref, observe_upstream_bytes, enable_sse,
}
use codex_account_pool.Gateway.Binding.{
  Operation, body_read, streamed, aborted, run, step, IsBoundBy, run-IsBoundBy,
}

abbrev no_request : RequestMetrics
no_request = record {
  request_bytes = 0;
  context_bytes = 0;
  item_refs = [];
  lineage_ref = "";
  previous_response_ref = "";
}

abbrev fresh : RequestTrace
fresh = record {
  route = "/backend-api/codex/responses";
  profile_ref = "";
  attempt = 0;
  status_code = 0;
  status_origin = "gateway";
  error_category = "";
  at_eof = false;
  upstream_read = false;
  downstream_write = false;
  hijacked = false;
  response_bytes = 0;
  semantic = none;
  context_request = no_request;
  analyzed = true;
  tracked = true;
  context_response = none;
  context_bound = false;
}

abbrev tracker : Tracker
tracker = new_tracker 4 100

local_end : end_event fresh false 0 ≡ record {
  status_code = 200;
  outcome = local_response;
  error_category = "";
  semantic = not_applicable;
}
unfolding end_event outcome_of semantic_of
local_end = refl

canceled_end : (end_event (note_abort fresh) true 502) ≡ record {
  status_code = 502;
  outcome = client_cancel;
  error_category = "client_cancel";
  semantic = not_applicable;
}
unfolding end_event outcome_of semantic_of note_abort
canceled_end = refl

aborted_end : (end_event (note_abort fresh) false 502).error_category ≡ "upstream_read"
unfolding end_event outcome_of note_abort
aborted_end = refl

-- Every payload is an event that names the response "r".
abbrev event : List ℕ → Option Event
event p = some (record {
  kind = "response.created";
  item = none;
  response = some (record { id = some "r"; usage = none });
  usage = none;
})

-- An empty end of the body, a line of the stream, and two ends of the body after it.
abbrev operations : List Operation
operations =
    streamed true
    ∷ body_read [] at_end 5
    ∷ body_read (codes "data: {}\n") more 6
    ∷ body_read [] at_end 7
    ∷ body_read [] at_end 8
    ∷ aborted
    ∷ []

abbrev left : Tracker
left = (run (λ p. none) (some (λ s. s)) event fresh tracker operations).1

is_bound : left ≡ bind_response tracker no_request "r" 7
unfolding run step note_abort read_body note_body_eof bind_ref bound_ref observe_upstream_bytes
    enable_sse read new_response_observer read_byte read_line observe_rest capture_response
    capture_response_id capture_usage count_item is_seen is_tool_call_item observe_decoded
    observe_event observe_payload cut_prefix trim_space reversed drop_spaces front_space end_space
    same_codes is_blank
is_bound = refl

run-IsBoundBy_example : IsBoundBy (λ p. none) (some (λ s. s)) event fresh tracker operations left
run-IsBoundBy_example =
    run-IsBoundBy (λ p. none) (some (λ s. s)) event fresh tracker operations refl
