-- ===== src/Gateway/Trace.antt =====
-- requestTrace of internal/gateway/gateway.go, with the body and the response writer that feed it: how
-- a request ended, and the response that its context is bound to. The fields that are only copied
-- into the events of the log are left out, and so are durations. The two decoders are arguments.
use codex_account_pool.Prelude.{
  ℕ, ◌+◌, String, Bool, true, not, ◌&&◌, ◌||◌, Option, none, some, List, eqb, if◌then◌else◌, ◌==◌,
}
use codex_account_pool.ContextObs.{
  RequestMetrics, Tracker, ResponseObserver, new_response_observer, read, bind_response, Event,
}
use codex_account_pool.Gateway.Stream.{
  Semantic, SseObserver, new_sse_observer, observe, semantic_of,
}

pub data Outcome : Type 0 where
  body_eof client_cancel upstream_read_error downstream_write_error upgrade_closed local_response
        unknown :
      Outcome

-- `analyzed` says that the analysis of the request succeeded, and `tracked` that there is a tracker.
pub record RequestTrace : Type 0 where
  pub route : String
  pub profile_ref : String
  pub attempt : ℕ
  pub status_code : ℕ
  pub status_origin : String
  pub error_category : String
  pub at_eof : Bool
  pub upstream_read : Bool
  pub downstream_write : Bool
  pub hijacked : Bool
  pub response_bytes : ℕ
  pub semantic : Option SseObserver
  pub context_request : RequestMetrics
  pub analyzed : Bool
  pub tracked : Bool
  pub context_response : Option ResponseObserver
  pub context_bound : Bool

unfoldable pub next_attempt : RequestTrace → ℕ × RequestTrace
next_attempt t = (t.attempt + 1, record t { attempt = t.attempt + 1 })

unfoldable pub set_auth : RequestTrace → String → RequestTrace
set_auth t ref = if not (ref == "") then record t { profile_ref = ref } else t

unfoldable pub set_profile_ref : RequestTrace → String → RequestTrace
set_profile_ref t ref = record t { profile_ref = ref }

unfoldable pub set_status : RequestTrace → ℕ → String → RequestTrace
set_status t code origin = record t {
  status_code = code;
  status_origin = if not (origin == "") then origin else t.status_origin;
}

unfoldable pub set_error_category : RequestTrace → String → RequestTrace
set_error_category t category = if category == "" then t else record t { error_category = category }

abbrev or_new_sse : Option SseObserver → Option SseObserver
or_new_sse none = some new_sse_observer
or_new_sse (some o) = some o

abbrev or_new_response : Bool → Option ResponseObserver → Option ResponseObserver
or_new_response wanted (some o) = some o
or_new_response wanted none = if wanted then some (new_response_observer 0) else none

-- `keyed` says that there is a key for the references of the context.
unfoldable pub enable_sse : RequestTrace → Bool → RequestTrace
enable_sse t keyed = record t {
  semantic = or_new_sse t.semantic;
  context_response =
      or_new_response ((t.route == "/backend-api/codex/responses") && keyed) t.context_response;
}

unfoldable pub set_context_request : RequestTrace → RequestMetrics → Bool → Bool → RequestTrace
set_context_request t metrics analyzed tracked = record t {
  context_request = metrics;
  analyzed = analyzed;
  tracked = tracked;
}

unfoldable pub note_upstream_read_error : RequestTrace → RequestTrace
note_upstream_read_error t = record t { upstream_read = true }

unfoldable pub note_downstream_write : RequestTrace → ℕ → Bool → RequestTrace
note_downstream_write t n is_failed = record t {
  response_bytes = t.response_bytes + n;
  downstream_write = is_failed || t.downstream_write;
}

unfoldable pub note_hijacked : RequestTrace → RequestTrace
note_hijacked t = record t { hijacked = true }

unfoldable pub note_abort : RequestTrace → RequestTrace
note_abort t =
    if not t.upstream_read && not t.downstream_write then record t { upstream_read = true } else t

-- Where noteBodyEOF binds the request to a response, its reference.
unfoldable pub bound_ref : RequestTrace → Option ResponseObserver → Option String
bound_ref t none = none
bound_ref t (some o) =
    if not t.context_bound && (not (o.metrics.response_ref == "") && (t.tracked && t.analyzed))
    then some o.metrics.response_ref
    else none

unfoldable pub bind_ref : RequestTrace → Tracker → ℕ → Option String → RequestTrace × Tracker
bind_ref t tracker now none = (t, tracker)
bind_ref t tracker now (some ref) =
    (record t { context_bound = true }, bind_response tracker t.context_request ref now)

unfoldable pub note_body_eof : RequestTrace → Tracker → ℕ → RequestTrace × Tracker
note_body_eof t tracker now =
    bind_ref (record t { at_eof = true }) tracker now (bound_ref t t.context_response)

-- What endEvent tells of the end: the status, the outcome, the category of the error and the semantic
-- outcome.
pub record End : Type 0 where
  pub status_code : ℕ
  pub outcome : Outcome
  pub error_category : String
  pub semantic : Semantic

unfoldable pub outcome_of : RequestTrace → Bool → Outcome
outcome_of t is_canceled =
    if is_canceled
    then client_cancel
    else if t.upstream_read
    then upstream_read_error
    else if t.downstream_write
    then downstream_write_error
    else if t.hijacked
    then upgrade_closed
    else if t.at_eof
    then body_eof
    else if (t.status_origin == "local") || (t.status_origin == "gateway")
    then local_response
    else unknown

abbrev pub category_of : String → Outcome → String
category_of old client_cancel = "client_cancel"
category_of old upstream_read_error = "upstream_read"
category_of old downstream_write_error = "downstream_write"
category_of old body_eof = old
category_of old upgrade_closed = old
category_of old local_response = old
category_of old unknown = old

unfoldable pub end_event : RequestTrace → Bool → ℕ → End
end_event t is_canceled writer_status =
    let outcome = outcome_of t is_canceled in
    let status = if eqb t.status_code 0 then writer_status else t.status_code in
    record {
      status_code = if eqb status 0 then 200 else status;
      outcome = outcome;
      error_category = category_of t.error_category outcome;
      semantic = semantic_of t.semantic;
    }

-- How a read of the upstream's body ended.
pub data ReadEnd : Type 0 where
  more at_end failed : ReadEnd

abbrev observed : {A : Type 0} → (A → A) → Option A → Option A
observed f none = none
observed f (some a) = some (f a)

module _ (event_type : List ℕ → Option (List ℕ)) (fingerprint : Option (String → String))
    (decode : List ℕ → Option Event) where
  unfoldable pub observe_upstream_bytes : RequestTrace → List ℕ → RequestTrace
  observe_upstream_bytes t p = record t {
    semantic = observed (λ o. observe event_type o p) t.semantic;
    context_response = observed (λ o. read fingerprint decode o p) t.context_response;
  }

  -- Read of observedBody: the bytes, how the read ended, and the time.
  unfoldable pub read_body : RequestTrace → Tracker → List ℕ → ReadEnd → ℕ → RequestTrace × Tracker
  read_body t tracker p more now = (observe_upstream_bytes t p, tracker)
  read_body t tracker p at_end now = note_body_eof (observe_upstream_bytes t p) tracker now
  read_body t tracker p failed now =
      (note_upstream_read_error (observe_upstream_bytes t p), tracker)
