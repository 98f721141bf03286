-- ===== src/Gateway/Tests.antt =====
-- Runs of internal/gateway/gateway.go on a broker of two accounts, and concrete instances of the
-- theorems.
use codex_account_pool.Prelude.{
  starts, ends, ℕ, ◌+◌, ◌≤◌, String, false, Option, none, some, List, [], ◌∷◌, Result, ok, err, ◌≡◌,
  refl, All, count, codes, contains, ap, sym, ◌∙◌, some-injective, ◌++◌, ◌⊎◌, inl, inr, same_folded,
  same_codes, cut_line, cut_prefix, trim_space, reversed, drop_spaces, front_space, end_space,
  lower_bytes, lower_from, trim_codes, trim_left, trim_right, if◌then◌else◌, eqb, arith,
}
use codex_account_pool.AuthBroker.{Fault, Credentials}
use codex_account_pool.AuthBroker.Tests.{opaque, no_waits, no_waits-IsQuiet, world}
use codex_account_pool.Gateway.{
  after_buffering, replayable, rounds, follow, round, on_response, safe_auth_retry, force,
  after_refresh, next_trip, on_verdict, clone_for_retry, fail_over, after_failover,
  request_credentials, chosen_credentials, with_found, proxy, with_credentials, is_backend,
  is_responses_websocket_upgrade, is_websocket, rewrite, rewrite_credentials, Upstream, outgoing,
  with_agent, proxied_header, erase_all, upgrade_type, keep_trailers, keep_upgrade, default_agent,
  joined_path, completed, observe_loop, end_line, take_chunk, observe_line, observe_field,
  set_terminal, ProfileMethods, Verdict, limited, not_limited, body_unreadable, start, switched,
  Request, Response, TransportError, TripError, bytes, Provider, Trip, Answer, proxied,
  attempted_by, serve, round_trip, usage_limit_response, LimitPayload, new_sse_observer, observe,
}
use codex_account_pool.Gateway.Supply.{IsSupply}
use codex_account_pool.Gateway.Broker.{Clocked, known, broker, broker-IsSupply}
use codex_account_pool.Gateway.Attempts.{is_attempt, is_switch, round_trip-attempts}
use codex_account_pool.Gateway.Headers.{IsSentFor}
use codex_account_pool.Gateway.Outgoing.{logged, serve-IsSentFor}
use codex_account_pool.Gateway.Serving.{serve-returns, serve-chosen}
use codex_account_pool.Gateway.Chunks.{observe_parts, whole, observe-parts}

abbrev clock : ℕ → ℕ
clock n = 100 + n

abbrev pool : Provider Clocked
pool = broker opaque no_waits no_waits-IsQuiet clock

pool-IsSupply : IsSupply pool known
pool-IsSupply = broker-IsSupply opaque no_waits no_waits-IsQuiet clock

broker-IsSupply_example : IsSupply pool known
broker-IsSupply_example = broker-IsSupply opaque no_waits no_waits-IsQuiet clock

abbrev session : Clocked
session = record { world = world; readings = 0 }

-- No payload is JSON, so that no response is limited.
abbrev no_json : String → Option LimitPayload
no_json s = none

-- An upstream that counts its requests and answers each with 200.
abbrev upstream : Request → ℕ → Result TransportError Response × ℕ
upstream r n = (ok (record { status = 200; body = bytes "{}" }), n + 1)

-- The host that the requests go to.
abbrev target : Upstream
target = record { scheme = "https"; host = "chatgpt.com"; path = "" }

abbrev request : Request
request = record {
  method = "POST";
  path = "/backend-api/codex/responses";
  scheme = "";
  host = "";
  connection = "X-Hop" ∷ [];
  trailers = false;
  upgrade = "";
  header =
      ("Cookie", "c" ∷ [])
      ∷ ("Connection", "X-Hop" ∷ [])
      ∷ ("X-Hop", "1" ∷ [])
      ∷ ("X-Forwarded-For", "1.2.3.4" ∷ [])
      ∷ ("Accept", "text/event-stream" ∷ [])
      ∷ [];
  body = bytes "{}";
  credentials = none;
  pinned = false;
}

serve-returns_example :
    (a : Answer Clocked ℕ) × (serve pool
        (usage_limit_response (λ s. none) no_json)
        upstream
        target
        6
        request
        ""
        session
        0
      ≡ some a)
serve-returns_example =
    serve-returns pool known pool-IsSupply (usage_limit_response (λ s. none) no_json) upstream
      target 6 request "" session 0 (omega arith)

-- A provider of two accounts that renews any credentials and always gives the spare account.
abbrev creds : String → Credentials
creds id = record { profile_id = id; access_token = "t"; account_id = id }

abbrev toy_methods : ProfileMethods ℕ
toy_methods = record {
  credentials_for_profile = λ id s. (ok (creds id), s);
  force_refresh = λ id s. (ok (creds id), s + 1);
}

abbrev toy_failover : String → Option ℕ → ℕ → Result Fault Credentials × ℕ
toy_failover id reset s = (ok (creds "spare"), s + 1)

abbrev toy : Provider ℕ
toy = record {
  credentials = λ s. (ok (creds "main"), s);
  profile_methods = some toy_methods;
  failover = some toy_failover;
}

abbrev accounts : ℕ → List String
accounts s = "main" ∷ "spare" ∷ []

toy-IsSupply : IsSupply toy accounts
unfolding contains
toy-IsSupply = record {
  active_known = λ s. refl;
  profile_known = λ m id s e. refl;
  profile_own = λ m id s v c e f.
      ap (λ x. own_of x.0) (sym (ap (λ k. k.credentials_for_profile id s) (some-injective e) ∙ f));
  refresh_own = λ m id s v c e f.
      ap (λ x. own_of x.0) (sym (ap (λ k. k.force_refresh id s) (some-injective e) ∙ f));
  refresh_known = λ m id s e. refl;
  failover_registered = λ call id reset s v c e f.
      ap (λ x. contains ("main" ∷ "spare" ∷ []) (own_of x.0))
        (sym (ap (λ k. k id reset s) (some-injective e) ∙ f));
  failover_known = λ call id reset s e. refl;
}
  where
    own_of : Result Fault Credentials → String
    own_of (ok c) = c.profile_id
    own_of (err f) = ""

-- An upstream that first refuses the credentials, then reports a used-up limit, and then answers.
abbrev moody : Request → ℕ → Result TransportError Response × ℕ
moody r n = (
  ok (record { status = if eqb n 0 then 401 else if eqb n 1 then 429 else 200; body = bytes "{}" }),
  n + 1,
)

abbrev by_status : Response → Verdict
by_status r = if eqb r.status 429 then limited none else not_limited

abbrev sent_request : Request
sent_request = record request { credentials = some (creds "main") }

abbrev or_given : {A : Type 0} → A → Option A → A
or_given a none = a
or_given a (some b) = b

abbrev run : Option (Result TripError Response × Trip ℕ ℕ)
run = round_trip toy by_status moody 6 sent_request 0 0

abbrev final : Result TripError Response × Trip ℕ ℕ
final = or_given (err body_unreadable, start sent_request none 0 0) run

run_ends : run ≡ some (final.0, final.1)
unfolding round_trip after_buffering replayable rounds follow round on_response start
    safe_auth_retry force contains after_refresh next_trip on_verdict clone_for_retry fail_over
    after_failover
run_ends = refl

attempts_of_run :
    final.1.events
    ≡ attempted_by "main"
      ∷ attempted_by "main"
      ∷ switched "main" "spare"
      ∷ attempted_by "spare"
      ∷ []
unfolding round_trip after_buffering replayable rounds follow round on_response start
    safe_auth_retry force contains after_refresh next_trip on_verdict clone_for_retry fail_over
    after_failover
attempts_of_run = refl

round_trip-attempts_example :
    (count (is_attempt "main") final.1.events ≤ 2) × (count (is_switch "main") final.1.events ≤ 1)
round_trip-attempts_example =
    round_trip-attempts toy accounts toy-IsSupply by_status moody "main" 6 sent_request 0 0 final.0
      final.1 (λ e. cc) run_ends

-- The client's own request, served with the upstream's log.
abbrev served : String → Option (Answer ℕ (List Request × ℕ))
served id = serve toy by_status (logged moody) target 6 request id 0 ([], 0)

abbrev proxied_of :
    Option (Answer ℕ (List Request × ℕ)) → Result TripError Response × Trip ℕ (List Request × ℕ)
proxied_of (some (proxied o t)) = (o, t)
proxied_of _ = (err body_unreadable, start request none 0 ([], 0))

served_ends :
    (id : String)
    → (id ≡ "") ⊎ (id ≡ "main")
    → served id ≡ some (proxied (proxied_of (served id)).0 (proxied_of (served id)).1)
unfolding serve request_credentials chosen_credentials with_found proxy with_credentials is_backend
    starts is_responses_websocket_upgrade is_websocket same_folded same_codes trim_codes trim_left
    trim_right outgoing with_agent proxied_header erase_all upgrade_type keep_trailers keep_upgrade
    default_agent joined_path ends rewrite rewrite_credentials round_trip after_buffering replayable
    rounds follow round on_response start safe_auth_retry force contains after_refresh next_trip
    on_verdict clone_for_retry fail_over after_failover
served_ends id (inl e) = rw e refl
served_ends id (inr e) = rw e refl

serve-IsSentFor_example : All (IsSentFor target request) (proxied_of (served "")).1.upstream_state.0
serve-IsSentFor_example =
    serve-IsSentFor toy accounts toy-IsSupply by_status moody target 6 request "" 0 0
      (proxied_of (served "")).0 (proxied_of (served "")).1 (served_ends "" (inl refl))

serve-chosen_example :
    All (λ e. e ≡ attempted_by "main") (proxied_of (served "main")).1.events
    × (count (is_attempt "main") (proxied_of (served "main")).1.events ≤ 2)
serve-chosen_example =
    serve-chosen toy accounts toy-IsSupply by_status (logged moody) target 6 request "main" 0
      ([], 0) (proxied_of (served "main")).0 (proxied_of (served "main")).1 (λ e. cc)
      (served_ends "main" (inr refl))

-- "data:" payloads are not looked into here.
abbrev no_type : List ℕ → Option (List ℕ)
no_type s = none

observe-parts_example :
    observe_parts no_type
      (codes "event: respon" ∷ codes "se.completed" ∷ (10 ∷ []) ∷ [])
      new_sse_observer
    ≡ observe no_type new_sse_observer
        (whole (codes "event: respon" ∷ codes "se.completed" ∷ (10 ∷ []) ∷ []))
unfolding new_sse_observer
observe-parts_example =
    observe-parts no_type (codes "event: respon" ∷ codes "se.completed" ∷ (10 ∷ []) ∷ [])
      new_sse_observer (omega arith)

announced :
    (observe no_type new_sse_observer (codes "event: response.completed" ++ (10 ∷ []))).outcome
    ≡ completed
unfolding new_sse_observer observe observe_loop cut_line end_line take_chunk observe_line
    observe_field cut_prefix trim_space reversed drop_spaces front_space end_space set_terminal
    same_codes lower_bytes lower_from
announced = refl
