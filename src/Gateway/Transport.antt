-- ===== src/Gateway/Transport.antt =====
-- quotaFailoverTransport.RoundTrip of internal/gateway/gateway.go: the attempts of one request, the
-- refresh of an account's credentials and the change to another account. The upstream is an argument,
-- with the state that it carries from one request to the next.
use codex_account_pool.Prelude.{
  ℕ, zero, suc, String, Bool, true, false, ◌&&◌, ◌||◌, Option, none, some, List, [], ◌∷◌, ◌++◌,
  Result, ok, err, eqb, if◌then◌else◌, ◌==◌, contains,
}
use codex_account_pool.AuthBroker.{
  Fault, ErrorCode, not_logged_in, reauth_required, temporarily_unavailable, internal_error, code,
  Credentials,
}
use codex_account_pool.Gateway.State.{
  Request, Response, TransportError, TripError, upstream_failed, response_unreadable,
  refresh_unavailable, Provider, ProfileMethods, TripEvent, attempted_by, switched,
}
use codex_account_pool.Gateway.Limit.{Verdict, unreadable, not_limited, limited}
use codex_account_pool.Gateway.Requests.{clone_for_retry, safe_auth_retry, replayable}

-- The variables of the loop, with the states of the provider and of the upstream, and the events so
-- far, the first one first.
pub record Trip (S U : Type 0) : Type 0 where
  pub current : Request
  pub body : Option String
  pub attempted : List String
  pub auth_refreshed : List String
  pub provider_state : S
  pub upstream_state : U
  pub events : List TripEvent

-- A round of the loop returns, or goes on.
pub data Round (S U : Type 0) : Type 0 where
  returned : Result TripError Response → Trip S U → Round S U
  again : Trip S U → Round S U

abbrev pub profile_of : Option Credentials → String
profile_of none = ""
profile_of (some c) = c.profile_id

abbrev pub ids_of : Option Credentials → List String
ids_of none = []
ids_of (some c) = c.profile_id ∷ []

-- What the error of a refresh lets the loop go on with: the response itself.
abbrev pub is_login_lost : ErrorCode → Bool
is_login_lost not_logged_in = true
is_login_lost reauth_required = true
is_login_lost temporarily_unavailable = false
is_login_lost internal_error = false

module _ {S U : Type 0} where
  unfoldable pub next_trip : Trip S U → Credentials → Trip S U
  next_trip t c = record t { current = clone_for_retry t.current t.body c }

  -- After Failover.
  unfoldable pub after_failover :
      Response → Trip S U → String → Result Fault Credentials → Round S U
  after_failover r t id (err f) = returned (ok r) t
  after_failover r t id (ok c) =
      if (c.profile_id == "") || contains t.attempted c.profile_id
      then returned (ok r) t
      else again (record (next_trip t c) {
        attempted = c.profile_id ∷ t.attempted;
        events = t.events ++ (switched id c.profile_id ∷ []);
      })

  unfoldable pub fail_over :
      Response
      → Option ℕ
      → Trip S U
      → Option (String → Option ℕ → S → Result Fault Credentials × S)
      → Round S U
  fail_over r reset t none = returned (ok r) t
  fail_over r reset t (some call) =
      let id = profile_of t.current.credentials in
      let asked = call id reset t.provider_state in
      if id == ""
      then returned (ok r) t
      else after_failover r (record t { provider_state = asked.1 }) id asked.0

  unfoldable pub follow :
      (Trip S U → Option (Result TripError Response × Trip S U))
      → Round S U
      → Option (Result TripError Response × Trip S U)
  follow rest (returned r t) = some (r, t)
  follow rest (again t) = rest t

  -- The state in which the loop starts.
  unfoldable pub start : Request → Option String → S → U → Trip S U
  start r body s u = record {
    current = r;
    body = body;
    attempted = ids_of r.credentials;
    auth_refreshed = [];
    provider_state = s;
    upstream_state = u;
    events = [];
  }

module _ {S U : Type 0} (provider : Provider S) where
  unfoldable pub on_verdict : Response → Trip S U → Verdict → Round S U
  on_verdict r t unreadable = returned (err response_unreadable) t
  on_verdict r t not_limited = returned (ok r) t
  on_verdict r t (limited reset) =
      if t.current.pinned then returned (ok r) t else fail_over r reset t provider.failover

  module _ (verdict : Response → Verdict) where
    -- After ForceRefresh, whose account has been noted.
    unfoldable pub after_refresh : Response → Trip S U → Result Fault Credentials → Round S U
    after_refresh r t (ok c) = again (next_trip t c)
    after_refresh r t (err f) =
        if is_login_lost (code f)
        then on_verdict r t (verdict r)
        else returned (err (refresh_unavailable f)) t

    unfoldable pub force : Response → Trip S U → Option (ProfileMethods S) → Round S U
    force r t none = on_verdict r t (verdict r)
    force r t (some methods) =
        let id = profile_of t.current.credentials in
        let asked = methods.force_refresh id t.provider_state in
        if (id == "") || contains t.auth_refreshed id
        then on_verdict r t (verdict r)
        else after_refresh r
            (record t { auth_refreshed = id ∷ t.auth_refreshed; provider_state = asked.1 }) asked.0

    unfoldable pub on_response : Trip S U → Result TransportError Response → Round S U
    on_response t (err e) = returned (err (upstream_failed e)) t
    on_response t (ok r) =
        if eqb r.status 401 && safe_auth_retry t.current
        then force r t provider.profile_methods
        else on_verdict r t (verdict r)

    module _ (base : Request → U → Result TransportError Response × U) where
      unfoldable pub round : Trip S U → Round S U
      round t =
          let answer = base t.current t.upstream_state in
          on_response
            (record t {
              upstream_state = answer.1;
              events = t.events ++ (attempted_by (profile_of t.current.credentials) ∷ []);
            })
            answer.0

      -- The loop, for so many rounds.
      unfoldable pub rounds : ℕ → Trip S U → Option (Result TripError Response × Trip S U)
      rounds zero t = none
      rounds (suc n) t = follow (rounds n) (round t)

      -- RoundTrip: the error, or the loop with so many rounds.
      unfoldable pub after_buffering :
          ℕ
          → Request
          → S
          → U
          → Result TripError (Option String)
          → Option (Result TripError Response × Trip S U)
      after_buffering n r s u (err e) = some (err e, start r none s u)
      after_buffering n r s u (ok body) = rounds n (start r body s u)

      unfoldable pub round_trip :
          ℕ → Request → S → U → Option (Result TripError Response × Trip S U)
      round_trip n r s u = after_buffering n r s u (replayable r.body)
