-- ===== src/Gateway/Handler.antt =====
-- serveHTTP of internal/gateway/gateway.go: which requests are answered at once, and which go to the
-- upstream with whose credentials. The reverse proxy of net/http calls Rewrite, RoundTrip and, on an
-- error, the ErrorHandler.
use codex_account_pool.Prelude.{
  ℕ, String, not, Option, none, some, Result, ok, err, if◌then◌else◌, ◌==◌,
}
use codex_account_pool.AuthBroker.{Fault, Credentials}
use codex_account_pool.Gateway.State.{
  Request, Response, TransportError, TripError, Provider, ProfileMethods,
}
use codex_account_pool.Gateway.Limit.{Verdict}
use codex_account_pool.Gateway.Requests.{
  is_backend, is_responses_websocket_upgrade, Upstream, outgoing,
}
use codex_account_pool.Gateway.Transport.{Trip, round_trip}

-- The answers: the local ones, with the provider's state, and what the round trip gives.
pub data Answer (S U : Type 0) : Type 0 where
  not_found : Answer S U
  upgrade_required : Answer S U
  auth_unavailable : S → Answer S U
  proxied : Result TripError Response → Trip S U → Answer S U

abbrev pub status_of_trip : Result TripError Response → ℕ
status_of_trip (ok r) = r.status
status_of_trip (err e) = 502

-- The status that the client is sent.
abbrev pub status_of : {S U : Type 0} → Answer S U → ℕ
status_of not_found = 404
status_of upgrade_required = 426
status_of (auth_unavailable s) = 502
status_of (proxied r t) = status_of_trip r

-- The request that goes to the proxy.
unfoldable pub with_credentials : Request → String → Credentials → Request
with_credentials r id c = record r { credentials = some c; pinned = not (id == "") }

abbrev pub answer_of :
    {S U : Type 0} → Option (Result TripError Response × Trip S U) → Option (Answer S U)
answer_of none = none
answer_of (some (r, t)) = some (proxied r t)

-- The credentials of a chosen account, or of the active one. `none` is a provider that cannot look
-- an account up.
unfoldable pub chosen_credentials :
    {S : Type 0} → String → S → Option (ProfileMethods S) → Option (Result Fault Credentials) × S
chosen_credentials id s none = (none, s)
chosen_credentials id s (some m) =
    let asked = m.credentials_for_profile id s in (some asked.0, asked.1)

module _ {S : Type 0} (provider : Provider S) where
  unfoldable pub request_credentials : String → S → Option (Result Fault Credentials) × S
  request_credentials id s =
      let asked = provider.credentials s in
      if id == "" then (some asked.0, asked.1) else chosen_credentials id s provider.profile_methods

  module _ {U : Type 0} (verdict : Response → Verdict)
      (base : Request → U → Result TransportError Response × U) (upstream : Upstream) where
    unfoldable pub proxy : ℕ → Request → S → U → Option (Answer S U)
    proxy n r s u = answer_of (round_trip provider verdict base n (outgoing upstream r) s u)

    unfoldable pub with_found :
        ℕ → Request → String → U → Option (Result Fault Credentials) → S → Option (Answer S U)
    with_found n r id u none s = some (auth_unavailable s)
    with_found n r id u (some (err f)) s = some (auth_unavailable s)
    with_found n r id u (some (ok c)) s = proxy n (with_credentials r id c) s u

    -- serveHTTP, with so many rounds for the transport; ServeHTTP passes an empty id.
    unfoldable pub serve : ℕ → Request → String → S → U → Option (Answer S U)
    serve n r id s u =
        let found = request_credentials id s in
        if not (is_backend r)
        then some not_found
        else if is_responses_websocket_upgrade r
        then some upgrade_required
        else with_found n r id u found.0 found.1
