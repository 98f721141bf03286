-- ===== src/Gateway/Serving.antt =====
-- serveHTTP of internal/gateway/gateway.go as a whole: it answers, and a request for a chosen account
-- stays with that account.
use codex_account_pool.Prelude.{
  ℕ, ◌+◌, ◌*◌, ◌≤◌, ◌<◌, String, not, Option, none, some, List, ◌≡◌, ◌≢◌, refl, ap, Result, ok, err,
  ◌==◌, count, length, All, arith, inl, inr, Bool-cases, ne→eq_false,
}
use codex_account_pool.AuthBroker.{Fault, Credentials}
use codex_account_pool.Gateway.{
  Request, Response, TransportError, TripError, Provider, ProfileMethods, Verdict, Trip,
  attempted_by, Answer, not_found, upgrade_required, auth_unavailable, proxied, serve, with_found,
  request_credentials, chosen_credentials, proxy, answer_of, is_backend, rewrite, with_credentials,
  Upstream, outgoing, with_agent, is_responses_websocket_upgrade,
}
use codex_account_pool.Gateway.Answers.{answer_of-proxied}
use codex_account_pool.Gateway.Supply.{IsSupply}
use codex_account_pool.Gateway.Termination.{round_trip-returns, pair-eta}
use codex_account_pool.Gateway.Attempts.{is_attempt, round_trip-pinned}

module _ {S U : Type 0} (provider : Provider S) (known : S → List String)
    (supply : IsSupply provider known) (verdict : Response → Verdict)
    (base : Request → U → Result TransportError Response × U) (upstream : Upstream) where
  chosen-known :
      (id : String) (s : S) (o : Option (ProfileMethods S))
      → provider.profile_methods ≡ o
      → known (chosen_credentials id s o).1 ≡ known s
  unfolding chosen_credentials
  chosen-known id s none e = refl
  chosen-known id s (some m) e = supply.profile_known m id s e

  found-known : (id : String) (s : S) → known (request_credentials provider id s).1 ≡ known s
  unfolding request_credentials
  found-known id s = elim (Bool-cases (id == "")) [
    | inl e ↦ rw e (supply.active_known s)
    | inr e ↦ rw e (chosen-known id s provider.profile_methods refl)
  ]

  proxied-returns :
      (x : Option (Result TripError Response × Trip S U)) (y : Result TripError Response × Trip S U)
      → x ≡ some y
      → (a : Answer S U) × (answer_of x ≡ some a)
  proxied-returns x (o, t) e = (proxied o t, rw e refl)

  with_found-returns :
      (n : ℕ) (r : Request) (id : String) (u : U) (f : Option (Result Fault Credentials)) (s : S)
      → 2 * length (known s) + 1 < n
      → (a : Answer S U) × (with_found provider verdict base upstream n r id u f s ≡ some a)
  unfolding with_found proxy
  with_found-returns n r id u none s h = (auth_unavailable s, refl)
  with_found-returns n r id u (some (err f)) s h = (auth_unavailable s, refl)
  with_found-returns n r id u (some (ok c)) s h =
      let (y, e) =
        round_trip-returns known provider supply verdict base
          (outgoing upstream (with_credentials r id c)) s u n h in
      proxied-returns _ y e

  -- The gateway answers every request, whatever the upstream does: the rounds for two attempts of
  -- each registered account, and two more, are enough.
  pub serve-returns :
      (n : ℕ) (r : Request) (id : String) (s : S) (u : U)
      → 2 * length (known s) + 1 < n
      → (a : Answer S U) × (serve provider verdict base upstream n r id s u ≡ some a)
  unfolding serve
  serve-returns n r id s u h = elim (Bool-cases (is_backend r)) [
    | inr b ↦ (not_found, rw b refl)
    | inl b ↦ elim (Bool-cases (is_responses_websocket_upgrade r)) [
      | inl w ↦ (upgrade_required, rw (b, w) refl)
      | inr w ↦
          let found = request_credentials provider id s in
          let (a, e) = with_found-returns n r id u found.0 found.1 (rw (found-known id s) h) in
          (a, rw (b, w) e)
    ]
  ]

  chosen-own :
      (id : String) (s : S) (o : Option (ProfileMethods S)) (c : Credentials)
      → provider.profile_methods ≡ o
      → (chosen_credentials id s o).0 ≡ some (ok c)
      → c.profile_id ≡ id
  unfolding chosen_credentials
  chosen-own id s none c e f = cc
  chosen-own id s (some m) c e f =
      let asked = m.credentials_for_profile id s in
      supply.profile_own m id s asked.1 c e (pair-eta asked (ground arith))

  found-own :
      (id : String) (s : S) (c : Credentials)
      → id ≢ ""
      → (request_credentials provider id s).0 ≡ some (ok c)
      → c.profile_id ≡ id
  unfolding request_credentials
  found-own id s c ne e =
      chosen-own id s provider.profile_methods c refl (ground (arith, ne→eq_false id "" ne))

  with_found-chosen :
      (n : ℕ) (r : Request) (id : String) (s : S) (u : U) (o : Result TripError Response)
      (t : Trip S U) (f : Option (Result Fault Credentials))
      → id ≢ ""
      → ((c : Credentials) → f ≡ some (ok c) → c.profile_id ≡ id)
      → with_found provider verdict base upstream n r id u f s ≡ some (proxied o t)
      → All (λ e. e ≡ attempted_by id) t.events × (count (is_attempt id) t.events ≤ 2)
  unfolding with_found proxy outgoing with_agent rewrite with_credentials
  with_found-chosen n r id s u o t none ne own e = cc
  with_found-chosen n r id s u o t (some (err f)) ne own e = cc
  with_found-chosen n r id s u o t (some (ok c)) ne own e =
      round_trip-pinned provider known supply verdict base id n
        (outgoing upstream (with_credentials r id c)) s u o t ne (ap not (ne→eq_false id "" ne))
        (own c refl) (answer_of-proxied _ o t e)

  -- A request for a chosen account, by ServeHTTPForProfile: if it reaches the upstream, then each time
  -- with the credentials of that account, and twice at most.
  pub serve-chosen :
      (n : ℕ) (r : Request) (id : String) (s : S) (u : U) (o : Result TripError Response)
      (t : Trip S U)
      → id ≢ ""
      → serve provider verdict base upstream n r id s u ≡ some (proxied o t)
      → All (λ e. e ≡ attempted_by id) t.events × (count (is_attempt id) t.events ≤ 2)
  unfolding serve
  serve-chosen n r id s u o t ne e =
      let found = request_credentials provider id s in
      elim (Bool-cases (is_backend r)) [
        | inr b ↦ absurd (ground (arith, e))
        | inl b ↦ elim (Bool-cases (is_responses_websocket_upgrade r)) [
          | inl w ↦ absurd (ground (arith, e))
          | inr w ↦
              with_found-chosen n r id found.1 u o t found.0 ne (λ c f. found-own id s c ne f)
                (ground (arith, e))
        ]
      ]
