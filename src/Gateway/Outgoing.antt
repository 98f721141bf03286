-- ===== src/Gateway/Outgoing.antt =====
-- The requests that the upstream of internal/gateway/gateway.go receives in a whole run of serveHTTP.
use codex_account_pool.Prelude.{
  ℕ, String, Option, none, some, List, [], ◌∷◌, ◌++◌, ◌≡◌, refl, ap, subst, some-injective, ◌∙◌,
  Result, ok, err, All, All-append, arith, inl, inr, Bool-cases,
}
use codex_account_pool.AuthBroker
use codex_account_pool.AuthBroker.{Fault}
use codex_account_pool.Gateway.{
  Request, Response, TransportError, TripError, Provider, Verdict, Trip, next_trip, Body, no_body,
  bytes, broken_body, clone_for_retry, body_of, replayable, start, round_trip, after_buffering,
  with_credentials, proxied, serve, with_found, request_credentials, proxy, is_backend,
  is_responses_websocket_upgrade, Upstream, outgoing,
}
use codex_account_pool.Gateway.Answers.{answer_of-proxied}
use codex_account_pool.Gateway.Supply.{IsSupply}
use codex_account_pool.Gateway.Loop.{LoopRule, rounds-Done}
use codex_account_pool.Gateway.Headers.{IsSentFor, clone-IsSentFor, outgoing-IsSentFor}

replayable-body_of : (b : Body) (body : Option String) → replayable b ≡ ok body → body_of body ≡ b
unfolding replayable
replayable-body_of no_body body e = ground arith
replayable-body_of broken_body body e = cc
replayable-body_of (bytes s) body e = ground arith

module _ {U : Type 0} where
  -- An upstream that keeps the requests that it has received, the first one first.
  abbrev pub logged :
      (Request → U → Result TransportError Response × U)
      → Request
      → List Request × U
      → Result TransportError Response × (List Request × U)
  logged base r (log, u) = let answer = base r u in (answer.0, (log ++ (r ∷ []), answer.1))

module _ {S U : Type 0} where
  record Sending (upstream : Upstream) (client : Request) (t : Trip S (List Request × U))
      : Type 0 where
    pub current : IsSentFor upstream client t.current
    pub body : body_of t.body ≡ client.body
    pub log : All (IsSentFor upstream client) t.upstream_state.0

  sending :
      (upstream : Upstream) (client : Request)
      (base : Request → U → Result TransportError Response × U)
      → LoopRule (logged base) (Sending upstream client) (Sending upstream client)
  unfolding next_trip clone_for_retry
  sending upstream client base = record {
    sends = λ t h. record {
      current = h.current;
      body = h.body;
      log = All-append (IsSentFor upstream client) t.upstream_state.0 _ h.log (h.current, tt);
    };
    notes = λ t s n h. record { current = h.current; body = h.body; log = h.log };
    moves = λ t s h. record { current = h.current; body = h.body; log = h.log };
    refreshes = λ t s c n own h. record {
      current = clone-IsSentFor upstream client t.current t.body c h.current h.body;
      body = h.body;
      log = h.log;
    };
    switches = λ t c pin n h. record {
      current = clone-IsSentFor upstream client t.current t.body c h.current h.body;
      body = h.body;
      log = h.log;
    };
  }

module _ {S U : Type 0} (provider : Provider S) (known : S → List String)
    (supply : IsSupply provider known) (verdict : Response → Verdict)
    (base : Request → U → Result TransportError Response × U) (upstream : Upstream) where
  round_trip-sent :
      (client q : Request) (n : ℕ) (s : S) (u : U) (o : Result TripError Response)
      (t : Trip S (List Request × U))
      → IsSentFor upstream client q
      → round_trip provider verdict (logged base) n q s ([], u) ≡ some (o, t)
      → All (IsSentFor upstream client) t.upstream_state.0
  unfolding round_trip
  round_trip-sent client q n s u o t h e = by_body (replayable q.body) refl e
    where
      by_body :
          (b : Result TripError (Option String))
          → replayable q.body ≡ b
          → after_buffering provider verdict (logged base) n q s ([], u) b ≡ some (o, t)
          → All (IsSentFor upstream client) t.upstream_state.0
      by_body (err f) k e =
          unfold after_buffering start in
          (subst
            (λ (v : Trip S (List Request × U)). All (IsSentFor upstream client) v.upstream_state.0)
            (ap (λ x. x.1) (some-injective e)) tt)
      by_body (ok body) k e =
          unfold after_buffering start in
          ((rounds-Done (logged base) (Sending upstream client) (Sending upstream client)
            (sending upstream client base) provider known supply verdict n (start q body s ([], u))
            o t (record { current = h; body = replayable-body_of q.body body k ∙ h.body; log = tt })
            e).log)

  with_found-sent :
      (n : ℕ) (r : Request) (id : String) (s : S) (u : U) (o : Result TripError Response)
      (t : Trip S (List Request × U)) (f : Option (Result Fault AuthBroker.Credentials))
      → with_found provider verdict (logged base) upstream n r id ([], u) f s ≡ some (proxied o t)
      → All (IsSentFor upstream r) t.upstream_state.0
  unfolding with_found proxy
  with_found-sent n r id s u o t none e = cc
  with_found-sent n r id s u o t (some (err f)) e = cc
  with_found-sent n r id s u o t (some (ok c)) e =
      round_trip-sent r (outgoing upstream (with_credentials r id c)) n s u o t
        (outgoing-IsSentFor upstream r id c) (answer_of-proxied _ o t e)

  -- Whatever the client sends under the four headers that name an account, every request that the
  -- upstream receives carries the credentials of the account that it is sent for, no credentials of a
  -- proxy and no cookie. Its other headers are the client's, less those of the connection and of
  -- forwarding, with the upgrade and the trailers asked for, and with an empty agent where there is
  -- none. It goes to the scheme and host of the upstream, under its path joined with the client's, with
  -- the client's method and body.
  pub serve-IsSentFor :
      (n : ℕ) (r : Request) (id : String) (s : S) (u : U) (o : Result TripError Response)
      (t : Trip S (List Request × U))
      → serve provider verdict (logged base) upstream n r id s ([], u) ≡ some (proxied o t)
      → All (IsSentFor upstream r) t.upstream_state.0
  unfolding serve
  serve-IsSentFor n r id s u o t e =
      let found = request_credentials provider id s in
      elim (Bool-cases (is_backend r)) [
        | inr b ↦ absurd (ground (arith, e))
        | inl b ↦ elim (Bool-cases (is_responses_websocket_upgrade r)) [
          | inl w ↦ absurd (ground (arith, e))
          | inr w ↦ with_found-sent n r id found.1 u o t found.0 (ground (arith, e))
        ]
      ]
