-- ===== src/Gateway/Loop.antt =====
-- The rule by which an invariant of RoundTrip's loop of internal/gateway/gateway.go is proved: what
-- each step of a round has to keep.
use codex_account_pool.Prelude.{
  ℕ, zero, suc, String, Bool, true, false, ◌&&◌, ◌||◌, Option, none, some, List, [], ◌∷◌, ◌++◌, ◌≡◌,
  refl, subst, Result, ok, err, eqb, if◌then◌else◌, ◌==◌, contains, arith, inl, inr, either_branch,
  Bool-cases,
}
use codex_account_pool.AuthBroker.{Fault, Credentials, code}
use codex_account_pool.Gateway.{
  Request, Response, TransportError, TripError, Provider, ProfileMethods, Verdict, unreadable,
  not_limited, limited, Trip, Round, returned, again, profile_of, is_login_lost, next_trip,
  attempted_by, switched, after_failover, fail_over, on_verdict, after_refresh, force, on_response,
  round, follow, rounds, start, after_buffering, round_trip, replayable, safe_auth_retry,
}
use codex_account_pool.Gateway.Supply.{IsSupply}
use codex_account_pool.Gateway.Termination.{pair-eta}

module _ {S U : Type 0} where
  abbrev pub account : Trip S U → String
  account t = profile_of t.current.credentials

  abbrev pub sent : Trip S U → U → Trip S U
  sent t u = record t { upstream_state = u; events = t.events ++ (attempted_by (account t) ∷ []) }

  abbrev pub noted : Trip S U → S → Trip S U
  noted t s = record t { auth_refreshed = account t ∷ t.auth_refreshed; provider_state = s }

  abbrev pub moved : Trip S U → S → Trip S U
  moved t s = record t { provider_state = s }

  abbrev pub switched_trip : Trip S U → Credentials → Trip S U
  switched_trip t c = record (next_trip t c) {
    attempted = c.profile_id ∷ t.attempted;
    events = t.events ++ (switched (account t) c.profile_id ∷ []);
  }

  -- `Head` holds when a round starts, `Done` after its attempt and when the loop returns.
  pub record LoopRule (base : Request → U → Result TransportError Response × U)
      (Head Done : Trip S U → Type 0) : Type 0 where
    pub sends : (t : Trip S U) → Head t → Done (sent t (base t.current t.upstream_state).1)
    pub notes :
        (t : Trip S U) (s : S)
        → contains t.auth_refreshed (account t) ≡ false
        → Done t
        → Done (noted t s)
    pub moves : (t : Trip S U) (s : S) → Done t → Done (moved t s)
    pub refreshes :
        (t : Trip S U) (s : S) (c : Credentials)
        → contains t.auth_refreshed (account t) ≡ false
        → c.profile_id ≡ account t
        → Done t
        → Head (next_trip (noted t s) c)
    pub switches :
        (t : Trip S U) (c : Credentials)
        → t.current.pinned ≡ false
        → contains t.attempted c.profile_id ≡ false
        → Done t
        → Head (switched_trip t c)

module _ {S U : Type 0} (base : Request → U → Result TransportError Response × U)
    (Head Done : Trip S U → Type 0) where
  abbrev pub Kept : Round S U → Type 0
  Kept (returned r t) = Done t
  Kept (again t) = Head t

  module _ (rule : LoopRule base Head Done) where
    after_failover-Kept :
        (r : Response) (t : Trip S U) (o : Result Fault Credentials)
        → t.current.pinned ≡ false
        → Done t
        → Kept (after_failover r t (account t) o)
    unfolding after_failover
    after_failover-Kept r t (err f) p h = h
    after_failover-Kept r t (ok c) p h =
        elim (Bool-cases ((c.profile_id == "") || contains t.attempted c.profile_id)) [
          | inl e ↦ rw e h
          | inr e ↦ rw e (rule.switches t c p (ground arith) h)
        ]

    fail_over-Kept :
        (r : Response) (reset : Option ℕ) (t : Trip S U)
        (o : Option (String → Option ℕ → S → Result Fault Credentials × S))
        → t.current.pinned ≡ false
        → Done t
        → Kept (fail_over r reset t o)
    unfolding fail_over
    fail_over-Kept r reset t none p h = h
    fail_over-Kept r reset t (some call) p h =
        let asked = call (account t) reset t.provider_state in
        either_branch Kept (account t == "") h
          (after_failover-Kept r (moved t asked.1) asked.0 p (rule.moves t asked.1 h))

    module _ (provider : Provider S) (known : S → List String)
        (supply : IsSupply provider known) where
      on_verdict-Kept :
          (r : Response) (t : Trip S U) (v : Verdict) → Done t → Kept (on_verdict provider r t v)
      unfolding on_verdict
      on_verdict-Kept r t unreadable h = h
      on_verdict-Kept r t not_limited h = h
      on_verdict-Kept r t (limited reset) h = by_pin t.current.pinned refl
        where
          by_pin :
              (b : Bool)
              → t.current.pinned ≡ b
              → Kept (if b then returned (ok r) t else fail_over r reset t provider.failover)
          by_pin true p = h
          by_pin false p = fail_over-Kept r reset t provider.failover p h

      module _ (verdict : Response → Verdict) where
        after_refresh-Kept :
            (r : Response) (t : Trip S U) (s : S) (o : Result Fault Credentials)
            → contains t.auth_refreshed (account t) ≡ false
            → ((c : Credentials) → o ≡ ok c → c.profile_id ≡ account t)
            → Done t
            → Kept (after_refresh provider verdict r (noted t s) o)
        unfolding after_refresh
        after_refresh-Kept r t s (ok c) n own h = rule.refreshes t s c n (own c refl) h
        after_refresh-Kept r t s (err f) n own h =
            either_branch Kept (is_login_lost (code f))
              (on_verdict-Kept r (noted t s) (verdict r) (rule.notes t s n h)) (rule.notes t s n h)

        force-Kept :
            (r : Response) (t : Trip S U) (o : Option (ProfileMethods S))
            → provider.profile_methods ≡ o
            → Done t
            → Kept (force provider verdict r t o)
        unfolding force
        force-Kept r t none e h = on_verdict-Kept r t (verdict r) h
        force-Kept r t (some m) e h =
            let asked = m.force_refresh (account t) t.provider_state in
            elim (Bool-cases ((account t == "") || contains t.auth_refreshed (account t))) [
              | inl n ↦ rw n (on_verdict-Kept r t (verdict r) h)
              | inr n ↦ rw n (
                  after_refresh-Kept r t asked.1 asked.0 (ground arith)
                    (λ c o.
                      supply.refresh_own m (account t) t.provider_state asked.1 c e
                        (pair-eta asked o))
                    h)
            ]

        on_response-Kept :
            (t : Trip S U) (o : Result TransportError Response)
            → Done t
            → Kept (on_response provider verdict t o)
        unfolding on_response
        on_response-Kept t (err e) h = h
        on_response-Kept t (ok r) h =
            either_branch Kept (eqb r.status 401 && safe_auth_retry t.current)
              (force-Kept r t provider.profile_methods refl h) (on_verdict-Kept r t (verdict r) h)

        round-Kept : (t : Trip S U) → Head t → Kept (round provider verdict base t)
        unfolding round
        round-Kept t h =
            let answer = base t.current t.upstream_state in
            on_response-Kept (sent t answer.1) answer.0 (rule.sends t h)

        follow-Done :
            (rest : Trip S U → Option (Result TripError Response × Trip S U)) (o : Round S U)
            (r : Result TripError Response) (v : Trip S U)
            → ((t : Trip S U) → Head t → rest t ≡ some (r, v) → Done v)
            → Kept o
            → follow rest o ≡ some (r, v)
            → Done v
        unfolding follow
        follow-Done rest (returned q t) r v ih k e = subst Done (ground arith) k
        follow-Done rest (again t) r v ih k e = ih t k e

        pub rounds-Done :
            (n : ℕ) (t : Trip S U) (r : Result TripError Response) (v : Trip S U)
            → Head t
            → rounds provider verdict base n t ≡ some (r, v)
            → Done v
        unfolding rounds
        rounds-Done zero t r v h e = cc
        rounds-Done (suc n) t r v h e =
            follow-Done (rounds provider verdict base n) (round provider verdict base t) r v
              (λ w k. rounds-Done n w r v k) (round-Kept t h) e

        -- From the start of the loop to the end of the round trip.
        pub round_trip-Done :
            (n : ℕ) (q : Request) (s : S) (u : U) (r : Result TripError Response) (v : Trip S U)
            → ((body : Option String) → replayable q.body ≡ ok body → Head (start q body s u))
            → Done (start q none s u)
            → round_trip provider verdict base n q s u ≡ some (r, v)
            → Done v
        unfolding round_trip
        round_trip-Done n q s u r v h d e = after (replayable q.body) refl e
          where
            after :
                (b : Result TripError (Option String))
                → replayable q.body ≡ b
                → after_buffering provider verdict base n q s u b ≡ some (r, v)
                → Done v
            after (err f) k e = unfold after_buffering in (subst Done (ground arith) d)
            after (ok body) k e =
                unfold after_buffering in (rounds-Done n (start q body s u) r v (h body k) e)
