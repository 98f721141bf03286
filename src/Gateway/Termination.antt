-- ===== src/Gateway/Termination.antt =====
-- The loop of RoundTrip of internal/gateway/gateway.go ends.
use codex_account_pool.Prelude.{
  ℕ, zero, suc, ◌+◌, ◌*◌, ◌≤◌, ◌<◌, String, true, false, not, ◌&&◌, ◌||◌, Option, none, some, List,
  [], ◌∷◌, ◌++◌, ◌≡◌, refl, ap, subst, Result, ok, err, eqb, if◌then◌else◌, ◌==◌, contains, count,
  count-le, length, arith, eq_iff, inl, inr, either_branch, Bool-cases,
}
use codex_account_pool.AuthBroker.{Fault, Credentials, code}
use codex_account_pool.Gateway.{
  Request, Response, TransportError, TripError, Provider, ProfileMethods, Verdict, unreadable,
  not_limited, limited, Trip, Round, returned, again, profile_of, is_login_lost, next_trip,
  after_failover, fail_over, on_verdict, after_refresh, force, on_response, round, follow, rounds,
  start, after_buffering, round_trip, replayable, clone_for_retry, attempted_by, safe_auth_retry,
}
use codex_account_pool.Gateway.Supply.{IsSupply}

contains_self : (x : String) (l : List String) → contains (x ∷ l) x ≡ true
unfolding contains
contains_self x l = ground (arith, eq_iff x x)

pub pair-eta : {A B : Type 0} {a : A} (p : A × B) → p.0 ≡ a → p ≡ (a, p.1)
pair-eta p e = ap (λ x. (x, p.1)) e

-- The accounts of a list that are not in another one.
abbrev pub left_of : List String → List String → ℕ
left_of known used = count (λ k. not (contains used k)) known

pub contains-cons :
    (x k : String) (l : List String) → contains (x ∷ l) k ≡ ((k == x) || contains l k)
unfolding contains
contains-cons x k l = refl

left_of-cons-le :
    (known used : List String) (x : String) → left_of known (x ∷ used) ≤ left_of known used
left_of-cons-le [] used x = omega arith
left_of-cons-le (k ∷ known) used x =
    ground (arith, left_of-cons-le known used x, contains-cons x k used)

left_of-cons-lt :
    (known used : List String) (x : String)
    → contains known x ≡ true
    → contains used x ≡ false
    → left_of known (x ∷ used) < left_of known used
left_of-cons-lt [] used x h n = unfold contains in cc
left_of-cons-lt (k ∷ known) used x h n = elim (Bool-cases (x == k)) [
  | inl e ↦
      let same = (eq_iff x k).0 e in
      let gone = contains-cons x k used in
      let open_k : contains used k ≡ false = subst (λ j. contains used j ≡ false) same n in
      ground (arith, left_of-cons-le known used x, gone, eq_iff k x)
  | inr e ↦ ground (
    arith,
    contains-cons k x known,
    contains-cons x k used,
    left_of-cons-lt known used x,
    eq_iff x k,
  )
]

-- What the loop can still do: change to an account that it has not tried, after which it may refresh
-- that account, or refresh the current one.
module _ {S U : Type 0} (known : S → List String) where
  unrefreshed : Trip S U → ℕ
  unrefreshed t = if contains t.auth_refreshed (profile_of t.current.credentials) then 0 else 1

  potential : Trip S U → ℕ
  potential t = 2 * left_of (known t.provider_state) t.attempted + unrefreshed t

  -- The loop returns, or goes on with less left to do than `bound`.
  abbrev Shrinks : ℕ → Round S U → Type 0
  Shrinks bound (returned r t) = Unit
  Shrinks bound (again t) = potential t < bound

  module _ (provider : Provider S) (supply : IsSupply provider known) where
    after_failover-Shrinks :
        (r : Response) (t : Trip S U) (bound : ℕ) (id : String) (o : Result Fault Credentials)
        → 2 * left_of (known t.provider_state) t.attempted ≤ bound
        → ((c : Credentials) → o ≡ ok c → contains (known t.provider_state) c.profile_id ≡ true)
        → Shrinks bound (after_failover r t id o)
    unfolding after_failover next_trip clone_for_retry potential unrefreshed
    after_failover-Shrinks r t bound id (err f) h k = tt
    after_failover-Shrinks r t bound id (ok c) h k =
        elim (Bool-cases ((c.profile_id == "") || contains t.attempted c.profile_id)) [
          | inl e ↦ rw e tt
          | inr e ↦
              let lt =
                left_of-cons-lt (known t.provider_state) t.attempted c.profile_id (k c refl)
                  (ground arith) in
              rw e (ground (arith, lt))
        ]

    fail_over-Shrinks :
        (r : Response) (reset : Option ℕ) (t : Trip S U) (bound : ℕ)
        (o : Option (String → Option ℕ → S → Result Fault Credentials × S))
        → provider.failover ≡ o
        → 2 * left_of (known t.provider_state) t.attempted ≤ bound
        → Shrinks bound (fail_over r reset t o)
    unfolding fail_over
    fail_over-Shrinks r reset t bound none e h = tt
    fail_over-Shrinks r reset t bound (some call) e h =
        let id = profile_of t.current.credentials in
        let asked = call id reset t.provider_state in
        let same = supply.failover_known call id reset t.provider_state e in
        elim (Bool-cases (id == "")) [
          | inl n ↦ rw n tt
          | inr n ↦ rw n (
              after_failover-Shrinks r (record t { provider_state = asked.1 }) bound id asked.0
                (rw same h)
                (λ c o. rw same (
                  supply.failover_registered call id reset t.provider_state asked.1 c e
                    (pair-eta asked o))))
        ]

    on_verdict-Shrinks :
        (r : Response) (t : Trip S U) (bound : ℕ) (v : Verdict)
        → 2 * left_of (known t.provider_state) t.attempted ≤ bound
        → Shrinks bound (on_verdict provider r t v)
    unfolding on_verdict
    on_verdict-Shrinks r t bound unreadable h = tt
    on_verdict-Shrinks r t bound not_limited h = tt
    on_verdict-Shrinks r t bound (limited reset) h =
        either_branch (Shrinks bound) t.current.pinned tt
          (fail_over-Shrinks r reset t bound provider.failover refl h)

    module _ (verdict : Response → Verdict) where
      after_refresh-Shrinks :
          (r : Response) (t : Trip S U) (bound : ℕ) (o : Result Fault Credentials)
          → 2 * left_of (known t.provider_state) t.attempted < bound
          → ((c : Credentials) → o ≡ ok c → contains t.auth_refreshed c.profile_id ≡ true)
          → Shrinks bound (after_refresh provider verdict r t o)
      unfolding after_refresh next_trip clone_for_retry potential unrefreshed
      after_refresh-Shrinks r t bound (ok c) h k = ground (arith, k c refl)
      after_refresh-Shrinks r t bound (err f) h k =
          either_branch (Shrinks bound) (is_login_lost (code f))
            (on_verdict-Shrinks r t bound (verdict r) (omega arith)) tt

      force-Shrinks :
          (r : Response) (t : Trip S U) (o : Option (ProfileMethods S))
          → provider.profile_methods ≡ o
          → Shrinks (potential t) (force provider verdict r t o)
      unfolding force potential unrefreshed
      force-Shrinks r t none e = on_verdict-Shrinks r t _ (verdict r) (omega arith)
      force-Shrinks r t (some m) e =
          let id = profile_of t.current.credentials in
          let asked = m.force_refresh id t.provider_state in
          let same = supply.refresh_known m id t.provider_state e in
          elim (Bool-cases ((id == "") || contains t.auth_refreshed id)) [
            | inl n ↦ rw n (on_verdict-Shrinks r t _ (verdict r) (omega arith))
            | inr n ↦ rw n (
                after_refresh-Shrinks r
                  (record t { auth_refreshed = id ∷ t.auth_refreshed; provider_state = asked.1 })
                  (2 * left_of (known t.provider_state) t.attempted
                    + (if contains t.auth_refreshed id then 0 else 1))
                  asked.0 (rw same (ground arith))
                  (λ c o.
                    rw (supply.refresh_own m id t.provider_state asked.1 c e (pair-eta asked o))
                      (contains_self id t.auth_refreshed)))
          ]

      on_response-Shrinks :
          (t : Trip S U) (o : Result TransportError Response)
          → Shrinks (potential t) (on_response provider verdict t o)
      unfolding on_response potential
      on_response-Shrinks t (err e) = tt
      on_response-Shrinks t (ok r) =
          either_branch (Shrinks (potential t)) (eqb r.status 401 && safe_auth_retry t.current)
            (force-Shrinks r t provider.profile_methods refl)
            (on_verdict-Shrinks r t (potential t) (verdict r) (omega arith))

      module _ (base : Request → U → Result TransportError Response × U) where
        round-Shrinks : (t : Trip S U) → Shrinks (potential t) (round provider verdict base t)
        unfolding round potential unrefreshed
        round-Shrinks t =
            let answer = base t.current t.upstream_state in
            let sent : Trip S U = record t {
              upstream_state = answer.1;
              events = t.events ++ (attempted_by (profile_of t.current.credentials) ∷ []);
            } in
            on_response-Shrinks sent answer.0

        follow-total :
            (bound : ℕ) (rest : Trip S U → Option (Result TripError Response × Trip S U))
            (o : Round S U)
            → Shrinks bound o
            → ((v : Trip S U)
                → potential v < bound
                → (r : Result TripError Response × Trip S U) × (rest v ≡ some r))
            → (r : Result TripError Response × Trip S U) × (follow rest o ≡ some r)
        unfolding follow
        follow-total bound rest (returned r v) k ih = ((r, v), refl)
        follow-total bound rest (again v) k ih = ih v k

        rounds-total :
            (n : ℕ) (t : Trip S U)
            → potential t < n
            → (r : Result TripError Response × Trip S U) × (rounds provider verdict base n t
                ≡ some r)
        unfolding rounds
        rounds-total zero t h = absurd (omega arith)
        rounds-total (suc n) t h =
            follow-total (potential t) (rounds provider verdict base n)
              (round provider verdict base t) (round-Shrinks t)
              (λ v k. rounds-total n v (omega (arith, k)))

        start-potential :
            (r : Request) (body : Option String) (s : S) (u : U)
            → potential (start r body s u) ≤ 2 * length (known s) + 1
        unfolding potential unrefreshed start
        start-potential r body s u =
            ground (arith, count-le (λ k. not (contains (start r body s u).attempted k)) (known s))

        -- RoundTrip returns: with rounds for two attempts of every account and two more, whatever the
        -- upstream answers, its loop comes to a return, with a response or an error.
        pub round_trip-returns :
            (r : Request) (s : S) (u : U) (n : ℕ)
            → 2 * length (known s) + 1 < n
            → (o : Result TripError Response × Trip S U) × (round_trip provider verdict base n r s u
                ≡ some o)
        unfolding round_trip
        round_trip-returns r s u n h = after (replayable r.body)
          where
            after :
                (b : Result TripError (Option String))
                → (o : Result TripError Response × Trip S U) × (after_buffering provider verdict
                      base n r s u b
                    ≡ some o)
            after (err e) = unfold after_buffering in ((err e, start r none s u), refl)
            after (ok body) =
                unfold after_buffering in
                (rounds-total n (start r body s u) (omega (arith, start-potential r body s u)))
