-- ===== src/Gateway/Attempts.antt =====
-- How often RoundTrip of internal/gateway/gateway.go asks the upstream for one account, how often it
-- changes to one, and that a request for a chosen account stays with it.
use codex_account_pool.Prelude.{
  ℕ, ◌+◌, ◌≤◌, String, Bool, true, false, Option, none, some, List, [], ◌∷◌, ◌≡◌, ◌≢◌, sym, ap, ◌∙◌,
  ne→eq_false, Result, if◌then◌else◌, ◌==◌, contains, count, count-append, All, All-append, arith,
  eq_iff,
}
use codex_account_pool.AuthBroker.{Credentials}
use codex_account_pool.Gateway.{
  Request, Response, TransportError, TripError, Provider, Verdict, Trip, profile_of, ids_of,
  next_trip, clone_for_retry, TripEvent, attempted_by, switched, start, round_trip,
}
use codex_account_pool.Gateway.Supply.{IsSupply}
use codex_account_pool.Gateway.Termination.{contains-cons}
use codex_account_pool.Gateway.Loop.{account, sent, noted, switched_trip, LoopRule, round_trip-Done}

abbrev pub is_attempt : String → TripEvent → Bool
is_attempt p (attempted_by q) = q == p
is_attempt p (switched from to) = false

abbrev pub is_switch : String → TripEvent → Bool
is_switch p (attempted_by q) = false
is_switch p (switched from to) = to == p

abbrev one_if : Bool → ℕ
one_if b = if b then 1 else 0

start-attempts :
    (p : String) (o : Option Credentials)
    → p ≢ ""
    → one_if (profile_of o == p) ≤ one_if (contains (ids_of o) p)
unfolding contains
start-attempts p none n = ground (arith, ne→eq_false "" p (λ e. n (sym e)))
start-attempts p (some c) n = ground (arith, eq_iff c.profile_id p, eq_iff p c.profile_id)

module _ {S U : Type 0} (p : String) where
  -- The attempts for an account, and the changes to it, by what the loop has noted of it.
  record Counted (t : Trip S U) : Type 0 where
    pub attempts :
        count (is_attempt p) t.events
        ≤ one_if (contains t.attempted p) + one_if (contains t.auth_refreshed p)
    pub switches : count (is_switch p) t.events ≤ one_if (contains t.attempted p)

  -- Before an attempt.
  record Ready (t : Trip S U) : Type 0 where
    pub attempts :
        count (is_attempt p) t.events + one_if (account t == p)
        ≤ one_if (contains t.attempted p) + one_if (contains t.auth_refreshed p)
    pub switches : count (is_switch p) t.events ≤ one_if (contains t.attempted p)

  sent-Counted : (t : Trip S U) (u : U) → Ready t → Counted (sent t u)
  sent-Counted t u h =
      let a = count-append (is_attempt p) t.events (attempted_by (account t) ∷ []) in
      let b = count-append (is_switch p) t.events (attempted_by (account t) ∷ []) in
      record { attempts = omega (arith, a, h.attempts); switches = omega (arith, b, h.switches) }

  noted-Counted :
      (t : Trip S U) (s : S)
      → contains t.auth_refreshed (account t) ≡ false
      → Counted t
      → Counted (noted t s)
  noted-Counted t s n h = record {
    attempts = ground (arith, h.attempts, contains-cons (account t) p t.auth_refreshed);
    switches = h.switches;
  }

  noted-Ready :
      (t : Trip S U) (s : S) (c : Credentials)
      → contains t.auth_refreshed (account t) ≡ false
      → c.profile_id ≡ account t
      → Counted t
      → Ready (next_trip (noted t s) c)
  unfolding next_trip clone_for_retry
  noted-Ready t s c n own h = record {
    attempts = ground (
      arith,
      h.attempts,
      contains-cons (account t) p t.auth_refreshed,
      eq_iff c.profile_id p,
      eq_iff p (account t),
    );
    switches = h.switches;
  }

  switched-Ready :
      (t : Trip S U) (c : Credentials)
      → contains t.attempted c.profile_id ≡ false
      → Counted t
      → Ready (switched_trip t c)
  unfolding next_trip clone_for_retry
  switched-Ready t c n h =
      let a = count-append (is_attempt p) t.events (switched (account t) c.profile_id ∷ []) in
      let b = count-append (is_switch p) t.events (switched (account t) c.profile_id ∷ []) in
      let k = contains-cons c.profile_id p t.attempted in
      let e = eq_iff c.profile_id p in
      let f = eq_iff p c.profile_id in
      record {
        attempts = ground (arith, a, h.attempts, k, e, f);
        switches = ground (arith, b, h.switches, k, e, f);
      }

  counting : (base : Request → U → Result TransportError Response × U) → LoopRule base Ready Counted
  counting base = record {
    sends = λ t h. sent-Counted t (base t.current t.upstream_state).1 h;
    notes = noted-Counted;
    moves = λ t s h. record { attempts = h.attempts; switches = h.switches };
    refreshes = noted-Ready;
    switches = λ t c pin n h. switched-Ready t c n h;
  }

  start-Ready :
      (r : Request) (body : Option String) (s : S) (u : U) → p ≢ "" → Ready (start r body s u)
  unfolding start
  start-Ready r body s u n = record {
    attempts = omega (arith, start-attempts p r.credentials n);
    switches = omega arith;
  }

  Counted-twice :
      (t : Trip S U)
      → Counted t
      → (count (is_attempt p) t.events ≤ 2) × (count (is_switch p) t.events ≤ 1)
  Counted-twice t h = ground (arith, h.attempts, h.switches)

module _ {S U : Type 0} (provider : Provider S) (known : S → List String)
    (supply : IsSupply provider known) (verdict : Response → Verdict)
    (base : Request → U → Result TransportError Response × U) where
  -- Whatever the upstream answers, RoundTrip asks it at most twice with the credentials of one
  -- account, and it changes to one account at most once.
  pub round_trip-attempts :
      (p : String) (n : ℕ) (r : Request) (s : S) (u : U) (o : Result TripError Response)
      (t : Trip S U)
      → p ≢ ""
      → round_trip provider verdict base n r s u ≡ some (o, t)
      → (count (is_attempt p) t.events ≤ 2) × (count (is_switch p) t.events ≤ 1)
  round_trip-attempts p n r s u o t ne e = Counted-twice p t (
      round_trip-Done base (Ready p) (Counted p) (counting p base) provider known supply verdict n r
        s u o t (λ body e. start-Ready p r body s u ne)
        (record {
          attempts = unfold start in (omega arith);
          switches = unfold start in (omega arith);
        })
        e)

-- A request for a chosen account, all of whose events so far are attempts with it.
record Pinned {S U : Type 0} (p : String) (t : Trip S U) : Type 0 where
  pub pinned : t.current.pinned ≡ true
  pub own : account t ≡ p
  pub attempts : All (λ e. e ≡ attempted_by p) t.events

module _ {S U : Type 0} (p : String) where
  pinning :
      (base : Request → U → Result TransportError Response × U)
      → LoopRule {S = S} base (Pinned p) (Pinned p)
  unfolding next_trip clone_for_retry
  pinning base = record {
    sends = λ t h. record {
      pinned = h.pinned;
      own = h.own;
      attempts =
          All-append (λ e. e ≡ attempted_by p) t.events _ h.attempts (ap attempted_by h.own, tt);
    };
    notes = λ t s n h. record { pinned = h.pinned; own = h.own; attempts = h.attempts };
    moves = λ t s h. record { pinned = h.pinned; own = h.own; attempts = h.attempts };
    refreshes =
        λ t s c n own h. record { pinned = h.pinned; own = own ∙ h.own; attempts = h.attempts };
    switches = λ t c pin n h. cc (pin, h.pinned);
  }

start-Pinned :
    {S U : Type 0} {p : String} (r : Request) (s : S) (u : U)
    → r.pinned ≡ true
    → profile_of r.credentials ≡ p
    → (body : Option String) → Pinned p (start r body s u)
unfolding start
start-Pinned r s u pin own body = record { pinned = pin; own = own; attempts = tt }

module _ {S U : Type 0} (provider : Provider S) (known : S → List String)
    (supply : IsSupply provider known) (verdict : Response → Verdict)
    (base : Request → U → Result TransportError Response × U) where
  -- A request for a chosen account never leaves it: RoundTrip makes no change of accounts, every
  -- attempt is one with that account, and there are two at most.
  pub round_trip-pinned :
      (p : String) (n : ℕ) (r : Request) (s : S) (u : U) (o : Result TripError Response)
      (t : Trip S U)
      → p ≢ ""
      → r.pinned ≡ true
      → profile_of r.credentials ≡ p
      → round_trip provider verdict base n r s u ≡ some (o, t)
      → All (λ e. e ≡ attempted_by p) t.events × (count (is_attempt p) t.events ≤ 2)
  round_trip-pinned p n r s u o t ne pin own e =
      let first = start-Pinned r s u pin own in
      let h =
        round_trip-Done base (Pinned p) (Pinned p) (pinning p base) provider known supply verdict n
          r s u o t (λ body k. first body) (first none) e in
      (h.attempts, (round_trip-attempts provider known supply verdict base p n r s u o t ne e).0)
