-- ===== src/Gateway/Broker.antt =====
-- The credentials broker of internal/authbroker/broker.go as the provider of
-- internal/gateway/gateway.go: the contract that the round trip relies on is kept.
use codex_account_pool.Prelude.{
  ℕ, ◌+◌, String, true, Option, none, some, List, ◌≡◌, refl, sym, ap, ◌∙◌, Result, ok, err,
  contains, some-injective, subst, some-injective, inl, inr, Result-cases,
}
use codex_account_pool.Profile
use codex_account_pool.Profile.{Registry}
use codex_account_pool.AuthBroker.{
  World, Fault, Credentials, Payload, credentials_for_profile, force_refresh,
}
use codex_account_pool.AuthBroker.Identity.{credentials-Outcome, force_refresh-Outcome}
use codex_account_pool.AuthBroker.Inspection
use codex_account_pool.AuthBroker.Failover.{failover, mark_exhausted}
use codex_account_pool.AuthBroker.Failover.Registered.{registered}
use codex_account_pool.AuthBroker.Failover.Outcome.{Routed, failover-Routed}
use codex_account_pool.AuthBroker.Failover.Supply.{
  IsQuiet, broker_source, base-registry, fetch-own, fetch-registry,
}
use codex_account_pool.Gateway.{Provider}
use codex_account_pool.Gateway.Supply.{IsSupply}

-- The broker's world, and how often its clock has been read.
pub record Clocked : Type 0 where
  pub world : World
  pub readings : ℕ

abbrev pub known : Clocked → List String
known s = registered s.world.registry

-- `clock` gives the time of each reading, `waits` what the wait for a profile's lock brings.
module _ (decode : String → Option Payload) (waits : String → Option (World → World))
    (quiet : IsQuiet waits) (clock : ℕ → ℕ) where
  abbrev pub timed :
      (ℕ → World → Result Fault Credentials × World) → Clocked → Result Fault Credentials × Clocked
  timed f s =
      let r = f (clock s.readings) s.world in
      (r.0, record { world = r.1; readings = s.readings + 1 })

  -- Go's zero time lies before every reading of the clock.
  abbrev pub or_zero_time : Option ℕ → ℕ
  or_zero_time none = 0
  or_zero_time (some t) = t

  abbrev pub fail_over_at : String → Option ℕ → ℕ → World → Result Fault Credentials × World
  fail_over_at id reset now w =
      failover (broker_source decode waits quiet now) w id (or_zero_time reset) now

  -- What the wait for the active profile's lock brings.
  abbrev pub wait_of : Option Registry → Option (World → World)
  wait_of none = none
  wait_of (some r) = waits (Profile.active_id r Profile.provider_codex)

  abbrev pub broker : Provider Clocked
  broker = record {
    credentials = timed (λ now w. Inspection.credentials decode (wait_of w.registry) now w);
    profile_methods = some (record {
      credentials_for_profile =
          λ id s. timed (λ now w. credentials_for_profile decode (waits id) id now w) s;
      force_refresh = λ id s. timed (λ now w. force_refresh decode (waits id) id w) s;
    });
    failover = some (λ id reset s. timed (fail_over_at id reset) s);
  }

  -- The world with the reported account marked.
  marked : String → Option ℕ → ℕ → World → World
  marked id reset now w = record w {
    exhausted = mark_exhausted w.exhausted id (or_zero_time reset) now;
  }

  -- The registered profiles stay as they are in a failover, which gives one of them.
  Routed-registered :
      (w : World) (now : ℕ) (o : Result Fault Credentials × World)
      → Routed w now o
      → registered o.1.registry ≡ registered w.registry
  Routed-registered w now (ok c, v) h = h.5
  Routed-registered w now (err f, v) h = ap registered h.1

  fail_over_at-registered :
      (id : String) (reset : Option ℕ) (now : ℕ) (w : World)
      → registered (fail_over_at id reset now w).1.registry ≡ registered w.registry
  unfolding marked
  fail_over_at-registered id reset now w =
      Routed-registered (marked id reset now w) now (fail_over_at id reset now w)
        (failover-Routed (broker_source decode waits quiet now) w id (or_zero_time reset) now).0

  fail_over_at-contains :
      (id : String) (reset : Option ℕ) (now : ℕ) (w v : World) (c : Credentials)
      → fail_over_at id reset now w ≡ (ok c, v)
      → contains (registered w.registry) c.profile_id ≡ true
  unfolding marked
  fail_over_at-contains id reset now w v c e =
      (subst (Routed (marked id reset now w) now) e
        (failover-Routed (broker_source decode waits quiet now) w id (or_zero_time reset) now).0).6

  refresh-registered :
      (id : String) (w : World)
      → registered (force_refresh decode (waits id) id w).1.registry ≡ registered w.registry
  refresh-registered id w =
      let (base, b, o) = force_refresh-Outcome decode (waits id) id w in
      ap registered (o.keeps.registry ∙ base-registry decode waits quiet 0 id w base b)

  refresh-own :
      (id : String) (w v : World) (c : Credentials)
      → force_refresh decode (waits id) id w ≡ (ok c, v)
      → c.profile_id ≡ id
  refresh-own id w v c e =
      let (base, b, o) = force_refresh-Outcome decode (waits id) id w in
      (o.stored c (ap (λ x. x.0) e)).own

  -- The credentials of the active profile.
  active-registered :
      (now : ℕ) (w : World) (x : Option Registry)
      → w.registry ≡ x
      → registered (Inspection.credentials decode (wait_of x) now w).1.registry
        ≡ registered w.registry
  unfolding Inspection.credentials
  active-registered now w none e = unfold Inspection.load_active in (rw e refl)
  active-registered now w (some r) e = elim (Result-cases (Inspection.load_active w)) [
    | inr (f, l) ↦ rw (l, Inspection.credentials) refl
    | inl ((id, doc), l) ↦
        let active = Profile.active_id r Profile.provider_codex in
        let (base, b, o) = credentials-Outcome decode (waits active) id now w in
        rw (l, Inspection.credentials)
          (ap registered (o.keeps.registry ∙ base-registry decode waits quiet now active w base b))
  ]

  -- The broker keeps the contract, whatever the time, the authority's replies and the other writers
  -- of the auth files do, as long as those leave the registry and the marks alone.
  pub broker-IsSupply : IsSupply broker known
  broker-IsSupply = record {
    active_known = λ s. active-registered (clock s.readings) s.world s.world.registry refl;
    profile_known = λ m id s e.
        ap (λ k. known (k.credentials_for_profile id s).1) (sym (some-injective e))
        ∙ ap registered (fetch-registry decode waits quiet (clock s.readings) id s.world);
    profile_own = λ m id s v c e f.
        fetch-own decode waits quiet (clock s.readings) id s.world v.world c (
          ap (λ x. (x.0, x.1.world))
            (ap (λ k. k.credentials_for_profile id s) (some-injective e) ∙ f));
    refresh_own = λ m id s v c e f.
        refresh-own id s.world v.world c
          (ap (λ x. (x.0, x.1.world)) (ap (λ k. k.force_refresh id s) (some-injective e) ∙ f));
    refresh_known = λ m id s e.
        ap (λ k. known (k.force_refresh id s).1) (sym (some-injective e))
        ∙ refresh-registered id s.world;
    failover_registered = λ call id reset s v c e f.
        fail_over_at-contains id reset (clock s.readings) s.world v.world c
          (ap (λ x. (x.0, x.1.world)) (ap (λ k. k id reset s) (some-injective e) ∙ f));
    failover_known = λ call id reset s e.
        ap (λ k. known (k id reset s).1) (sym (some-injective e))
        ∙ fail_over_at-registered id reset (clock s.readings) s.world;
  }
