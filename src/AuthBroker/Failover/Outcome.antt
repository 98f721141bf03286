-- ===== src/AuthBroker/Failover/Outcome.antt =====
-- What Failover of internal/authbroker/broker.go returns, and the registry that it leaves.
use codex_account_pool.Prelude.{
  ℕ, ◌+◌, String, true, false, not, ◌&&◌, ◌≡◌, refl, ◌≢◌, sym, ap, ◌∙◌, inl, inr, Option, none,
  some, List, [], ◌∷◌, arith, Result, ok, err, Result-cases, Option-cases, Bool-cases,
  if◌then◌else◌, ◌==◌, eq_iff, lookup-insert, Dict, retain, ltb, leb, length, contains,
}
use codex_account_pool.Profile
use codex_account_pool.Profile.{Registry, Profile}
use codex_account_pool.AuthBroker.{World, Fault, Credentials, hour}
use codex_account_pool.AuthBroker.Failover.{
  Source, mark_exhausted, is_blocked, codex_ids, commit, save_route, settle, keep_ok, try_ring,
  try_profile, try_active, after_active, route, failover,
}
use codex_account_pool.AuthBroker.Failover.Registered.{
  registered, use_profile-active, use_profile-registered, active_profile-id,
  active_profile-registered,
}
use codex_account_pool.AuthBroker.Failover.Walk.{try_list, try_ring-list}

-- Success gives a registered account that is not marked and that the stored registry now has as the
-- active Codex profile, and leaves the ids of the registered profiles; failure leaves the registry.
abbrev pub Routed : World → ℕ → Result Fault Credentials × World → Type 0
Routed w now (ok c, v) =
    (is_blocked w.exhausted c.profile_id now ≡ false)
    × (v.exhausted ≡ w.exhausted)
    × (r : Registry) × (v.registry ≡ some r)
    × (Profile.active_id r Profile.provider_codex ≡ c.profile_id)
    × (registered v.registry ≡ registered w.registry)
    × (contains (registered w.registry) c.profile_id ≡ true)
Routed w now (err f, v) = (v.exhausted ≡ w.exhausted) × (v.registry ≡ w.registry)

-- The parts of the world that an attempt leaves alone.
record SameRoute (w v : World) : Type 0 where
  marks : v.exhausted ≡ w.exhausted
  registry : v.registry ≡ w.registry

module _ (w : World) (now : ℕ) where
  commit-Routed :
      (r : Registry) (id : String) (c : Credentials) (v : World)
      → SameRoute w v
      → c.profile_id ≡ id
      → is_blocked w.exhausted id now ≡ false
      → w.registry ≡ some r
      → Routed w now (commit r id c v)
  unfolding commit save_route Profile.active_id
  commit-Routed r id c v s o b k =
      elim (Result-cases (Profile.use_profile r Profile.provider_codex id)) [
        | inr (e, u) ↦ rw u (s.marks, s.registry)
        | inl (q, u) ↦ elim (Bool-cases v.savable) [
          | inr n ↦ rw (u, n) (s.marks, s.registry)
          | inl y ↦
              rw (u, y)
                (
                  rw o b,
                  s.marks,
                  record q { version = Profile.registry_version },
                  refl,
                  use_profile-active r id q u ∙ sym o,
                  rw k (use_profile-registered r id q u).0,
                  rw (k, o) (use_profile-registered r id q u).1,
                )
        ]
      ]

  module _ (source : Source) where
    same : SameRoute w w
    same = record { marks = refl; registry = refl }

    fetch-SameRoute : (id : String) (v : World) → SameRoute w v → SameRoute w (source.fetch id v).1
    fetch-SameRoute id v s = record {
      marks = source.same_route id v ∙ s.marks;
      registry = source.same_registry id v ∙ s.registry;
    }

    try_list-Routed :
        (r : Registry) (ids : List String) (last : Option Fault) (v : World)
        → SameRoute w v
        → w.registry ≡ some r
        → Routed w now (try_list source r now ids last v)
    unfolding try_list settle
    try_list-Routed r [] last v s k = (s.marks, s.registry)
    try_list-Routed r (id ∷ ids) last v s k = elim (Bool-cases (is_blocked v.exhausted id now)) [
      | inl b ↦ rw b (try_list-Routed r ids last v s k)
      | inr b ↦ elim (Result-cases (source.fetch id v).0) [
        | inl (c, e) ↦
            rw (b, e)
              (commit-Routed r id c (source.fetch id v).1 (fetch-SameRoute id v s)
                (source.own id v (source.fetch id v).1 c (ap (λ x. (x, (source.fetch id v).1)) e))
                (rw (← s.marks) b) k)
        | inr (f, e) ↦
            rw (b, e)
              (try_list-Routed r ids (some f) (source.fetch id v).1 (fetch-SameRoute id v s) k)
      ]
    ]

    try_ring-Routed :
        (r : Registry) (id : String) (v : World)
        → SameRoute w v
        → w.registry ≡ some r
        → Routed w now (try_ring source r id now v)
    try_ring-Routed r id v s k = elim (Bool-cases (ltb (length (codex_ids r)) 2)) [
      | inl t ↦ rw (try_ring-list source r id now v, t) (s.marks, s.registry)
      | inr t ↦ rw (try_ring-list source r id now v, t) (try_list-Routed r _ none v s k)
    ]

    abbrev Tried : Option Credentials × World → Type 0
    Tried (none, v) = SameRoute w v
    Tried (some c, v) = Routed w now (ok c, v)

    try_active-Tried :
        (r : Registry) (id : String) → w.registry ≡ some r → Tried (try_active source r id now w)
    unfolding try_active try_profile keep_ok
    try_active-Tried r id e =
        elim (Option-cases (Profile.active_profile r Profile.provider_codex)) [
          | inl n ↦ rw n same
          | inr (p, a) ↦
              elim (Bool-cases (not (p.id == id) && not (is_blocked w.exhausted p.id now))) [
                | inr t ↦ rw (a, t) same
                | inl t ↦ elim (Result-cases (source.fetch p.id w).0) [
                  | inr (f, g) ↦ rw (a, t, g) (fetch-SameRoute p.id w same)
                  | inl (c, g) ↦
                      let own : c.profile_id ≡ p.id =
                        source.own p.id w (source.fetch p.id w).1 c
                          (ap (λ x. (x, (source.fetch p.id w).1)) g) in
                      rw (a, t, g)
                        (
                          rw own (ground arith),
                          source.same_route p.id w,
                          r,
                          source.same_registry p.id w ∙ e,
                          active_profile-id r p a ∙ sym own,
                          ap registered (source.same_registry p.id w),
                          rw (e, own) (active_profile-registered r p a),
                        )
                ]
              ]
        ]

    after_active-Routed :
        (r : Registry) (id : String) (c : Option Credentials) (v : World)
        → Tried (c, v)
        → w.registry ≡ some r
        → Routed w now (after_active source r id now c v)
    unfolding after_active
    after_active-Routed r id (some c) v t k = t
    after_active-Routed r id none v t k = try_ring-Routed r id v t k

    route-Routed :
        (x : Option Registry) (id : String)
        → w.registry ≡ x
        → Routed w now (route source x id now w)
    unfolding route
    route-Routed none id e = (refl, refl)
    route-Routed (some r) id e =
        let tried = try_active source r id now w in
        after_active-Routed r id tried.0 tried.1 (try_active-Tried r id e) e

mark_exhausted-is_blocked :
    (marks : Dict ℕ) (id : String) (reset_at now : ℕ)
    → is_blocked (mark_exhausted marks id reset_at now) id now ≡ true
unfolding mark_exhausted is_blocked
mark_exhausted-is_blocked marks id reset_at now = ground (
  arith,
  lookup-insert id id (if leb reset_at now then now + hour else reset_at)
      (retain (λ j (until : ℕ). not (leb until now)) marks),
  eq_iff id id,
)

-- The account of a success is another one.
abbrev pub IsOther : String → Result Fault Credentials → Type 0
IsOther id (ok c) = c.profile_id ≢ id
IsOther id (err f) = Unit

other :
    (w : World) (now : ℕ) (id : String) (r : Result Fault Credentials × World)
    → is_blocked w.exhausted id now ≡ true
    → Routed w now r
    → IsOther id r.0
other w now id (ok c, v) blocked routed =
    λ own. cc (blocked, routed.0, ap (λ j. is_blocked w.exhausted j now) own)
other w now id (err f, v) blocked routed = tt

-- When Failover succeeds, the account that it gives is registered and not marked as exhausted, so it
-- is another one than the reported account, it is the active Codex profile of the stored registry, and
-- the ids of the registered profiles are as before. When it fails, the registry is as it was. Either
-- way the marks are the earlier ones with the reported account's own, which is then marked.
pub failover-Routed :
    (source : Source) (w : World) (id : String) (reset_at now : ℕ)
    → let marked : World = record w { exhausted = mark_exhausted w.exhausted id reset_at now } in
      Routed marked now (failover source w id reset_at now)
      × (is_blocked marked.exhausted id now ≡ true)
      × IsOther id (failover source w id reset_at now).0
unfolding failover
failover-Routed source w id reset_at now =
    let marked : World = record w { exhausted = mark_exhausted w.exhausted id reset_at now } in
    let routed = route-Routed marked now source w.registry id refl in
    let blocked = mark_exhausted-is_blocked w.exhausted id reset_at now in
    (routed, blocked, other marked now id (failover source w id reset_at now) blocked routed)
