-- ===== src/AuthBroker/Failover/Registered.antt =====
-- The registered and the active profiles of the registry of internal/profile/registry.go, as Failover
-- finds and changes them.
use codex_account_pool.Prelude.{
  String, true, ◌≡◌, refl, inl, inr, Option, none, some, List, [], ◌∷◌, arith, ok, Option-cases,
  eq_iff, insert, lookup-insert, find_first-test, find_first, contains, map,
}
use codex_account_pool.Profile
use codex_account_pool.Profile.{Registry, Profile}

-- The ids of the registered profiles.
abbrev pub registered : Option Registry → List String
registered none = []
registered (some r) = map (λ (p : Profile). p.id) r.profiles

find-contains :
    (provider id : String) (ps : List Profile) (p : Profile)
    → find_first (Profile.is_profile provider id) ps ≡ some p
    → (p.id ≡ id) × (contains (map (λ (q : Profile). q.id) ps) id ≡ true)
unfolding find_first contains Profile.is_profile
find-contains provider id [] p e = cc
find-contains provider id (q ∷ ps) p e =
    ground (arith, find-contains provider id ps p, eq_iff q.id id, eq_iff id q.id)

pub use_profile-registered :
    (r : Registry) (id : String) (q : Registry)
    → Profile.use_profile r Profile.provider_codex id ≡ ok q
    → (registered (some q) ≡ registered (some r)) × (contains (registered (some r)) id ≡ true)
unfolding Profile.use_profile Profile.find
use_profile-registered r id q u =
    elim (Option-cases (find_first (Profile.is_profile Profile.provider_codex id) r.profiles)) [
      | inl n ↦ ground arith
      | inr (p, e) ↦
          let found = find-contains Profile.provider_codex id r.profiles p e in
          let same : q ≡ record r { active = insert Profile.provider_codex id r.active } =
            ground arith in
          (rw same refl, found.1)
    ]

pub use_profile-active :
    (r : Registry) (id : String) (q : Registry)
    → Profile.use_profile r Profile.provider_codex id ≡ ok q
    → Profile.active_id q Profile.provider_codex ≡ id
unfolding Profile.use_profile Profile.active_id
use_profile-active r id q u =
    let same : q ≡ record r { active = insert Profile.provider_codex id r.active } = ground arith in
    rw (same, lookup-insert Profile.provider_codex Profile.provider_codex id r.active) refl

pub active_profile-id :
    (r : Registry) (p : Profile)
    → Profile.active_profile r Profile.provider_codex ≡ some p
    → Profile.active_id r Profile.provider_codex ≡ p.id
unfolding Profile.active_profile Profile.find Profile.is_profile
active_profile-id r p a =
    let id = Profile.active_id r Profile.provider_codex in
    ground (
      arith,
      find_first-test (Profile.is_profile Profile.provider_codex id) r.profiles p,
      eq_iff p.id id,
    )

pub active_profile-registered :
    (r : Registry) (p : Profile)
    → Profile.active_profile r Profile.provider_codex ≡ some p
    → contains (registered (some r)) p.id ≡ true
unfolding Profile.active_profile Profile.find
active_profile-registered r p a =
    let id = Profile.active_id r Profile.provider_codex in
    let found = find-contains Profile.provider_codex id r.profiles p (ground arith) in
    rw found.0 found.1
