-- ===== src/Profile/Active.antt =====
-- The active profiles of internal/profile/registry.go, when a profile is registered or removed.
use codex_account_pool.Prelude.{
  String, false, ◌&&◌, ◌≡◌, refl, ◌≢◌, ◌⊎◌, ◌∙◌, inl, inr, Option, none, some, List, [], ◌∷◌, arith,
  All, Option-cases, if◌then◌else◌, ◌==◌, eq_iff, find_first, lookup, erase, Dict, lookup-insert,
  lookup-erase, codes, ne→eq_false, Bool-cases,
}
use codex_account_pool.Profile.{
  Profile, Registry, append_profile, remove_first, is_profile, has_provider, validate_profile,
  matches_id, active_id, or_empty, register, unregister, hand_over,
}
use codex_account_pool.Profile.Lookup.{
  find_first-append_some, find_first-append_none, find_first-remove, find_first-remove_none,
  find_of_provider, find_first-All,
}

-- A provider's active profile is set and registered, or the provider has no profile.
abbrev pub Settled : List Profile → String → String → Type 0
Settled ps provider id =
    ((id ≡ "") × (find_first (has_provider provider) ps ≡ none))
    ⊎ ((id ≢ "") × (find_first (is_profile provider id) ps ≢ none))

pub record IsConsistent (r : Registry) : Type 0 where
  pub valid : All (λ p. validate_profile p ≡ none) r.profiles
  pub settled : (provider : String) → Settled r.profiles provider (active_id r provider)

pub valid-ne-empty : (p : Profile) → validate_profile p ≡ none → p.id ≢ ""
unfolding validate_profile
valid-ne-empty p v e =
    let bad : matches_id (codes p.id) ≡ false = rw e (unfold matches_id in refl) in ground arith

pub All-append_profile :
    (P : Profile → Type 0) (ps : List Profile) (p : Profile)
    → All P ps
    → P p
    → All P (append_profile ps p)
unfolding append_profile
All-append_profile P [] p a h = (h, tt)
All-append_profile P (x ∷ ps) p a h = (a.0, All-append_profile P ps p a.1 h)

pub All-remove_first :
    (P : Profile → Type 0) (provider id : String) (ps : List Profile)
    → All P ps
    → All P (remove_first provider id ps)
unfolding remove_first
All-remove_first P provider id [] a = tt
All-remove_first P provider id (x ∷ ps) a = ground (arith, All-remove_first P provider id ps a.1)

-- Whose active profile a registration sets.
active_id-register :
    (r : Registry) (p : Profile) (provider : String)
    → active_id (register r p) provider ≡ (
        if (active_id r provider == "") && (p.provider == provider)
        then p.id
        else active_id r provider)
unfolding active_id register
active_id-register r p provider =
    ground (arith, lookup-insert p.provider provider p.id r.active, eq_iff p.provider provider)

pub register-Settled :
    (r : Registry) (p : Profile) (provider : String)
    → p.id ≢ ""
    → Settled r.profiles provider (active_id r provider)
    → Settled (append_profile r.profiles p) provider (active_id (register r p) provider)
unfolding has_provider
register-Settled r p provider n (inl (e, g)) = elim (Bool-cases (p.provider == provider)) [
  | inl t ↦
      rw (active_id-register r p provider, (eq_iff _ _).1 e, t)
        (inr (
          n,
          find_of_provider provider (append_profile r.profiles p) p
              (find_first-append_none (has_provider provider) r.profiles p g ∙ rw t refl),
        ))
  | inr t ↦
      rw (active_id-register r p provider, (eq_iff _ _).1 e, t)
        (inl (e, find_first-append_none (has_provider provider) r.profiles p g ∙ rw t refl))
]
register-Settled r p provider n (inr (m, g)) =
    rw (active_id-register r p provider, ne→eq_false (active_id r provider) "" m)
      (inr (
        m,
        elim (Option-cases (find_first (is_profile provider (active_id r provider)) r.profiles)) [
          | inl q ↦ absurd (g q)
          | inr (x, q) ↦ λ w. cc (find_first-append_some _ r.profiles p x q)
        ],
      ))

abbrev id_or_empty : Option Profile → String
id_or_empty none = ""
id_or_empty (some p) = p.id

lookup-hand_over :
    (gone provider : String) (next : Option Profile) (active : Dict String)
    → or_empty (lookup provider (hand_over gone next active))
      ≡ (if gone == provider then id_or_empty next else or_empty (lookup provider active))
unfolding hand_over
lookup-hand_over gone provider none active = ground (arith, lookup-erase gone provider active)
lookup-hand_over gone provider (some p) active =
    ground (
      arith,
      lookup-insert gone provider p.id (erase gone active),
      lookup-erase gone provider active,
    )

-- Whose active profile a removal changes.
active_id-unregister :
    (r : Registry) (gone id provider : String)
    → active_id (unregister r gone id) provider ≡ (
        if (gone == provider) && (active_id r gone == id)
        then id_or_empty (find_first (has_provider gone) (remove_first gone id r.profiles))
        else active_id r provider)
unfolding active_id unregister
active_id-unregister r gone id provider = ground (
  arith,
  lookup-hand_over gone provider (find_first (has_provider gone) (remove_first gone id r.profiles))
      r.active,
)

-- A removal that does not concern the provider's active profile.
kept-Settled :
    (gone id provider active : String) (ps : List Profile)
    → ((gone == provider) && (active == id) ≡ false)
    → Settled ps provider active
    → Settled (remove_first gone id ps) provider active
unfolding is_profile
kept-Settled gone id provider active ps n (inl (e, g)) =
    inl (e, find_first-remove_none _ gone id ps g)
kept-Settled gone id provider active ps n (inr (m, g)) = inr (
  m,
  rw
      (find_first-remove (is_profile provider active) gone id ps (λ p h. ground (
        arith,
        eq_iff p.provider gone,
        eq_iff p.id id,
        eq_iff p.provider provider,
        eq_iff p.id active,
        eq_iff gone provider,
        eq_iff active id,
      )))
      g,
)

next-Settled :
    (provider : String) (ps : List Profile)
    → All (λ p. validate_profile p ≡ none) ps
    → Settled ps provider (id_or_empty (find_first (has_provider provider) ps))
next-Settled provider ps v = elim (Option-cases (find_first (has_provider provider) ps)) [
  | inl e ↦ rw e (inl (refl, refl))
  | inr (p, e) ↦
      rw e
        (inr (valid-ne-empty p (find_first-All _ _ ps p v e).0, find_of_provider provider ps p e))
]

pub unregister-Settled :
    (r : Registry) (gone id provider : String)
    → IsConsistent r
    → Settled (remove_first gone id r.profiles) provider (active_id (unregister r gone id) provider)
unregister-Settled r gone id provider c =
    elim (Bool-cases ((gone == provider) && (active_id r gone == id))) [
      | inl t ↦
          let same : gone ≡ provider = ground (arith, eq_iff gone provider) in
          rw (active_id-unregister r gone id provider, t, same)
            (next-Settled provider _ (All-remove_first _ provider id r.profiles c.valid))
      | inr t ↦
          rw (active_id-unregister r gone id provider, t)
            (kept-Settled gone id provider (active_id r provider) r.profiles
              (ground (arith, eq_iff gone provider)) (c.settled provider))
    ]
