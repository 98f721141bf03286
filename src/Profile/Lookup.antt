-- ===== src/Profile/Lookup.antt =====
-- Lookups in the list of profiles of internal/profile/registry.go, after each change of the list.
use codex_account_pool.Prelude.{
  String, Bool, true, false, ◌≡◌, refl, ◌≢◌, inl, inr, none, some, List, [], ◌∷◌, arith, All,
  if◌then◌else◌, eq_iff, Bool-cases, subst, find_first,
}
use codex_account_pool.Profile.{Profile, append_profile, remove_first, is_profile, has_provider}

pub find_first-append_some :
    (f : Profile → Bool) (ps : List Profile) (p q : Profile)
    → find_first f ps ≡ some q
    → find_first f (append_profile ps p) ≡ some q
unfolding find_first append_profile
find_first-append_some f [] p q e = cc
find_first-append_some f (x ∷ ps) p q e = ground (arith, find_first-append_some f ps p q)

pub find_first-append_none :
    (f : Profile → Bool) (ps : List Profile) (p : Profile)
    → find_first f ps ≡ none
    → find_first f (append_profile ps p) ≡ (if f p then some p else none)
unfolding find_first append_profile
find_first-append_none f [] p e = refl
find_first-append_none f (x ∷ ps) p e = ground (arith, find_first-append_none f ps p)

-- Removal leaves the lookups alone that the removed profile does not answer.
pub find_first-remove :
    (f : Profile → Bool) (provider id : String) (ps : List Profile)
    → ((p : Profile) → is_profile provider id p ≡ true → f p ≡ false)
    → find_first f (remove_first provider id ps) ≡ find_first f ps
unfolding find_first remove_first
find_first-remove f provider id [] h = refl
find_first-remove f provider id (x ∷ ps) h =
    ground (arith, h x, find_first-remove f provider id ps h)

-- What no profile answers before a removal, none answers after it.
pub find_first-remove_none :
    (f : Profile → Bool) (provider id : String) (ps : List Profile)
    → find_first f ps ≡ none
    → find_first f (remove_first provider id ps) ≡ none
unfolding find_first remove_first
find_first-remove_none f provider id [] h = refl
find_first-remove_none f provider id (x ∷ ps) h =
    ground (arith, find_first-remove_none f provider id ps)

-- The first profile of a provider is found under its own name.
pub find_of_provider :
    (provider : String) (ps : List Profile) (p : Profile)
    → find_first (has_provider provider) ps ≡ some p
    → find_first (is_profile provider p.id) ps ≢ none
unfolding find_first has_provider is_profile
find_of_provider provider [] p e n = cc
find_of_provider provider (x ∷ ps) p e n =
    ground (arith, eq_iff x.provider provider, eq_iff x.id p.id, find_of_provider provider ps p)

pub find_first-All :
    (f : Profile → Bool) (P : Profile → Type 0) (ps : List Profile) (p : Profile)
    → All P ps
    → find_first f ps ≡ some p
    → P p × (f p ≡ true)
unfolding find_first
find_first-All f P [] p a e = cc
find_first-All f P (x ∷ ps) p a e = elim (Bool-cases (f x)) [
  | inl t ↦ let same : x ≡ p = ground arith in (subst P same a.0, subst (λ y. f y ≡ true) same t)
  | inr t ↦ find_first-All f P ps p a.1 (ground arith)
]

pub find_none_of_provider :
    (provider id : String) (ps : List Profile)
    → find_first (has_provider provider) ps ≡ none
    → find_first (is_profile provider id) ps ≡ none
unfolding find_first has_provider is_profile
find_none_of_provider provider id [] e = refl
find_none_of_provider provider id (x ∷ ps) e = ground (arith, find_none_of_provider provider id ps)
