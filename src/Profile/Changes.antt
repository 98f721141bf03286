-- ===== src/Profile/Changes.antt =====
-- The invariant of the registry of internal/profile/registry.go under Add, Remove and Use.
use codex_account_pool.Prelude.{
  String, ◌≡◌, refl, ◌≢◌, ◌↔◌, inl, inr, none, some, List, [], ◌∷◌, arith, All, Option-cases, ◌==◌,
  eq_iff, find_first, Result, ok, err, lookup, insert, lookup-insert, ne→eq_false, Bool-cases,
}
use codex_account_pool.Profile.{
  Profile, Registry, Error, is_profile, has_provider, validate_profile, find, active_id, register,
  unregister, add, remove, use_profile, active_profile, new_registry,
}
use codex_account_pool.Profile.Lookup.{find_first-All, find_none_of_provider}
use codex_account_pool.Profile.Active.{
  Settled, IsConsistent, valid-ne-empty, All-append_profile, All-remove_first, register-Settled,
  unregister-Settled,
}

add-cases :
    (r : Registry) (p : Profile) (q : Registry)
    → add r p ≡ ok q
    → (validate_profile p ≡ none) × (find r p.provider p.id ≡ none) × (q ≡ register r p)
unfolding add
add-cases r p q e = (ground arith, ground arith, ground arith)

-- Every profile of the registry stays valid, and every provider that has a profile keeps exactly
-- one active profile, which is registered, whatever is added, removed or selected.
pub add-IsConsistent :
    (r : Registry) (p : Profile) (q : Registry) → IsConsistent r → add r p ≡ ok q → IsConsistent q
unfolding register
add-IsConsistent r p q c e =
    let (v, f, same) = add-cases r p q e in
    rw same (record {
      valid = All-append_profile _ r.profiles p c.valid v;
      settled = λ provider. register-Settled r p provider (valid-ne-empty p v) (c.settled provider);
    })

pub remove-IsConsistent :
    (r : Registry) (provider id : String) (q : Registry)
    → IsConsistent r
    → remove r provider id ≡ ok q
    → IsConsistent q
unfolding remove unregister
remove-IsConsistent r gone id q c e =
    let same : q ≡ unregister r gone id = ground arith in
    rw same (record {
      valid = All-remove_first _ gone id r.profiles c.valid;
      settled = λ provider. unregister-Settled r gone id provider c;
    })

-- A registered profile has a nonempty id.
chosen-ne-empty :
    (provider id : String) (p : Profile) (ps : List Profile)
    → All (λ p. validate_profile p ≡ none) ps
    → find_first (is_profile provider id) ps ≡ some p
    → id ≢ ""
unfolding is_profile
chosen-ne-empty provider id p ps v f e =
    let (valid, test) = find_first-All (is_profile provider id) _ ps p v f in
    valid-ne-empty p valid (ground (arith, eq_iff p.id id))

pub use_profile-IsConsistent :
    (r : Registry) (provider id : String) (q : Registry)
    → IsConsistent r
    → use_profile r provider id ≡ ok q
    → IsConsistent q
unfolding use_profile find active_id
use_profile-IsConsistent r provider id q c e =
    elim (Option-cases (find_first (is_profile provider id) r.profiles)) [
      | inl n ↦ absurd (ground arith)
      | inr (p, f) ↦
          let named : id ≢ "" = chosen-ne-empty provider id p r.profiles c.valid f in
          let same : q ≡ record r { active = insert provider id r.active } = ground arith in
          rw same (record {
            valid = c.valid;
            settled = λ j. elim (Bool-cases (provider == j)) [
              | inl t ↦
                  let eq : provider ≡ j = (eq_iff _ _).0 t in
                  rw (lookup-insert provider j id r.active, t) (inr (named, λ n. cc (f, n, eq)))
              | inr t ↦ rw (lookup-insert provider j id r.active, t) (c.settled j)
            ];
          })
    ]

pub data Change : Type 0 where
  adds : Profile → Change
  removes uses : String → String → Change

-- A refused change leaves the registry as it was.
abbrev or_same : Registry → Result Error Registry → Registry
or_same r (ok q) = q
or_same r (err e) = r

unfoldable pub change : Registry → Change → Registry
change r (adds p) = or_same r (add r p)
change r (removes provider id) = or_same r (remove r provider id)
change r (uses provider id) = or_same r (use_profile r provider id)

unfoldable pub changes : Registry → List Change → Registry
changes r [] = r
changes r (c ∷ cs) = changes (change r c) cs

or_same-IsConsistent :
    (r : Registry) (x : Result Error Registry)
    → IsConsistent r
    → ((q : Registry) → x ≡ ok q → IsConsistent q)
    → IsConsistent (or_same r x)
or_same-IsConsistent r (ok q) c h = h q refl
or_same-IsConsistent r (err e) c h = c

change-IsConsistent : (r : Registry) (c : Change) → IsConsistent r → IsConsistent (change r c)
unfolding change
change-IsConsistent r (adds p) h = or_same-IsConsistent r _ h (λ q e. add-IsConsistent r p q h e)
change-IsConsistent r (removes provider id) h =
    or_same-IsConsistent r _ h (λ q e. remove-IsConsistent r provider id q h e)
change-IsConsistent r (uses provider id) h =
    or_same-IsConsistent r _ h (λ q e. use_profile-IsConsistent r provider id q h e)

changes-IsConsistent :
    (r : Registry) (cs : List Change) → IsConsistent r → IsConsistent (changes r cs)
unfolding changes
changes-IsConsistent r [] h = h
changes-IsConsistent r (c ∷ cs) h = changes-IsConsistent (change r c) cs (change-IsConsistent r c h)

new_registry-IsConsistent : IsConsistent new_registry
unfolding find_first active_id lookup
new_registry-IsConsistent = record { valid = tt; settled = λ provider. inl (refl, refl) }

active_profile-none_iff :
    (r : Registry) (provider : String)
    → Settled r.profiles provider (active_id r provider)
    → (active_profile r provider ≡ none) ↔ (find_first (has_provider provider) r.profiles ≡ none)
unfolding active_profile find
active_profile-none_iff r provider (inl (e, g)) =
    ((λ a. g), (λ h. rw ((eq_iff (active_id r provider) "").1 e) refl))
active_profile-none_iff r provider (inr (m, g)) = (
  (λ a. absurd (g (ground (arith, ne→eq_false (active_id r provider) "" m)))),
  (λ h. absurd (g (find_none_of_provider provider (active_id r provider) r.profiles h))),
)

-- After any sequence of Add, Remove and Use calls on a new registry, failing ones included, a
-- provider has an active profile exactly when some profile of it is registered.
pub active_profile-changes :
    (cs : List Change) (provider : String)
    → (active_profile (changes new_registry cs) provider ≡ none)
      ↔ (find_first (has_provider provider) (changes new_registry cs).profiles ≡ none)
active_profile-changes cs provider =
    active_profile-none_iff (changes new_registry cs) provider
      ((changes-IsConsistent new_registry cs new_registry-IsConsistent).settled provider)
