-- ===== src/Prelude/DistinctKeys.antt =====
-- Maps whose keys are distinct, as a Go map's are, and what an update keeps of the other keys.
use Prim.Native.String.{String}
use mathlib.Core.Path.{◌≡◌, refl, subst₂}
use mathlib.Core.Logic.{inl, inr}
use mathlib.Core.Bool.{Bool, true, false}
use mathlib.Core.List.{[], ◌∷◌}
use mathlib.Core.Option.{Option, none, some}
use native.Mathlib.Omega.{arith}
use text.Mathlib.Text.{◌==◌}
use text.Mathlib.TextEquality.{eq_iff}
use codex_account_pool.Prelude.Tests.{if◌then◌else◌, Bool-cases, Option-cases}
use Prim.Native.Nat.{◌+◌}
use codex_account_pool.Prelude.Lists.{length}
use codex_account_pool.Prelude.Maps.{
  Dict, lookup, insert, erase, retain, lookup-insert, lookup-erase,
}

-- A value that passes a test.
abbrev pub keep_some {ℓ} : {V : Type ℓ} → (V → Bool) → Option V → Option V
keep_some p none = none
keep_some p (some v) = if p v then some v else none

module _ {ℓ} {V : Type ℓ} where
  abbrev pub Distinct : Dict V → Type ℓ
  Distinct [] = Unit
  Distinct ((k, v) ∷ m) = (lookup k m ≡ none) × Distinct m

  -- A property of every entry.
  abbrev pub Entries {κ} : (String → V → Type κ) → Dict V → Type κ
  Entries P [] = Unit
  Entries P ((k, v) ∷ m) = P k v × Entries P m

  pub Entries-map {κ μ} :
      {P : String → V → Type κ} {Q : String → V → Type μ}
      → ((k : String) (v : V) → P k v → Q k v)
      → (m : Dict V) → Entries P m
      → Entries Q m
  Entries-map f [] h = tt
  Entries-map f ((k, v) ∷ m) h = (f k v h.0, Entries-map f m h.1)

  pub Entries-lookup {κ} :
      (P : String → V → Type κ) (k : String) (v : V) (m : Dict V)
      → Entries P m
      → lookup k m ≡ some v
      → P k v
  unfolding lookup
  Entries-lookup P k v [] h e = cc
  Entries-lookup P k v ((j, w) ∷ m) h e = elim (Bool-cases (j == k)) [
    | inl q ↦ subst₂ P ((eq_iff j k).0 q) (ground arith) h.0
    | inr q ↦ Entries-lookup P k v m h.1 (ground arith)
  ]

  -- With distinct keys the lookup of an entry's key finds that entry.
  pub Distinct-lookup : (m : Dict V) → Distinct m → Entries (λ k v. lookup k m ≡ some v) m
  unfolding lookup
  Distinct-lookup [] d = tt
  Distinct-lookup ((k, v) ∷ m) d = (
    ground (arith, eq_iff k k),
    Entries-map (λ j w (e : lookup j m ≡ some w). ground (arith, eq_iff k j)) m
        (Distinct-lookup m d.1),
  )

  pub lookup-retain-some :
      (p : String → V → Bool) (k : String) (v : V) (m : Dict V)
      → lookup k m ≡ some v
      → p k v ≡ true
      → lookup k (retain p m) ≡ some v
  unfolding lookup retain
  lookup-retain-some p k v [] e h = cc
  lookup-retain-some p k v ((j, w) ∷ m) e h = ground (arith, eq_iff j k, lookup-retain-some p k v m)

  pub lookup-retain-none :
      (p : String → V → Bool) (k : String) (m : Dict V)
      → lookup k m ≡ none
      → lookup k (retain p m) ≡ none
  unfolding lookup retain
  lookup-retain-none p k [] e = refl
  lookup-retain-none p k ((j, w) ∷ m) e = ground (arith, eq_iff j k, lookup-retain-none p k m)

  -- With distinct keys a key that the loop keeps is found as before, any other is gone.
  pub lookup-retain_drop :
      (p : String → V → Bool) (k : String) (v : V) (m : Dict V)
      → Distinct m
      → lookup k m ≡ some v
      → p k v ≡ false
      → lookup k (retain p m) ≡ none
  unfolding lookup retain
  lookup-retain_drop p k v [] d e h = refl
  lookup-retain_drop p k v ((j, w) ∷ m) d e h =
      ground (arith, eq_iff j k, lookup-retain_drop p k v m d.1, lookup-retain-none p k m)

  -- What is left was there before.
  pub lookup-retain_inv :
      (p : String → V → Bool) (k : String) (v : V) (m : Dict V)
      → Distinct m
      → lookup k (retain p m) ≡ some v
      → (lookup k m ≡ some v) × (p k v ≡ true)
  lookup-retain_inv p k v m d e = elim (Option-cases (lookup k m)) [
    | inl n ↦ cc (lookup-retain-none p k m n)
    | inr (w, f) ↦ elim (Bool-cases (p k w)) [
      | inl t ↦
          let same : w ≡ v = ground (arith, lookup-retain-some p k w m f t) in
          (ground arith, ground arith)
      | inr t ↦ cc (lookup-retain_drop p k w m d f t)
    ]
  ]

  pub lookup-retain :
      (p : String → V → Bool) (k : String) (m : Dict V)
      → Distinct m
      → lookup k (retain p m) ≡ keep_some (p k) (lookup k m)
  lookup-retain p k m d = elim (Option-cases (lookup k m)) [
    | inl e ↦ rw e (lookup-retain-none p k m e)
    | inr (v, e) ↦ elim (Bool-cases (p k v)) [
      | inl t ↦ rw (e, t) (lookup-retain-some p k v m e t)
      | inr t ↦ rw (e, t) (lookup-retain_drop p k v m d e t)
    ]
  ]

  pub retain-Distinct : (p : String → V → Bool) (m : Dict V) → Distinct m → Distinct (retain p m)
  unfolding retain
  retain-Distinct p [] d = tt
  retain-Distinct p ((j, w) ∷ m) d =
      ground (arith, retain-Distinct p m d.1, lookup-retain-none p j m)

  pub length-erase_absent :
      (k : String) (m : Dict V) → lookup k m ≡ none → length (erase k m) ≡ length m
  unfolding lookup erase
  length-erase_absent k [] e = refl
  length-erase_absent k ((j, w) ∷ m) e = ground (arith, length-erase_absent k m)

  pub length-erase :
      (k : String) (v : V) (m : Dict V)
      → Distinct m
      → lookup k m ≡ some v
      → length (erase k m) + 1 ≡ length m
  unfolding lookup erase
  length-erase k v [] d e = cc
  length-erase k v ((j, w) ∷ m) d e =
      ground (arith, length-erase k v m d.1, length-erase_absent k m, eq_iff j k)

  pub erase-Distinct : (k : String) (m : Dict V) → Distinct m → Distinct (erase k m)
  unfolding erase
  erase-Distinct k [] d = tt
  erase-Distinct k ((j, w) ∷ m) d = ground (arith, erase-Distinct k m d.1, lookup-erase k j m)

  pub insert-Distinct : (k : String) (v : V) (m : Dict V) → Distinct m → Distinct (insert k v m)
  unfolding insert
  insert-Distinct k v [] d = unfold lookup in (refl, tt)
  insert-Distinct k v ((j, w) ∷ m) d =
      ground (arith, insert-Distinct k v m d.1, lookup-insert k j v m, eq_iff j k, eq_iff k j)

module _ {ℓ κ} {V : Type ℓ} (P : String → V → Type κ) where
  pub retain-Entries : (p : String → V → Bool) (m : Dict V) → Entries P m → Entries P (retain p m)
  unfolding retain
  retain-Entries p [] h = tt
  retain-Entries p ((k, v) ∷ m) h = ground (arith, retain-Entries p m h.1)

  pub erase-Entries : (k : String) (m : Dict V) → Entries P m → Entries P (erase k m)
  unfolding erase
  erase-Entries k [] h = tt
  erase-Entries k ((j, v) ∷ m) h = ground (arith, erase-Entries k m h.1)

  pub insert-Entries :
      (k : String) (v : V) (m : Dict V) → P k v → Entries P m → Entries P (insert k v m)
  unfolding insert
  insert-Entries k v [] p h = (p, tt)
  insert-Entries k v ((j, w) ∷ m) p h = ground (arith, insert-Entries k v m p h.1)

pub Entries-both {ℓ κ μ} :
    {V : Type ℓ} (P : String → V → Type κ) (Q : String → V → Type μ) (m : Dict V)
    → Entries P m
    → Entries Q m
    → Entries (λ k v. P k v × Q k v) m
Entries-both P Q [] p q = tt
Entries-both P Q ((k, v) ∷ m) p q = ((p.0, q.0), Entries-both P Q m p.1 q.1)
