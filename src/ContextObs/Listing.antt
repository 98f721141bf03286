-- ===== src/ContextObs/Listing.antt =====
-- Lists of elements with one element for each address and for each key: what the operations of
-- container/list do to the lookups by either.
use codex_account_pool.Prelude.{
  ℕ, ◌+◌, ◌<◌, String, Option, none, some, [], ◌∷◌, eqb, if◌then◌else◌, ◌==◌, ◌≡◌, refl, length,
  arith, eq_iff, inl, inr, Bool-cases,
}
use codex_account_pool.ContextObs.{Elements, TrackerEntry, value_of, remove_element, back}

-- The address of the element with a key.
unfoldable pub address_of : String → Elements TrackerEntry → Option ℕ
address_of k [] = none
address_of k ((i, e) ∷ l) = if e.key == k then some i else address_of k l

-- One element for each address and each key.
abbrev pub Single : Elements TrackerEntry → Type 0
Single [] = Unit
Single ((i, e) ∷ l) = (value_of i l ≡ none) × (address_of e.key l ≡ none) × Single l

-- The addresses are below a bound.
abbrev pub Below : ℕ → Elements TrackerEntry → Type 0
Below n [] = Unit
Below n ((i, e) ∷ l) = (i < n) × Below n l

pub value_of-address_of :
    (i : ℕ) (e : TrackerEntry) (l : Elements TrackerEntry)
    → Single l
    → value_of i l ≡ some e
    → address_of e.key l ≡ some i
unfolding value_of address_of
value_of-address_of i e [] s h = cc
value_of-address_of i e ((j, f) ∷ l) s h =
    ground (arith, value_of-address_of i e l s.2, eq_iff f.key e.key)

pub address_of-value_of :
    (k : String) (i : ℕ) (l : Elements TrackerEntry)
    → Single l
    → address_of k l ≡ some i
    → (e : TrackerEntry) × (value_of i l ≡ some e) × (e.key ≡ k)
unfolding value_of address_of
address_of-value_of k i [] s h = cc
address_of-value_of k i ((j, f) ∷ l) s h = elim (Bool-cases (f.key == k)) [
  | inl t ↦ (f, ground arith, (eq_iff f.key k).0 t)
  | inr t ↦ let (e, v, q) = address_of-value_of k i l s.2 (ground arith) in (e, ground arith, q)
]

pub value_of-remove_element :
    (i j : ℕ) (l : Elements TrackerEntry)
    → Single l
    → value_of j (remove_element i l) ≡ (if eqb i j then none else value_of j l)
unfolding value_of remove_element
value_of-remove_element i j [] s = ground arith
value_of-remove_element i j ((k, f) ∷ l) s = ground (arith, value_of-remove_element i j l s.2)

pub address_of-remove_element :
    (i : ℕ) (e : TrackerEntry) (k : String) (l : Elements TrackerEntry)
    → Single l
    → value_of i l ≡ some e
    → address_of k (remove_element i l) ≡ (if e.key == k then none else address_of k l)
unfolding value_of address_of remove_element
address_of-remove_element i e k [] s h = cc
address_of-remove_element i e k ((j, f) ∷ l) s h = ground (
  arith,
  address_of-remove_element i e k l s.2,
  eq_iff e.key k,
  eq_iff f.key k,
  value_of-address_of i e l s.2,
)

pub remove_element-Single :
    (i : ℕ) (e : TrackerEntry) (l : Elements TrackerEntry)
    → Single l
    → value_of i l ≡ some e
    → Single (remove_element i l)
unfolding value_of remove_element
remove_element-Single i e [] s h = tt
remove_element-Single i e ((j, f) ∷ l) s h = ground (
  arith,
  remove_element-Single i e l s.2,
  value_of-remove_element i j l s.2,
  address_of-remove_element i e f.key l s.2,
)

pub remove_element-Below :
    (n i : ℕ) (l : Elements TrackerEntry) → Below n l → Below n (remove_element i l)
unfolding remove_element
remove_element-Below n i [] b = tt
remove_element-Below n i ((j, f) ∷ l) b = ground (arith, remove_element-Below n i l b.1)

pub Below-fresh : (n : ℕ) (l : Elements TrackerEntry) → Below n l → value_of n l ≡ none
unfolding value_of
Below-fresh n [] b = refl
Below-fresh n ((j, f) ∷ l) b = ground (arith, Below-fresh n l b.1)

pub Below-suc : (n : ℕ) (l : Elements TrackerEntry) → Below n l → Below (n + 1) l
Below-suc n [] b = tt
Below-suc n ((j, f) ∷ l) b = (omega arith, Below-suc n l b.1)

pub value_of-Below :
    (n i : ℕ) (e : TrackerEntry) (l : Elements TrackerEntry)
    → Below n l
    → value_of i l ≡ some e
    → i < n
unfolding value_of
value_of-Below n i e [] b h = cc
value_of-Below n i e ((j, f) ∷ l) b h = ground (arith, value_of-Below n i e l b.1)

pub length-remove_element :
    (i : ℕ) (e : TrackerEntry) (l : Elements TrackerEntry)
    → value_of i l ≡ some e
    → length (remove_element i l) + 1 ≡ length l
unfolding value_of remove_element
length-remove_element i e [] h = cc
length-remove_element i e ((j, f) ∷ l) h = ground (arith, length-remove_element i e l)

pub back-value_of :
    (i : ℕ) (e : TrackerEntry) (l : Elements TrackerEntry)
    → Single l
    → back l ≡ some (i, e)
    → value_of i l ≡ some e
unfolding value_of back
back-value_of i e [] s h = cc
back-value_of i e ((j, f) ∷ []) s h = ground arith
back-value_of i e ((j, f) ∷ g ∷ l) s h = let ih = back-value_of i e (g ∷ l) s.2 h in ground arith

pub back-some :
    (l : Elements TrackerEntry) → 0 < length l → (e : ℕ × TrackerEntry) × (back l ≡ some e)
unfolding back
back-some [] h = absurd (omega arith)
back-some (e ∷ []) h = (e, refl)
back-some (e ∷ f ∷ l) h = back-some (f ∷ l) (omega arith)
