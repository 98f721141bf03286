-- ===== src/ContextObs/Consistency.antt =====
-- The map and the list of the tracker of internal/contextobs/tracker.go hold the same elements, under
-- every operation, and no more of them than the bound.
use native.Mathlib.Nat.{suc-add, zero-add}
use codex_account_pool.Prelude.{
  ℕ, zero, suc, ◌+◌, ◌≤◌, ◌<◌, String, false, Option, none, some, lookup, ltb, leb, ◌≡◌, refl, sym,
  ◌∙◌, length, arith, eq_iff, inl, inr, Bool-cases, Option-cases, Distinct, insert-Distinct,
  erase-Distinct, lookup-insert, lookup-erase, length-erase, length-insert_new, length-erase-le,
}
use codex_account_pool.ContextObs.{
  value_of, to_front, back, TrackerSnapshot, TrackerEntry, Tracker, remove_locked, remove_found,
  get_element, get_found, get_locked, trim, trim_all, renew, push, put_found, put_locked,
}
use codex_account_pool.ContextObs.Listing.{
  address_of, Single, Below, value_of-address_of, value_of-remove_element,
  address_of-remove_element, remove_element-Single, remove_element-Below, Below-fresh, Below-suc,
  value_of-Below, length-remove_element, back-value_of, back-some,
}

pub record Consistent (t : Tracker) : Type 0 where
  pub agree : (k : String) → lookup k t.entries ≡ address_of k t.lru
  pub distinct : Distinct t.entries
  pub single : Single t.lru
  pub below : Below t.next t.lru
  pub same_size : length t.entries ≡ length t.lru

-- Beside it, the bound.
pub record IsTracker (t : Tracker) : Type 0 where
  pub consistent : Consistent t
  pub bounded : length t.entries ≤ t.max_entries

pub remove_locked-Consistent :
    (t : Tracker) (i : ℕ) (e : TrackerEntry)
    → Consistent t
    → value_of i t.lru ≡ some e
    → Consistent (remove_locked t i e)
unfolding remove_locked
remove_locked-Consistent t i e c h =
    let at = value_of-address_of i e t.lru c.single h in
    record {
      agree = λ k. ground (
        arith,
        c.agree k,
        lookup-erase e.key k t.entries,
        address_of-remove_element i e k t.lru c.single h,
      );
      distinct = erase-Distinct e.key t.entries c.distinct;
      single = remove_element-Single i e t.lru c.single h;
      below = remove_element-Below t.next i t.lru c.below;
      same_size = omega (
        arith,
        length-erase e.key i t.entries c.distinct (c.agree e.key ∙ at),
        length-remove_element i e t.lru h,
        c.same_size,
      );
    }

-- Moving an element to the front, with another content under the same key.
pub to_front-Consistent :
    (t : Tracker) (i : ℕ) (e f : TrackerEntry)
    → Consistent t
    → value_of i t.lru ≡ some e
    → f.key ≡ e.key
    → Consistent (record t { lru = to_front i f t.lru })
unfolding to_front address_of
to_front-Consistent t i e f c h same =
    let at = value_of-address_of i e t.lru c.single h in
    record {
      agree = λ k. ground (
        arith,
        c.agree k,
        at,
        address_of-remove_element i e k t.lru c.single h,
        eq_iff f.key k,
        eq_iff e.key k,
      );
      distinct = c.distinct;
      single = (
        ground (arith, value_of-remove_element i i t.lru c.single),
        ground (arith, address_of-remove_element i e f.key t.lru c.single h, eq_iff e.key f.key),
        remove_element-Single i e t.lru c.single h,
      );
      below =
          (value_of-Below t.next i e t.lru c.below h, remove_element-Below t.next i t.lru c.below);
      same_size = omega (arith, length-remove_element i e t.lru h, c.same_size);
    }

pub push-Consistent :
    (t : Tracker) (k : String) (s : TrackerSnapshot) (now : ℕ)
    → Consistent t
    → lookup k t.entries ≡ none
    → Consistent (push t k s now)
unfolding push address_of
push-Consistent t k s now c h = record {
  agree = λ j. ground (arith, c.agree j, lookup-insert k j t.next t.entries);
  distinct = insert-Distinct k t.next t.entries c.distinct;
  single = (Below-fresh t.next t.lru c.below, sym (c.agree k) ∙ h, c.single);
  below = (omega arith, Below-suc t.next t.lru c.below);
  same_size = omega (arith, length-insert_new k t.next t.entries h, c.same_size);
}

-- The round of the loop: the element at the back is there, and goes.
pub remove_back :
    (t : Tracker)
    → Consistent t
    → 0 < length t.entries
    → let r = remove_found t (back t.lru) in
      Consistent r
      × (length r.entries + 1 ≡ length t.entries)
      × (r.max_entries ≡ t.max_entries)
      × (r.ttl ≡ t.ttl)
unfolding remove_found remove_locked
remove_back t c h =
    let ((i, e), b) = back-some t.lru (omega (arith, c.same_size)) in
    let v = back-value_of i e t.lru c.single b in
    let at = value_of-address_of i e t.lru c.single v in
    rw b (
      unfold remove_locked in (remove_locked-Consistent t i e c v),
      length-erase e.key i t.entries c.distinct (c.agree e.key ∙ at),
      refl,
      refl,
    )

trim_rounds :
    (n : ℕ) (t : Tracker)
    → Consistent t
    → length t.entries ≤ t.max_entries + n
    → let r = trim n t in
      Consistent r
      × (ltb r.max_entries (length r.entries) ≡ false)
      × (r.max_entries ≡ t.max_entries)
      × (r.ttl ≡ t.ttl)
unfolding trim
trim_rounds zero t c h = (c, ground arith, refl, refl)
trim_rounds (suc n) t c h = elim (Bool-cases (ltb t.max_entries (length t.entries))) [
  | inl b ↦
      let k = remove_back t c (ground arith) in
      let ih = trim_rounds n (remove_found t (back t.lru)) k.0 (omega (arith, k)) in
      rw b (ih.0, ih.1, ih.2 ∙ k.2, ih.3 ∙ k.3)
  | inr b ↦ rw b (c, b, refl, refl)
]

-- A loop that its own test has ended does nothing in further rounds.
trim_more :
    (n m : ℕ) (t : Tracker)
    → ltb (trim n t).max_entries (length (trim n t).entries) ≡ false
    → trim (n + m) t ≡ trim n t
unfolding trim
trim_more zero zero t h = refl
trim_more zero (suc m) t h = rw (zero-add, h)
trim_more (suc n) m t h = elim (Bool-cases (ltb t.max_entries (length t.entries))) [
  | inl b ↦ rw (suc-add, b) (trim_more n m (remove_found t (back t.lru)) (ground arith))
  | inr b ↦ rw (suc-add, b)
]

-- The loop of putLocked comes to its end by its own test: so many rounds as there are elements above
-- the bound are enough, whatever the number of rounds allowed, and no element is missing at the back.
pub trim-ends :
    (n m : ℕ) (t : Tracker)
    → Consistent t
    → length t.entries ≤ t.max_entries + n
    → let r = trim n t in Consistent r × (length r.entries ≤ t.max_entries) × (trim (n + m) t ≡ r)
trim-ends n m t c h = let r = trim_rounds n t c h in (r.0, ground (arith, r), trim_more n m t r.1)

pub trim_all-IsTracker :
    (t : Tracker)
    → Consistent t
    → IsTracker (trim_all t)
      × ((trim_all t).max_entries ≡ t.max_entries)
      × ((trim_all t).ttl ≡ t.ttl)
unfolding trim_all
trim_all-IsTracker t c =
    let r = trim_rounds (length t.entries) t c (omega arith) in
    (record { consistent = r.0; bounded = ground (arith, r) }, r.2, r.3)

renew-Consistent :
    (t : Tracker) (i : ℕ) (s : TrackerSnapshot) (now : ℕ)
    → Consistent t
    → Consistent (renew t i s now (value_of i t.lru))
unfolding renew
renew-Consistent t i s now c = elim (Option-cases (value_of i t.lru)) [
  | inl e ↦ rw e c
  | inr (f, e) ↦ rw e (to_front-Consistent t i f _ c e refl)
]

renew-IsTracker :
    (t : Tracker) (i : ℕ) (s : TrackerSnapshot) (now : ℕ)
    → IsTracker t
    → IsTracker (renew t i s now (value_of i t.lru))
unfolding renew
renew-IsTracker t i s now h = record {
  consistent = renew-Consistent t i s now h.consistent;
  bounded = ground (arith, h.bounded);
}

put_found-IsTracker :
    (t : Tracker) (k : String) (s : TrackerSnapshot) (now : ℕ) (o : Option ℕ)
    → lookup k t.entries ≡ o
    → IsTracker t
    → IsTracker (put_found t k s now o)
unfolding put_found
put_found-IsTracker t k s now none e h =
    (trim_all-IsTracker (push t k s now) (push-Consistent t k s now h.consistent e)).0
put_found-IsTracker t k s now (some i) e h = renew-IsTracker t i s now h

pub put_locked-IsTracker :
    (t : Tracker) (k : String) (s : TrackerSnapshot) (now : ℕ)
    → IsTracker t
    → IsTracker (put_locked t k s now)
unfolding put_locked
put_locked-IsTracker t k s now h = put_found-IsTracker t k s now (lookup k t.entries) refl h

pub remove_locked-IsTracker :
    (t : Tracker) (i : ℕ) (e : TrackerEntry)
    → IsTracker t
    → value_of i t.lru ≡ some e
    → IsTracker (remove_locked t i e)
remove_locked-IsTracker t i e h v = record {
  consistent = remove_locked-Consistent t i e h.consistent v;
  bounded = unfold remove_locked in (omega (arith, length-erase-le e.key t.entries, h.bounded));
}

get_element-IsTracker :
    (t : Tracker) (now i : ℕ) (o : Option TrackerEntry)
    → value_of i t.lru ≡ o
    → IsTracker t
    → IsTracker (get_element t now i o).1
unfolding get_element
get_element-IsTracker t now i none v h = h
get_element-IsTracker t now i (some e) v h = elim (Bool-cases (leb e.expires_at now)) [
  | inl b ↦ rw b (remove_locked-IsTracker t i e h v)
  | inr b ↦
      rw b (record {
        consistent = to_front-Consistent t i e e h.consistent v refl;
        bounded = h.bounded;
      })
]

pub get_locked-IsTracker :
    (t : Tracker) (k : String) (now : ℕ) → IsTracker t → IsTracker (get_locked t k now).1
unfolding get_locked
get_locked-IsTracker t k now h = found (lookup k t.entries)
  where
    found : (o : Option ℕ) → IsTracker (get_found t now o).1
    found none = unfold get_found in h
    found (some i) = unfold get_found in (get_element-IsTracker t now i (value_of i t.lru) refl h)
