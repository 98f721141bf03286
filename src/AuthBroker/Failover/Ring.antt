-- ===== src/AuthBroker/Failover/Ring.antt =====
-- The order in which Failover of internal/authbroker/broker.go visits the other profiles.
use native.Mathlib.Nat.{mod-eq_of_lt, add-mod_right}
use codex_account_pool.Prelude.{
  take, drop, ℕ, zero, suc, ◌+◌, ◌-◌, ◌≤◌, ◌<◌, ◌%◌, String, ◌≡◌, refl, ◌⊎◌, inl, inr, ap, List, [],
  ◌∷◌, ◌++◌, arith, length, eq_iff, some, Option-cases,
}
use codex_account_pool.AuthBroker.Failover.{candidate, nth, position, start_of}

-- The candidates of `left` offsets from `offset` on.
abbrev pub visited : List String → ℕ → ℕ → ℕ → List String
visited ids start zero offset = []
visited ids start (suc left) offset =
    candidate ids start offset ∷ visited ids start left (suc offset)

drop-nth : (xs : List String) (i : ℕ) → i < length xs → drop i xs ≡ nth xs i ∷ drop (suc i) xs
drop-nth [] i h = absurd (omega arith)
drop-nth (x ∷ xs) zero h = refl
drop-nth (x ∷ xs) (suc i) h = drop-nth xs i (omega arith)

drop_all : (xs : List String) (i : ℕ) → length xs ≤ i → drop i xs ≡ []
drop_all [] zero h = refl
drop_all [] (suc i) h = refl
drop_all (x ∷ xs) zero h = absurd (omega arith)
drop_all (x ∷ xs) (suc i) h = drop_all xs i (omega arith)

take_all : (xs : List String) (n : ℕ) → length xs ≤ n → take n xs ≡ xs
take_all [] zero h = refl
take_all [] (suc n) h = refl
take_all (x ∷ xs) zero h = absurd (omega arith)
take_all (x ∷ xs) (suc n) h = ap (λ t. x ∷ t) (take_all xs n (omega arith))

length-drop : (xs : List String) (n : ℕ) → length (drop n xs) ≡ length xs - n
length-drop xs zero = omega arith
length-drop [] (suc n) = omega arith
length-drop (x ∷ xs) (suc n) = omega (arith, length-drop xs n)

mod_wrap : (x p n : ℕ) → p < n → (x ≡ p) ⊎ (x ≡ p + n) → x % n ≡ p
mod_wrap x p n h (inl e) = rw e (mod-eq_of_lt h)
mod_wrap x p n h (inr e) = rw (e, add-mod_right p n) (mod-eq_of_lt h)

-- A stretch of offsets that does not cross the end of the list.
visited_run :
    (ids : List String) (start left offset p : ℕ)
    → (start + offset ≡ p) ⊎ (start + offset ≡ p + length ids)
    → p + left ≤ length ids
    → visited ids start left offset ≡ take left (drop p ids)
unfolding candidate
visited_run ids start zero offset p e h = refl
visited_run ids start (suc left) offset p e h =
    rw (drop-nth ids p (omega arith), mod_wrap (start + offset) p (length ids) (omega arith) e)
      (ap (λ t. nth ids p ∷ t)
        (visited_run ids start left (suc offset) (suc p) (omega arith) (omega arith)))

visited-append :
    (ids : List String) (start a b offset : ℕ)
    → visited ids start (a + b) offset
      ≡ visited ids start a offset ++ visited ids start b (offset + a)
visited-append ids start zero b offset =
    let e : 0 + b ≡ b = omega arith in let f : offset + 0 ≡ offset = omega arith in rw (e, f) refl
visited-append ids start (suc a) b offset =
    let e : suc a + b ≡ suc (a + b) = omega arith in
    let f : offset + suc a ≡ suc offset + a = omega arith in
    rw (e, f) (ap (λ t. candidate ids start offset ∷ t) (visited-append ids start a b (suc offset)))

position-lt :
    (id : String) (ids : List String) (i : ℕ)
    → position id ids ≡ some i
    → (i < length ids) × (nth ids i ≡ id)
unfolding position
position-lt id [] i e = cc
position-lt id (c ∷ cs) zero e = ground (arith, eq_iff c id)
position-lt id (c ∷ cs) (suc i) e = ground (arith, position-lt id cs i)

-- The start is in range, and it is the exhausted profile's position if that is listed.
pub start_of-lt : (id : String) (ids : List String) → 0 < length ids → start_of id ids < length ids
unfolding start_of
start_of-lt id ids h = elim (Option-cases (position id ids)) [
  | inl e ↦ rw e h
  | inr (i, e) ↦ rw e (position-lt id ids i e).0
]

-- The loop visits every position but its start once, in order from the next one round to the one
-- before it.
pub visited_ring :
    (ids : List String) (start : ℕ)
    → start < length ids
    → visited ids start (length ids - 1) 1 ≡ drop (suc start) ids ++ take start ids
visited_ring ids start h =
    let e : length ids - 1 ≡ (length ids - 1 - start) + start = omega arith in
    rw
      (
        e,
        visited-append ids start (length ids - 1 - start) start 1,
        visited_run ids start (length ids - 1 - start) 1 (suc start) (omega arith) (omega arith),
        visited_run ids start start (1 + (length ids - 1 - start)) 0 (omega arith) (omega arith),
        take_all (drop (suc start) ids) (length ids - 1 - start)
            (omega (arith, length-drop ids (suc start))),
      )
      refl
