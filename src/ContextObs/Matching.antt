-- ===== src/ContextObs/Matching.antt =====
-- What the comparison of two requests counts: compareSnapshots of internal/contextobs/tracker.go
-- against the intersection of the references as multisets.
use codex_account_pool.Prelude.{
  ℕ, ◌+◌, ◌-◌, ◌≤◌, ◌<◌, String, true, List, [], ◌∷◌, Dict, map, ltb, if◌then◌else◌, ◌==◌, ◌≡◌,
  refl, length, count, contains, lookup, insert, lookup-insert, arith, eq_iff,
}
use codex_account_pool.ContextObs.{
  ItemRef, TrackerSnapshot, Reuse, amount, counts_of, sizes_of, reuse_item, reuse_items, reuse_of,
  at_most, compare_snapshots,
}

abbrev pub refs : List ItemRef → List String
refs = map (λ (x : ItemRef). x.ref)

-- The list without the first occurrence of a text.
unfoldable pub cancel : String → List String → List String
cancel r [] = []
cancel r (s ∷ l) = let rest = cancel r l in if r == s then l else s ∷ rest

-- How many of the second list's texts pair up with texts of the first.
unfoldable pub matched : List String → List String → ℕ
matched old [] = 0
matched old (r ∷ l) = (if contains old r then 1 else 0) + matched (cancel r old) l

amount-insert :
    (k j : String) (n : ℕ) (m : Dict ℕ)
    → amount j (insert k n m) ≡ (if k == j then n else amount j m)
unfolding amount
amount-insert k j n m = rw (lookup-insert k j n m) (ground arith)

-- The loop counts the occurrences.
amount-counts_of :
    (k : String) (xs : List ItemRef) (m : Dict ℕ)
    → amount k (counts_of xs m) ≡ amount k m + count (λ s. s == k) (refs xs)
unfolding counts_of
amount-counts_of k [] m = omega arith
amount-counts_of k (x ∷ xs) m =
    rw (amount-counts_of k xs (insert x.ref (amount x.ref m + 1) m))
      (ground (arith, amount-insert x.ref k (amount x.ref m + 1) m, eq_iff x.ref k))

-- A list holds a text exactly when it occurs.
contains-count : (r : String) (l : List String) → contains l r ≡ ltb 0 (count (λ s. s == r) l)
unfolding contains
contains-count r [] = refl
contains-count r (s ∷ l) = ground (arith, contains-count r l, eq_iff r s, eq_iff s r)

count-cancel :
    (r k : String) (l : List String)
    → count (λ s. s == k) (cancel r l) ≡ count (λ s. s == k) l - (if r == k then 1 else 0)
unfolding cancel
count-cancel r k [] = ground arith
count-cancel r k (s ∷ l) = ground (arith, count-cancel r k l, eq_iff r s, eq_iff s k, eq_iff r k)

-- The counts of the loop are the occurrences in a list of references.
Counts : Dict ℕ → List String → Type 0
Counts m old = (k : String) → amount k m ≡ count (λ s. s == k) old

reuse_item-Counts :
    (sizes : Dict ℕ) (x : ItemRef) (r : Reuse) (old : List String)
    → Counts r.counts old
    → Counts (reuse_item sizes x r).counts (cancel x.ref old)
unfolding Counts reuse_item
reuse_item-Counts sizes x r old h k =
    let a = count-cancel x.ref k old in
    let b = amount-insert x.ref k (amount x.ref r.counts - 1) r.counts in
    ground (arith, h k, h x.ref, a, b, eq_iff x.ref k)

reuse_item-count :
    (sizes : Dict ℕ) (x : ItemRef) (r : Reuse) (old : List String)
    → Counts r.counts old
    → (reuse_item sizes x r).count ≡ r.count + (if contains old x.ref then 1 else 0)
unfolding Counts reuse_item
reuse_item-count sizes x r old h = ground (arith, h x.ref, contains-count x.ref old)

reuse_items-count :
    (sizes : Dict ℕ) (xs : List ItemRef) (r : Reuse) (old : List String)
    → Counts r.counts old
    → (reuse_items sizes xs r).count ≡ r.count + matched old (refs xs)
unfolding reuse_items matched
reuse_items-count sizes [] r old h = omega arith
reuse_items-count sizes (x ∷ xs) r old h =
    rw
      (reuse_items-count sizes xs (reuse_item sizes x r) (cancel x.ref old)
        (reuse_item-Counts sizes x r old h))
      (omega (arith, reuse_item-count sizes x r old h))

counts_of-Counts : (xs : List ItemRef) → Counts (counts_of xs []) (refs xs)
unfolding Counts amount lookup
counts_of-Counts xs k = omega (arith, amount-counts_of k xs [])

length-cancel-lt :
    (r : String) (l : List String) → contains l r ≡ true → length (cancel r l) < length l
unfolding cancel contains
length-cancel-lt r [] e = cc
length-cancel-lt r (s ∷ l) e = ground (arith, length-cancel-lt r l)

length-cancel-le : (r : String) (l : List String) → length (cancel r l) ≤ length l
unfolding cancel
length-cancel-le r [] = omega arith
length-cancel-le r (s ∷ l) = ground (arith, length-cancel-le r l)

matched-le : (old l : List String) → (matched old l ≤ length l) × (matched old l ≤ length old)
unfolding matched
matched-le old [] = (omega arith, omega arith)
matched-le old (r ∷ l) =
    let ih = matched-le (cancel r old) l in
    ground (arith, ih, length-cancel-lt r old, length-cancel-le r old)

length-refs : (xs : List ItemRef) → length (refs xs) ≡ length xs
length-refs [] = refl
length-refs (x ∷ xs) = omega (arith, length-refs xs)

-- The comparison of a request with its predecessor counts the pairs of equal references, each item
-- of either side in one pair at most; the reused and the novel bytes make up the context.
pub compare_snapshots-matched :
    (previous current : TrackerSnapshot)
    → let d = compare_snapshots previous current in
      (d.reused_item_count ≡ matched (refs previous.items) (refs current.items))
      × (d.reused_item_count ≤ length previous.items)
      × (d.reused_item_count ≤ length current.items)
      × (d.reused_context_bytes + d.novel_context_bytes ≡ current.context_bytes)
unfolding compare_snapshots reuse_of at_most
compare_snapshots-matched previous current =
    let old = refs previous.items in
    let new = refs current.items in
    let e =
      reuse_items-count (sizes_of previous.items []) current.items
        (record { counts = counts_of previous.items []; count = 0; bytes = 0 }) old
        (counts_of-Counts previous.items) in
    let le = matched-le old new in
    let m = length-refs previous.items in
    let n = length-refs current.items in
    (omega (arith, e), omega (arith, e, le, m), omega (arith, e, le, n), ground arith)
