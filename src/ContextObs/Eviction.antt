-- ===== src/ContextObs/Eviction.antt =====
-- evictExpired of internal/contextobs/tracker.go: what it leaves, and that the operations of the
-- tracker, each of which starts with it, keep the tracker in order.
use Prim.Native.String.{◌++◌ as ◌<>◌}
use codex_account_pool.Prelude.{
  ℕ, String, Option, none, some, List, [], ◌∷◌, lookup, leb, eqb, if◌then◌else◌, ◌==◌, ◌≡◌, refl,
  arith, inl, inr, Bool-cases, Option-cases, ◌∙◌,
}
use codex_account_pool.ContextObs.{
  Elements, value_of, TrackerSnapshot, TrackerEntry, Tracker, RequestMetrics, new_tracker,
  remove_locked, evict_elements, evict_expired, get_referenced, or_lineage, store_lineage,
  find_previous, compare_and_store, bind_response, snapshot_from,
}
use codex_account_pool.ContextObs.Listing.{address_of, Single, value_of-remove_element}
use codex_account_pool.ContextObs.Consistency.{
  IsTracker, remove_locked-IsTracker, get_locked-IsTracker, put_locked-IsTracker,
}

-- The elements of a list are those of another one, with the same values.
abbrev pub Held : Elements TrackerEntry → Elements TrackerEntry → Type 0
Held [] m = Unit
Held ((i, e) ∷ l) m = (value_of i m ≡ some e) × Held l m

Held-behind :
    (i : ℕ) (e : TrackerEntry) (l m : Elements TrackerEntry)
    → value_of i l ≡ none
    → Held l m
    → Held l ((i, e) ∷ m)
unfolding value_of
Held-behind i e [] m n h = tt
Held-behind i e ((j, f) ∷ l) m n h = ground (arith, Held-behind i e l m)

Held-self : (l : Elements TrackerEntry) → Single l → Held l l
unfolding value_of
Held-self [] s = tt
Held-self ((i, e) ∷ l) s = (ground arith, Held-behind i e l l s.0 (Held-self l s.2))

-- A value that has not expired.
unfoldable pub live : ℕ → Option TrackerEntry → Option TrackerEntry
live now none = none
live now (some e) = if leb e.expires_at now then none else some e

-- A value of the list `m`, unless the part `l` holds its element and it has expired.
visited : ℕ → Option TrackerEntry → Option TrackerEntry → Option TrackerEntry
visited now none o = o
visited now (some e) o = if leb e.expires_at now then none else o

-- A tracker in order with the values that `values` says and the settings of another one.
Leaves : Tracker → (ℕ → Option TrackerEntry) → Tracker → Type 0
Leaves t values r =
    IsTracker r
    × (r.ttl ≡ t.ttl)
    × (r.max_entries ≡ t.max_entries)
    × ((j : ℕ) → value_of j r.lru ≡ values j)

remove_locked-Leaves :
    (t r : Tracker) (values : ℕ → Option TrackerEntry) (i : ℕ) (e : TrackerEntry)
    → Leaves t values r
    → values i ≡ some e
    → Leaves t (λ j. if eqb i j then none else values j) (remove_locked r i e)
unfolding Leaves remove_locked
remove_locked-Leaves t r values i e h v = (
  unfold remove_locked in (remove_locked-IsTracker r i e h.0 (h.3 i ∙ v)),
  h.1,
  h.2,
  λ j. ground (arith, h.3 j, value_of-remove_element i j r.lru h.0.consistent.single),
)

evict_elements_lem :
    (now : ℕ) (l : Elements TrackerEntry) (t : Tracker)
    → IsTracker t
    → Single l
    → Held l t.lru
    → Leaves t (λ j. visited now (value_of j l) (value_of j t.lru)) (evict_elements now l t)
unfolding evict_elements visited value_of Leaves
evict_elements_lem now [] t h s d = (h, refl, refl, λ j. refl)
evict_elements_lem now ((i, e) ∷ l) t h s d =
    let ih = evict_elements_lem now l t h s.2 d.1 in
    let values = λ (j : ℕ). visited now (value_of j l) (value_of j t.lru) in
    let v : values i ≡ some e = ground (arith, s.0, d.0) in
    let r = remove_locked-Leaves t (evict_elements now l t) values i e ih v in
    elim (Bool-cases (leb e.expires_at now)) [
      | inl b ↦ rw b (r.0, r.1, r.2, λ j. ground (arith, r.3 j, s.0))
      | inr b ↦ rw b (ih.0, ih.1, ih.2, λ j. ground (arith, ih.3 j, s.0, d.0))
    ]

-- What has expired goes, and nothing else.
pub evict_expired_lem :
    (t : Tracker) (now : ℕ)
    → IsTracker t
    → let r = evict_expired t now in
      IsTracker r
      × (r.ttl ≡ t.ttl)
      × (r.max_entries ≡ t.max_entries)
      × ((j : ℕ) → value_of j r.lru ≡ live now (value_of j t.lru))
unfolding evict_expired live visited Leaves
evict_expired_lem t now h =
    let s = h.consistent.single in
    let r = evict_elements_lem now t.lru t h s (Held-self t.lru s) in
    (
      r.0,
      r.1,
      r.2,
      λ j. elim (Option-cases (value_of j t.lru)) [
        | inl e ↦ ground (arith, r.3 j)
        | inr (f, e) ↦ ground (arith, r.3 j)
      ],
    )

get_referenced-IsTracker :
    (t : Tracker) (prefix ref : String) (now : ℕ)
    → IsTracker t
    → IsTracker (get_referenced t prefix ref now).1
unfolding get_referenced
get_referenced-IsTracker t prefix ref now h = elim (Bool-cases (ref == "")) [
  | inl b ↦ rw b h
  | inr b ↦ rw b (get_locked-IsTracker t (prefix <> ref) now h)
]

or_lineage-IsTracker :
    (m : RequestMetrics) (now : ℕ) (o : Option TrackerSnapshot) (t : Tracker)
    → IsTracker t
    → IsTracker (or_lineage m now (o, t)).1
unfolding or_lineage
or_lineage-IsTracker m now none t h = get_referenced-IsTracker t "lineage:" m.lineage_ref now h
or_lineage-IsTracker m now (some s) t h = h

pub store_lineage-IsTracker :
    (t : Tracker) (m : RequestMetrics) (now : ℕ) → IsTracker t → IsTracker (store_lineage t m now)
unfolding store_lineage
store_lineage-IsTracker t m now h = elim (Bool-cases (m.lineage_ref == "")) [
  | inl b ↦ rw b h
  | inr b ↦ rw b (put_locked-IsTracker t _ (snapshot_from m) now h)
]

pub find_previous-IsTracker :
    (t : Tracker) (m : RequestMetrics) (now : ℕ) → IsTracker t → IsTracker (find_previous t m now).1
unfolding find_previous
find_previous-IsTracker t m now h =
    let e = (evict_expired_lem t now h).0 in
    let g = get_referenced (evict_expired t now) "response:" m.previous_response_ref now in
    or_lineage-IsTracker m now g.0 g.1
      (get_referenced-IsTracker (evict_expired t now) "response:" m.previous_response_ref now e)

compare_and_store-IsTracker :
    (t : Tracker) (m : RequestMetrics) (now : ℕ)
    → IsTracker t
    → IsTracker (compare_and_store t m now).1
unfolding compare_and_store
compare_and_store-IsTracker t m now h =
    store_lineage-IsTracker (find_previous t m now).1 m now (find_previous-IsTracker t m now h)

pub bind_response-IsTracker :
    (t : Tracker) (m : RequestMetrics) (ref : String) (now : ℕ)
    → IsTracker t
    → IsTracker (bind_response t m ref now)
unfolding bind_response
bind_response-IsTracker t m ref now h = elim (Bool-cases (ref == "")) [
  | inl b ↦ rw b h
  | inr b ↦ rw b (
      put_locked-IsTracker (evict_expired t now) _ (snapshot_from m) now
        (evict_expired_lem t now h).0)
]

-- The calls that a tracker receives, each with the time at which it reads the clock.
pub data Call : Type 0 where
  compares : RequestMetrics → ℕ → Call
  binds : RequestMetrics → String → ℕ → Call

abbrev pub call : Call → Tracker → Tracker
call (compares m now) t = (compare_and_store t m now).1
call (binds m ref now) t = bind_response t m ref now

abbrev pub calls : List Call → Tracker → Tracker
calls [] t = t
calls (c ∷ cs) t = calls cs (call c t)

new_tracker-IsTracker : (max ttl : ℕ) → IsTracker (new_tracker max ttl)
unfolding new_tracker lookup address_of
new_tracker-IsTracker max ttl = record {
  consistent = record {
    agree = λ k. refl;
    distinct = tt;
    single = tt;
    below = tt;
    same_size = refl;
  };
  bounded = ground arith;
}

calls-keep : (cs : List Call) (t : Tracker) → IsTracker t → IsTracker (calls cs t)
calls-keep [] t h = h
calls-keep (compares m now ∷ cs) t h = calls-keep cs _ (compare_and_store-IsTracker t m now h)
calls-keep (binds m ref now ∷ cs) t h = calls-keep cs _ (bind_response-IsTracker t m ref now h)

-- Under any calls on a new tracker, at whatever times, its map and its list hold the same elements,
-- one for each key, and no more of them than the bound of the tracker.
pub calls-IsTracker : (max ttl : ℕ) (cs : List Call) → IsTracker (calls cs (new_tracker max ttl))
calls-IsTracker max ttl cs = calls-keep cs (new_tracker max ttl) (new_tracker-IsTracker max ttl)
