-- ===== src/ContextObs/Lineage.antt =====
-- A request is compared with the request that its previous response or its lineage names:
-- CompareAndStore and BindResponse of internal/contextobs/tracker.go.
use Prim.Native.String.{◌++◌ as ◌<>◌}
use mathlib.Core.Path.{subst₂}
use codex_account_pool.Prelude.{
  ℕ, zero, suc, ◌+◌, ◌<◌, String, Option, none, some, [], ◌∷◌, lookup, ltb, ◌≡◌, ◌≢◌, refl, sym, ap,
  subst, ◌∙◌, length, arith, inl, inr, Bool-cases, ne→eq_false, eq_iff,
}
use codex_account_pool.ContextObs.{
  Elements, value_of, to_front, back, TrackerSnapshot, TrackerEntry, Tracker, RequestMetrics,
  remove_locked, remove_found, get_element, get_found, get_locked, trim, trim_all, renew, push,
  put_found, put_locked, evict_expired, get_referenced, or_lineage, store_lineage, find_previous,
  delta_from, compare_and_store, bind_response, snapshot_from, compare_snapshots, remove_element,
}
use codex_account_pool.ContextObs.Listing.{
  address_of, Single, value_of-address_of, address_of-value_of, back-value_of, back-some,
}
use codex_account_pool.ContextObs.Consistency.{Consistent, IsTracker, push-Consistent, remove_back}
use codex_account_pool.ContextObs.Eviction.{
  live, evict_expired_lem, bind_response-IsTracker, find_previous-IsTracker,
  store_lineage-IsTracker,
}

-- The tracker holds a snapshot under a key until a time.
record Holds (t : Tracker) (k : String) (s : TrackerSnapshot) (until : ℕ) : Type 0 where
  pub at : ℕ
  pub entry : TrackerEntry
  pub valued : value_of at t.lru ≡ some entry
  pub keyed : entry.key ≡ k
  pub same : entry.snapshot ≡ s
  pub expires : entry.expires_at ≡ until

-- The element at the front of a list of two or more stays when the one at the back goes.
front-back :
    (x : ℕ × TrackerEntry) (l : Elements TrackerEntry)
    → Single (x ∷ l)
    → 0 < length l
    → (y : ℕ × TrackerEntry) × (back (x ∷ l) ≡ some y)
      × (remove_element y.0 (x ∷ l) ≡ x ∷ remove_element y.0 l)
unfolding back remove_element
front-back (i, e) [] s h = absurd (omega arith)
front-back (i, e) (f ∷ l) s h =
    let ((j, g), b) = back-some (f ∷ l) h in
    let v = back-value_of j g (f ∷ l) s.2 b in ((j, g), b, ground (arith, v, s.0))

-- The loop of putLocked leaves the element at the front.
trim-front :
    (n : ℕ) (t : Tracker) (x : ℕ × TrackerEntry) (l : Elements TrackerEntry)
    → Consistent t
    → 0 < t.max_entries
    → t.lru ≡ x ∷ l
    → (m : Elements TrackerEntry) × ((trim n t).lru ≡ x ∷ m)
unfolding trim
trim-front zero t x l c p e = (l, e)
trim-front (suc n) t x l c p e = elim (Bool-cases (ltb t.max_entries (length t.entries))) [
  | inl b ↦
      let k = remove_back t c (ground arith) in
      let (y, at, left) = front-back x l (subst Single e c.single) (ground (arith, c.same_size)) in
      let front : (remove_found t (back t.lru)).lru ≡ x ∷ remove_element y.0 l =
        removed t x y l e at left in
      let (m, f) =
        trim-front n (remove_found t (back t.lru)) x (remove_element y.0 l) k.0 (omega (arith, k))
          front in
      (m, rw b f)
  | inr b ↦ (l, rw b e)
]
  where
    removed :
        (t : Tracker) (x y : ℕ × TrackerEntry) (l : Elements TrackerEntry)
        → t.lru ≡ x ∷ l
        → back (x ∷ l) ≡ some y
        → remove_element y.0 (x ∷ l) ≡ x ∷ remove_element y.0 l
        → (remove_found t (back t.lru)).lru ≡ x ∷ remove_element y.0 l
    removed t x y l e at left =
        unfold remove_found remove_locked in (rw (ap back e, at) (ap (remove_element y.0) e ∙ left))

front-Holds :
    (t : Tracker) (i : ℕ) (e : TrackerEntry) (l : Elements TrackerEntry)
    → t.lru ≡ (i, e) ∷ l
    → Holds t e.key e.snapshot e.expires_at
unfolding value_of
front-Holds t i e l h = record {
  at = i;
  entry = e;
  valued = rw h (ground arith);
  keyed = refl;
  same = refl;
  expires = refl;
}

renew-Holds :
    (t : Tracker) (i : ℕ) (k : String) (s : TrackerSnapshot) (now : ℕ)
    → Consistent t
    → lookup k t.entries ≡ some i
    → Holds (renew t i s now (value_of i t.lru)) k s (now + t.ttl)
unfolding renew to_front
renew-Holds t i k s now c h =
    let (e, v, q) = address_of-value_of k i t.lru c.single (sym (c.agree k) ∙ h) in
    let f : TrackerEntry = record e { snapshot = s; expires_at = now + t.ttl } in
    let held = front-Holds (renew t i s now (some e)) i f (remove_element i t.lru) refl in
    rw v (subst (λ (j : String). Holds (renew t i s now (some e)) j s (now + t.ttl)) q held)

put_found-Holds :
    (t : Tracker) (k : String) (s : TrackerSnapshot) (now : ℕ) (o : Option ℕ)
    → lookup k t.entries ≡ o
    → IsTracker t
    → 0 < t.max_entries
    → Holds (put_found t k s now o) k s (now + t.ttl)
unfolding put_found trim_all push
put_found-Holds t k s now none e h p =
    let pushed = push t k s now in
    let (m, f) =
      trim-front (length pushed.entries) pushed
        (t.next, record { key = k; snapshot = s; expires_at = now + t.ttl }) t.lru
        (push-Consistent t k s now h.consistent e) p refl in
    front-Holds (trim_all pushed) t.next _ m f
put_found-Holds t k s now (some i) e h p = renew-Holds t i k s now h.consistent e

-- What was put is there, under its key, until its time has run out.
put_locked-Holds :
    (t : Tracker) (k : String) (s : TrackerSnapshot) (now : ℕ)
    → IsTracker t
    → 0 < t.max_entries
    → Holds (put_locked t k s now) k s (now + t.ttl)
unfolding put_locked
put_locked-Holds t k s now h p = put_found-Holds t k s now (lookup k t.entries) refl h p

evict_expired-Holds :
    (t : Tracker) (k : String) (s : TrackerSnapshot) (until now : ℕ)
    → IsTracker t
    → Holds t k s until
    → now < until
    → Holds (evict_expired t now) k s until
unfolding live
evict_expired-Holds t k s until now h d l =
    let r = evict_expired_lem t now h in
    record {
      at = d.at;
      entry = d.entry;
      valued = r.3 d.at ∙ ground (arith, d.valued, d.expires);
      keyed = d.keyed;
      same = d.same;
      expires = d.expires;
    }

get_locked-Holds :
    (t : Tracker) (k : String) (s : TrackerSnapshot) (until now : ℕ)
    → IsTracker t
    → Holds t k s until
    → now < until
    → (get_locked t k now).0 ≡ some s
unfolding get_locked get_found get_element
get_locked-Holds t k s until now h d l =
    let e = value_of-address_of d.at d.entry t.lru h.consistent.single d.valued in
    let found : lookup k t.entries ≡ some d.at =
      h.consistent.agree k ∙ (ap (λ (j : String). address_of j t.lru) (sym d.keyed) ∙ e) in
    rw (found, d.valued) (ground (arith, d.expires, d.same))

-- The snapshot that a request finds is the one that its previous response holds.
referenced :
    (t : Tracker) (m : RequestMetrics) (s : TrackerSnapshot) (until now : ℕ)
    → IsTracker t
    → m.previous_response_ref ≢ ""
    → Holds t ("response:" <> m.previous_response_ref) s until
    → now < until
    → (find_previous t m now).0 ≡ some s
unfolding find_previous get_referenced
referenced t m s until now h n d l =
    let e = evict_expired t now in
    let k = "response:" <> m.previous_response_ref in
    let g =
      get_locked-Holds e k s until now (evict_expired_lem t now h).0
        (evict_expired-Holds t k s until now h d l) l in
    rw (ne→eq_false m.previous_response_ref "" n) (first_found m now (get_locked e k now) s g)
  where
    first_found :
        (m : RequestMetrics) (now : ℕ) (o : Option TrackerSnapshot × Tracker) (s : TrackerSnapshot)
        → o.0 ≡ some s
        → (or_lineage m now o).0 ≡ some s
    first_found m now (none, t) s e = cc
    first_found m now (some r, t) s e = unfold or_lineage in e

-- The snapshot that a request finds by its lineage, where it names no previous response.
inherited :
    (t : Tracker) (m : RequestMetrics) (s : TrackerSnapshot) (until now : ℕ)
    → IsTracker t
    → m.previous_response_ref ≡ ""
    → m.lineage_ref ≢ ""
    → Holds t ("lineage:" <> m.lineage_ref) s until
    → now < until
    → (find_previous t m now).0 ≡ some s
unfolding find_previous get_referenced or_lineage
inherited t m s until now h o n d l =
    let e = evict_expired t now in
    let k = "lineage:" <> m.lineage_ref in
    let g =
      get_locked-Holds e k s until now (evict_expired_lem t now h).0
        (evict_expired-Holds t k s until now h d l) l in
    rw ((eq_iff m.previous_response_ref "").1 o, ne→eq_false m.lineage_ref "" n) g

bind_response-Holds :
    (t : Tracker) (m : RequestMetrics) (ref : String) (now : ℕ)
    → IsTracker t
    → 0 < t.max_entries
    → ref ≢ ""
    → Holds (bind_response t m ref now) ("response:" <> ref) (snapshot_from m) (now + t.ttl)
unfolding bind_response
bind_response-Holds t m ref now h p n =
    let e = evict_expired_lem t now h in
    let k = "response:" <> ref in
    let d = put_locked-Holds (evict_expired t now) k (snapshot_from m) now e.0 (omega (arith, e)) in
    rw (ne→eq_false ref "" n) (
      subst
        (λ (u : ℕ).
          Holds (put_locked (evict_expired t now) k (snapshot_from m) now) k (snapshot_from m)
            (now + u))
        e.1 d)

-- A request that names a response is compared with the request that BindResponse last stored for it,
-- as long as the tracker's time has not passed since; at the first call after the storing, whatever
-- else the tracker held and however full it was.
pub bind-compare :
    (t : Tracker) (earlier later : RequestMetrics) (bound now : ℕ)
    → IsTracker t
    → 0 < t.max_entries
    → later.previous_response_ref ≢ ""
    → now < bound + t.ttl
    → let stored = bind_response t earlier later.previous_response_ref bound in
      (compare_and_store stored later now).0
      ≡ compare_snapshots (snapshot_from earlier) (snapshot_from later)
unfolding compare_and_store delta_from
bind-compare t earlier later bound now h p n l =
    let ref = later.previous_response_ref in
    rw (
      referenced (bind_response t earlier ref bound) later (snapshot_from earlier) (bound + t.ttl)
        now (bind_response-IsTracker t earlier ref bound h) n
        (bind_response-Holds t earlier ref bound h p n) l)

-- A lookup leaves the settings.
get_found-settings :
    (t : Tracker) (now : ℕ) (o : Option ℕ)
    → let r = (get_found t now o).1 in (r.max_entries ≡ t.max_entries) × (r.ttl ≡ t.ttl)
unfolding get_found get_element remove_locked
get_found-settings t now none = (refl, refl)
get_found-settings t now (some i) = ground arith

get_referenced-settings :
    (t : Tracker) (prefix ref : String) (now : ℕ)
    → let r = (get_referenced t prefix ref now).1 in
      (r.max_entries ≡ t.max_entries) × (r.ttl ≡ t.ttl)
unfolding get_referenced get_locked
get_referenced-settings t prefix ref now =
    ground (arith, get_found-settings t now (lookup (prefix <> ref) t.entries))

or_lineage-settings :
    (m : RequestMetrics) (now : ℕ) (o : Option TrackerSnapshot) (t : Tracker)
    → let r = (or_lineage m now (o, t)).1 in (r.max_entries ≡ t.max_entries) × (r.ttl ≡ t.ttl)
unfolding or_lineage
or_lineage-settings m now none t = get_referenced-settings t "lineage:" m.lineage_ref now
or_lineage-settings m now (some s) t = (refl, refl)

find_previous-settings :
    (t : Tracker) (m : RequestMetrics) (now : ℕ)
    → IsTracker t
    → let r = (find_previous t m now).1 in (r.max_entries ≡ t.max_entries) × (r.ttl ≡ t.ttl)
unfolding find_previous
find_previous-settings t m now h =
    let e = evict_expired_lem t now h in
    let prefix : String = "response:" in
    let g = get_referenced (evict_expired t now) prefix m.previous_response_ref now in
    let a = get_referenced-settings (evict_expired t now) prefix m.previous_response_ref now in
    let b = or_lineage-settings m now g.0 g.1 in (b.0 ∙ (a.0 ∙ e.2), b.1 ∙ (a.1 ∙ e.1))

store_lineage-Holds :
    (t : Tracker) (m : RequestMetrics) (now : ℕ)
    → IsTracker t
    → 0 < t.max_entries
    → m.lineage_ref ≢ ""
    → Holds (store_lineage t m now) ("lineage:" <> m.lineage_ref) (snapshot_from m) (now + t.ttl)
unfolding store_lineage
store_lineage-Holds t m now h p n =
    rw (ne→eq_false m.lineage_ref "" n) (put_locked-Holds t _ (snapshot_from m) now h p)

-- Of two requests of one lineage, the second of which names no response, the second is compared with
-- the first, as long as the tracker's time has not passed between them.
pub compare-compare :
    (t : Tracker) (earlier later : RequestMetrics) (stored now : ℕ)
    → IsTracker t
    → 0 < t.max_entries
    → later.previous_response_ref ≡ ""
    → later.lineage_ref ≢ ""
    → earlier.lineage_ref ≡ later.lineage_ref
    → now < stored + t.ttl
    → (compare_and_store (compare_and_store t earlier stored).1 later now).0
      ≡ compare_snapshots (snapshot_from earlier) (snapshot_from later)
compare-compare t earlier later stored now h p o n same l =
    let q = (find_previous t earlier stored).1 in
    let settings = find_previous-settings t earlier stored h in
    let d =
      store_lineage-Holds q earlier stored (find_previous-IsTracker t earlier stored h)
        (omega (arith, settings)) (λ e. n (sym same ∙ e)) in
    let keyed =
      subst₂
        (λ (r : String) (u : ℕ).
          Holds (store_lineage q earlier stored) ("lineage:" <> r) (snapshot_from earlier)
            (stored + u))
        same settings.1 d in
    let next = store_lineage q earlier stored in
    let kept =
      store_lineage-IsTracker q earlier stored (find_previous-IsTracker t earlier stored h) in
    unfold compare_and_store delta_from in
    (rw (inherited next later (snapshot_from earlier) (stored + t.ttl) now kept o n keyed l))
