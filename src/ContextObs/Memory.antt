-- ===== src/ContextObs/Memory.antt =====
-- Tracker of internal/contextobs/tracker.go: a map from keys to the elements of a list in the order
-- of their use. The mutex makes each operation one step.
use Prim.Native.String.{◌++◌ as ◌<>◌}
use codex_account_pool.Prelude.{
  ℕ, zero, suc, ◌+◌, String, Option, none, some, [], ◌∷◌, lookup, insert, erase, length, ltb, leb,
  eqb, if◌then◌else◌, ◌==◌,
}
use codex_account_pool.ContextObs.Container.{Elements, value_of, remove_element, to_front, back}
use codex_account_pool.ContextObs.Types.{
  RequestMetrics, DeltaMetrics, TrackerSnapshot, TrackerEntry, Tracker, default_tracker_entries,
  default_tracker_ttl,
}
use codex_account_pool.ContextObs.Comparison.{snapshot_from, compare_snapshots, no_delta}

-- A non-positive option is the number 0 here.
unfoldable pub new_tracker : ℕ → ℕ → Tracker
new_tracker max ttl = record {
  max_entries = if eqb max 0 then default_tracker_entries else max;
  ttl = if eqb ttl 0 then default_tracker_ttl else ttl;
  entries = [];
  lru = [];
  next = 0;
}

unfoldable pub remove_locked : Tracker → ℕ → TrackerEntry → Tracker
remove_locked t el e = record t { entries = erase e.key t.entries; lru = remove_element el t.lru }

-- el != nil
unfoldable pub remove_found : Tracker → Option (ℕ × TrackerEntry) → Tracker
remove_found t none = t
remove_found t (some (el, e)) = remove_locked t el e

-- Every element of the map is in the list, so that it has a value.
unfoldable pub get_element :
    Tracker → ℕ → ℕ → Option TrackerEntry → Option TrackerSnapshot × Tracker
get_element t now el none = (none, t)
get_element t now el (some e) =
    if leb e.expires_at now
    then (none, remove_locked t el e)
    else (some e.snapshot, record t { lru = to_front el e t.lru })

unfoldable pub get_found : Tracker → ℕ → Option ℕ → Option TrackerSnapshot × Tracker
get_found t now none = (none, t)
get_found t now (some el) = get_element t now el (value_of el t.lru)

unfoldable pub get_locked : Tracker → String → ℕ → Option TrackerSnapshot × Tracker
get_locked t key now = get_found t now (lookup key t.entries)

-- The loop that drops elements at the back while the map is too large, for so many rounds.
unfoldable pub trim : ℕ → Tracker → Tracker
trim zero t = t
trim (suc n) t =
    let rest = trim n (remove_found t (back t.lru)) in
    if ltb t.max_entries (length t.entries) then rest else t

unfoldable pub renew : Tracker → ℕ → TrackerSnapshot → ℕ → Option TrackerEntry → Tracker
renew t el snapshot now none = t
renew t el snapshot now (some e) = record t {
  lru = to_front el (record e { snapshot = snapshot; expires_at = now + t.ttl }) t.lru;
}

unfoldable pub push : Tracker → String → TrackerSnapshot → ℕ → Tracker
push t key snapshot now = record t {
  entries = insert key t.next t.entries;
  lru = (t.next, record { key = key; snapshot = snapshot; expires_at = now + t.ttl }) ∷ t.lru;
  next = t.next + 1;
}

unfoldable pub trim_all : Tracker → Tracker
trim_all t = trim (length t.entries) t

unfoldable pub put_found : Tracker → String → TrackerSnapshot → ℕ → Option ℕ → Tracker
put_found t key snapshot now (some el) = renew t el snapshot now (value_of el t.lru)
put_found t key snapshot now none = trim_all (push t key snapshot now)

unfoldable pub put_locked : Tracker → String → TrackerSnapshot → ℕ → Tracker
put_locked t key snapshot now = put_found t key snapshot now (lookup key t.entries)

-- From the back: the elements behind one are visited before it.
unfoldable pub evict_elements : ℕ → Elements TrackerEntry → Tracker → Tracker
evict_elements now [] t = t
evict_elements now ((el, e) ∷ l) t =
    let behind = evict_elements now l t in
    if leb e.expires_at now then remove_locked behind el e else behind

unfoldable pub evict_expired : Tracker → ℕ → Tracker
evict_expired t now = evict_elements now t.lru t

unfoldable pub get_referenced : Tracker → String → String → ℕ → Option TrackerSnapshot × Tracker
get_referenced t prefix ref now = if ref == "" then (none, t) else get_locked t (prefix <> ref) now

-- The lineage is asked only where the response was not found.
unfoldable pub or_lineage :
    RequestMetrics → ℕ → Option TrackerSnapshot × Tracker → Option TrackerSnapshot × Tracker
or_lineage m now (some s, t) = (some s, t)
or_lineage m now (none, t) = get_referenced t "lineage:" m.lineage_ref now

unfoldable pub store_lineage : Tracker → RequestMetrics → ℕ → Tracker
store_lineage t m now =
    if m.lineage_ref == ""
    then t
    else put_locked t ("lineage:" <> m.lineage_ref) (snapshot_from m) now

unfoldable pub delta_from : Option TrackerSnapshot → TrackerSnapshot → DeltaMetrics
delta_from none current = no_delta
delta_from (some previous) current = compare_snapshots previous current

unfoldable pub find_previous : Tracker → RequestMetrics → ℕ → Option TrackerSnapshot × Tracker
find_previous t m now =
    or_lineage m now (get_referenced (evict_expired t now) "response:" m.previous_response_ref now)

unfoldable pub compare_and_store : Tracker → RequestMetrics → ℕ → DeltaMetrics × Tracker
compare_and_store t m now =
    let found = find_previous t m now in
    (delta_from found.0 (snapshot_from m), store_lineage found.1 m now)

unfoldable pub bind_response : Tracker → RequestMetrics → String → ℕ → Tracker
bind_response t m response_ref now =
    if response_ref == ""
    then t
    else put_locked (evict_expired t now) ("response:" <> response_ref) (snapshot_from m) now
