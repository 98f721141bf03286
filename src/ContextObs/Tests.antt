-- ===== src/ContextObs/Tests.antt =====
-- Runs of the tracker of internal/contextobs/tracker.go, and concrete instances of the theorems.
use codex_account_pool.Prelude.{
  codes, ◌++◌, cut_prefix, trim_space, reversed, drop_spaces, front_space, end_space, same_codes, ℕ,
  ◌+◌, ◌≤◌, String, Option, none, some, List, [], ◌∷◌, lookup, ◌≢◌, ◌≡◌, refl, length, arith,
}
use codex_account_pool.ContextObs.{
  ItemRef, RequestMetrics, TrackerEntry, Tracker, value_of, new_tracker, compare_and_store,
  bind_response, snapshot_from, context_size, compare_snapshots, Event, read, read_byte, read_line,
  observe_rest, observe_payload, observe_decoded, observe_event, capture_usage, capture_response,
  count_item, new_response_observer, no_metrics, trim,
}
use codex_account_pool.ContextObs.Stream.{read_lines, read-lines}
use codex_account_pool.ContextObs.Matching.{matched, compare_snapshots-matched}
use codex_account_pool.ContextObs.Listing.{address_of}
use codex_account_pool.ContextObs.Consistency.{Consistent, IsTracker, trim-ends}
use codex_account_pool.ContextObs.Eviction.{compares, binds, calls, calls-IsTracker}
use codex_account_pool.ContextObs.Lineage.{bind-compare, compare-compare}

abbrev item : String → ℕ → ItemRef
item r n = record { kind = "message"; size = n; ref = r }

abbrev request : String → String → List ItemRef → RequestMetrics
request lineage response items = record {
  request_bytes = 90;
  context_bytes = 100;
  item_refs = items;
  lineage_ref = lineage;
  previous_response_ref = response;
}

abbrev first_turn : RequestMetrics
first_turn = request "l" "" (item "a" 10 ∷ item "b" 20 ∷ [])

abbrev second_turn : RequestMetrics
second_turn = request "l" "" (item "a" 10 ∷ item "b" 20 ∷ item "a" 10 ∷ item "c" 5 ∷ [])

abbrev answered_turn : RequestMetrics
answered_turn = request "" "r1" (item "a" 10 ∷ item "b" 20 ∷ item "c" 5 ∷ [])

abbrev small : Tracker
small = new_tracker 1 1000

small-IsTracker : IsTracker small
small-IsTracker = calls-IsTracker 1 1000 []

compare_snapshots-matched_example :
    let d = compare_snapshots (snapshot_from first_turn) (snapshot_from second_turn) in
    (d.reused_item_count ≡ matched ("a" ∷ "b" ∷ []) ("a" ∷ "b" ∷ "a" ∷ "c" ∷ []))
    × (d.reused_item_count ≤ 2)
    × (d.reused_item_count ≤ 4)
    × (d.reused_context_bytes + d.novel_context_bytes ≡ 100)
unfolding snapshot_from context_size
compare_snapshots-matched_example =
    compare_snapshots-matched (snapshot_from first_turn) (snapshot_from second_turn)

calls-IsTracker_example :
    IsTracker (calls (compares first_turn 5 ∷ binds first_turn "r1" 6 ∷ []) (new_tracker 1 1000))
calls-IsTracker_example =
    calls-IsTracker 1 1000 (compares first_turn 5 ∷ binds first_turn "r1" 6 ∷ [])

answered : answered_turn.previous_response_ref ≢ ""
answered e = cc

named : second_turn.lineage_ref ≢ ""
named e = cc

bind-compare_example :
    (compare_and_store (bind_response small first_turn "r1" 7) answered_turn 900).0
    ≡ compare_snapshots (snapshot_from first_turn) (snapshot_from answered_turn)
unfolding new_tracker
bind-compare_example =
    bind-compare small first_turn answered_turn 7 900 small-IsTracker (omega arith) answered
      (omega arith)

compare-compare_example :
    (compare_and_store (compare_and_store small first_turn 7).1 second_turn 900).0
    ≡ compare_snapshots (snapshot_from first_turn) (snapshot_from second_turn)
unfolding new_tracker
compare-compare_example =
    compare-compare small first_turn second_turn 7 900 small-IsTracker (omega arith) refl named refl
      (omega arith)

-- A map that is one element above its bound.
abbrev stored : String → TrackerEntry
stored k = record { key = k; snapshot = snapshot_from first_turn; expires_at = 1000 }

abbrev crowded : Tracker
crowded = record {
  max_entries = 1;
  ttl = 1000;
  entries = ("a", 0) ∷ ("b", 1) ∷ [];
  lru = (0, stored "a") ∷ (1, stored "b") ∷ [];
  next = 2;
}

crowded-Consistent : Consistent crowded
unfolding lookup address_of value_of
crowded-Consistent = record {
  agree = λ k. refl;
  distinct = (refl, (refl, tt));
  single = ((refl, refl, (refl, refl, tt)));
  below = (omega arith, (omega arith, tt));
  same_size = refl;
}

trim-ends_example :
    Consistent (trim 1 crowded)
    × (length (trim 1 crowded).entries ≤ 1)
    × (trim (1 + 9) crowded ≡ trim 1 crowded)
trim-ends_example = trim-ends 1 9 crowded crowded-Consistent (omega arith)

-- A payload of one byte or more is an event without parts.
abbrev plain : List ℕ → Option Event
plain s = some (record { kind = ""; item = none; response = none; usage = none })

abbrev two_lines : List (List ℕ)
two_lines = codes "data: {}" ∷ codes "data: [DONE]" ∷ []

read-lines_example :
    (read none plain
      (read none plain (new_response_observer 20) (codes "data:"))
      (codes " {}" ++ (10 ∷ codes "data: [DONE]" ++ (10 ∷ [])))).metrics
    ≡ read_lines none plain 20 two_lines no_metrics
unfolding new_response_observer
read-lines_example =
    read-lines none plain 20 two_lines (codes "data:")
      (codes " {}" ++ (10 ∷ codes "data: [DONE]" ++ (10 ∷ []))) (ground arith) refl

two_events :
    (read none plain
      (new_response_observer 20)
      (codes " data: {}" ++ (10 ∷ codes "data: [DONE]" ++ (10 ∷ [])))).metrics.sse_event_count
    ≡ 1
unfolding read read_byte new_response_observer read_line observe_rest cut_prefix trim_space reversed
    drop_spaces front_space end_space observe_payload same_codes observe_decoded observe_event
    capture_usage capture_response count_item
two_events = refl
