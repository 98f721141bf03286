-- ===== src/ContextObs/Comparison.antt =====
-- snapshotFrom and compareSnapshots of internal/contextobs/tracker.go.
use codex_account_pool.Prelude.{
  ℕ, ◌+◌, ◌-◌, String, true, false, Option, none, some, List, [], ◌∷◌, Dict, lookup, insert, ltb,
  eqb, if◌then◌else◌,
}
use codex_account_pool.ContextObs.Types.{
  pos, diff, Ratio, ItemRef, RequestMetrics, DeltaMetrics, TrackerSnapshot,
}

unfoldable pub context_size : RequestMetrics → ℕ
context_size m = if ltb 0 m.context_bytes then m.context_bytes else m.request_bytes

unfoldable pub snapshot_from : RequestMetrics → TrackerSnapshot
snapshot_from m = record { context_bytes = context_size m; items = m.item_refs }

-- m[k] of a map of numbers: 0 for a key that is not there
abbrev pub number : Option ℕ → ℕ
number none = 0
number (some n) = n

unfoldable pub amount : String → Dict ℕ → ℕ
amount k m = number (lookup k m)

unfoldable pub counts_of : List ItemRef → Dict ℕ → Dict ℕ
counts_of [] counts = counts
counts_of (x ∷ xs) counts = counts_of xs (insert x.ref (amount x.ref counts + 1) counts)

unfoldable pub sizes_of : List ItemRef → Dict ℕ → Dict ℕ
sizes_of [] sizes = sizes
sizes_of (x ∷ xs) sizes = sizes_of xs (insert x.ref x.size sizes)

pub record Reuse : Type 0 where
  pub counts : Dict ℕ
  pub count : ℕ
  pub bytes : ℕ

unfoldable pub reuse_item : Dict ℕ → ItemRef → Reuse → Reuse
reuse_item sizes x r = if eqb (amount x.ref r.counts) 0 then r else record {
  counts = insert x.ref (amount x.ref r.counts - 1) r.counts;
  count = r.count + 1;
  bytes = r.bytes + (if ltb 0 x.size then x.size else amount x.ref sizes);
}

unfoldable pub reuse_items : Dict ℕ → List ItemRef → Reuse → Reuse
reuse_items sizes [] r = r
reuse_items sizes (x ∷ xs) r = reuse_items sizes xs (reuse_item sizes x r)

unfoldable pub reuse_of : TrackerSnapshot → TrackerSnapshot → Reuse
reuse_of previous current =
    reuse_items (sizes_of previous.items []) current.items
      (record { counts = counts_of previous.items []; count = 0; bytes = 0 })

abbrev pub no_ratio : Ratio
no_ratio = record { over = 0; under = 1 }

-- The quotient, left at 0 unless the whole context is not empty.
unfoldable pub ratio : ℕ → ℕ → ℕ → Ratio
ratio whole over under = if ltb 0 whole then record { over = over; under = under } else no_ratio

unfoldable pub at_most : ℕ → ℕ → ℕ
at_most limit n = if ltb limit n then limit else n

-- The reused bytes do not exceed the context, so the subtraction below is exact.
unfoldable pub compare_snapshots : TrackerSnapshot → TrackerSnapshot → DeltaMetrics
compare_snapshots previous current =
    let reuse = reuse_of previous current in
    let whole = current.context_bytes in
    let reused = at_most whole reuse.bytes in
    let novel = whole - reused in
    record {
      available = true;
      previous_request_bytes = previous.context_bytes;
      previous_context_bytes = previous.context_bytes;
      context_growth_bytes = diff whole previous.context_bytes;
      reused_item_count = reuse.count;
      reused_context_bytes = reused;
      novel_context_bytes = novel;
      context_reuse_ratio = ratio whole reused whole;
      novel_context_ratio = ratio whole novel whole;
      context_amplification_ratio = ratio whole whole (if ltb novel 1 then 1 else novel);
    }

-- DeltaMetrics{}
abbrev pub no_delta : DeltaMetrics
no_delta = record {
  available = false;
  previous_request_bytes = 0;
  previous_context_bytes = 0;
  context_growth_bytes = pos 0;
  reused_item_count = 0;
  reused_context_bytes = 0;
  novel_context_bytes = 0;
  context_reuse_ratio = no_ratio;
  novel_context_ratio = no_ratio;
  context_amplification_ratio = no_ratio;
}
