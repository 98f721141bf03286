-- ===== src/ContextObs/Types.antt =====
-- The data of internal/contextobs/types.go and tracker.go that the tracker uses. Sizes are lengths
-- of texts in memory, so they are natural numbers; times are in nanoseconds.
use codex_account_pool.Prelude.{ℕ, ◌-◌, ◌*◌, String, Bool, List, Dict, leb, if◌then◌else◌}
use codex_account_pool.ContextObs.Container.{Elements}

-- The integers.
pub data ℤ : Type 0 where
  pos negsuc : ℕ → ℤ

unfoldable pub diff : ℕ → ℕ → ℤ
diff m n = if leb n m then pos (m - n) else negsuc (n - m - 1)

-- A quotient of two sizes, where the source has the nearest float64.
pub record Ratio : Type 0 where
  pub over : ℕ
  pub under : ℕ

pub record ItemRef : Type 0 where
  pub kind : String
  pub size : ℕ
  pub ref : String

pub record RequestMetrics : Type 0 where
  pub request_bytes : ℕ
  pub context_bytes : ℕ
  pub item_refs : List ItemRef
  pub lineage_ref : String
  pub previous_response_ref : String

pub record DeltaMetrics : Type 0 where
  pub available : Bool
  pub previous_request_bytes : ℕ
  pub previous_context_bytes : ℕ
  pub context_growth_bytes : ℤ
  pub reused_item_count : ℕ
  pub reused_context_bytes : ℕ
  pub novel_context_bytes : ℕ
  pub context_reuse_ratio : Ratio
  pub novel_context_ratio : Ratio
  pub context_amplification_ratio : Ratio

pub record TrackerSnapshot : Type 0 where
  pub context_bytes : ℕ
  pub items : List ItemRef

pub record TrackerEntry : Type 0 where
  pub key : String
  pub snapshot : TrackerSnapshot
  pub expires_at : ℕ

-- `next` is an address that no element has yet.
pub record Tracker : Type 0 where
  pub max_entries : ℕ
  pub ttl : ℕ
  pub entries : Dict ℕ
  pub lru : Elements TrackerEntry
  pub next : ℕ

abbrev pub default_tracker_entries : ℕ
default_tracker_entries = 256

abbrev pub default_tracker_ttl : ℕ
default_tracker_ttl = 3600 * 1000000000
