-- ===== src/Antigravity/Quotas.antt =====
-- internal/antigravity/quota.go: what the provider's list of models says of the quota of an account.
-- The JSON comes decoded: `F` is its numbers, with the test against 0. The order of a list stands for
-- the order of a range loop over a map.
pub mod Limits
pub mod Tests
use codex_account_pool.Prelude.{
  ℕ, String, Bool, true, false, not, ◌&&◌, ◌||◌, Option, none, some, List, [], ◌∷◌, ◌++◌, Dict,
  lookup, leb, ltb, if◌then◌else◌,
}
use codex_account_pool.AccountPool.{Quota, unknown, usable, exhausted}

-- The numbers under "remainingFraction" and "remainingPercentage", where they are numbers.
pub record Limit (F : Type 0) : Type 0 where
  pub fraction : Option F
  pub percentage : Option F

-- An entry's own limits, and those of the object under "remaining".
pub record QuotaEntry (F : Type 0) : Type 0 where
  pub own : Limit F
  pub nested : Option (Limit F)

-- A value under "quotaInfo" and its like: an object, a list with the objects of its rows, or neither.
pub data QuotaValue (F : Type 0) : Type 0 where
  one : QuotaEntry F → QuotaValue F
  rows : List (Option (QuotaEntry F)) → QuotaValue F
  neither : QuotaValue F

pub record ModelInfo (F : Type 0) : Type 0 where
  pub quota_info : QuotaValue F
  pub quota_infos : QuotaValue F
  pub by_tier : List (QuotaValue F)

module _ {F : Type 0} where
  unfoldable pub first_number : Option F → Option F → Option F
  first_number (some x) o = some x
  first_number none o = o

  unfoldable pub limit_of : Limit F → Option (Limit F) → Limit F
  limit_of own none = own
  limit_of own (some l) = l

  unfoldable pub quota_remaining : QuotaEntry F → Option F
  quota_remaining e = let l = limit_of e.own e.nested in first_number l.fraction l.percentage

  unfoldable pub objects : List (Option (QuotaEntry F)) → List (QuotaEntry F)
  objects [] = []
  objects (none ∷ l) = objects l
  objects (some e ∷ l) = e ∷ objects l

  -- What appendValue appends.
  unfoldable pub value_entries : QuotaValue F → List (QuotaEntry F)
  value_entries (one e) = e ∷ []
  value_entries (rows l) = objects l
  value_entries neither = []

  unfoldable pub tier_entries : List (QuotaValue F) → List (QuotaEntry F)
  tier_entries [] = []
  tier_entries (v ∷ l) = value_entries v ++ tier_entries l

  unfoldable pub quota_entries : ModelInfo F → List (QuotaEntry F)
  quota_entries m =
      value_entries m.quota_info ++ (value_entries m.quota_infos ++ tier_entries m.by_tier)

  module _ (is_positive : F → Bool) where
    -- The loop over the entries; `known` says that one has told a number.
    unfoldable pub quota_state : Bool → List (QuotaEntry F) → Quota
    quota_state known [] = if known then usable else unknown
    quota_state known (e ∷ l) = elim (quota_remaining e) [
      | none ↦ quota_state known l
      | some x ↦ elim (is_positive x) [ true ↦ quota_state true l | false ↦ exhausted ]
    ]

    unfoldable pub info_state : Option (ModelInfo F) → Quota
    info_state none = unknown
    info_state (some m) = quota_state false (quota_entries m)

    -- The models of the list that are objects.
    unfoldable pub quota_state_for_model : Dict (ModelInfo F) → String → Quota
    quota_state_for_model models model = info_state (lookup model models)

    -- What the upstream answered: the status, and the models if its body could be decoded.
    unfoldable pub reply_state : String → Option (ℕ × Option (Dict (ModelInfo F))) → Quota
    reply_state model none = unknown
    reply_state model (some (status, none)) = unknown
    reply_state model (some (status, some models)) =
        if ltb status 200 || leb 300 status then unknown else quota_state_for_model models model
