-- ===== src/Antigravity/Quotas/Tests.antt =====
-- Runs of internal/antigravity/quota.go with whole numbers.
use codex_account_pool.Prelude.{ℕ, ◌≡◌, refl, Option, none, some, [], ◌∷◌, lookup, ltb}
use codex_account_pool.AccountPool.{unknown, exhausted}
use codex_account_pool.Antigravity.Quotas.{
  QuotaEntry, ModelInfo, one, rows, neither, first_number, limit_of, quota_remaining, objects,
  value_entries, tier_entries, quota_entries, quota_state, info_state, quota_state_for_model,
  reply_state,
}

abbrev entry : Option ℕ → Option ℕ → QuotaEntry ℕ
entry fraction percentage = record {
  own = record { fraction = fraction; percentage = percentage };
  nested = none;
}

abbrev info : ModelInfo ℕ
info = record {
  quota_info = one (entry none (some 4));
  quota_infos = rows (none ∷ some (entry none none) ∷ []);
  by_tier = neither ∷ one (entry (some 0) (some 9)) ∷ [];
}

spent_tier : reply_state (ltb 0) "gemini" (some (200, some (("gemini", info) ∷ []))) ≡ exhausted
unfolding reply_state quota_state_for_model info_state lookup quota_entries value_entries objects
    tier_entries quota_state quota_remaining limit_of first_number
spent_tier = refl

no_model : reply_state (ltb 0) "other" (some (200, some (("gemini", info) ∷ []))) ≡ unknown
unfolding reply_state quota_state_for_model info_state lookup
no_model = refl

refused : reply_state (ltb 0) "gemini" (some (401, some (("gemini", info) ∷ []))) ≡ unknown
unfolding reply_state
refused = refl
