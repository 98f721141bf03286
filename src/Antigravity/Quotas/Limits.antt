-- ===== src/Antigravity/Quotas/Limits.antt =====
-- The quota that internal/antigravity/quota.go reads, by the numbers of the entries.
use codex_account_pool.Prelude.{
  Bool, true, false, not, ◌||◌, ◌≡◌, refl, Option, none, some, List, [], ◌∷◌, Bool-cases,
  Option-cases, if◌then◌else◌, arith, inl, inr,
}
use codex_account_pool.AccountPool.{unknown, usable, exhausted}
use codex_account_pool.Antigravity.Quotas.{QuotaEntry, quota_remaining, quota_state}

module _ {F : Type 0} (is_positive : F → Bool) where
  abbrev pub is_spent : Option F → Bool
  is_spent none = false
  is_spent (some x) = not (is_positive x)

  abbrev pub is_told : Option F → Bool
  is_told none = false
  is_told (some x) = true

  unfoldable pub any_spent : List (QuotaEntry F) → Bool
  any_spent [] = false
  any_spent (e ∷ l) = is_spent (quota_remaining e) || any_spent l

  unfoldable pub any_told : List (QuotaEntry F) → Bool
  any_told [] = false
  any_told (e ∷ l) = is_told (quota_remaining e) || any_told l

  -- The quota is exhausted if any number of the entries is 0 or less, usable if there are numbers and
  -- all are above 0, and unknown if there is none, in whatever order the entries come.
  pub quota_state_any :
      (known : Bool) (l : List (QuotaEntry F))
      → quota_state is_positive known l
        ≡ (if any_spent l then exhausted else if known || any_told l then usable else unknown)
  unfolding quota_state any_spent any_told
  quota_state_any known [] = ground arith
  quota_state_any known (e ∷ l) = elim (Option-cases (quota_remaining e)) [
    | inl n ↦ rw (n, quota_state) (quota_state_any known l)
    | inr (x, n) ↦ elim (Bool-cases (is_positive x)) [
      | inl p ↦ rw (n, p, quota_state) (ground (arith, quota_state_any true l))
      | inr p ↦ rw (n, p, quota_state) refl
    ]
  ]
