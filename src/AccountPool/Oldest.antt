-- ===== src/AccountPool/Oldest.antt =====
-- The loop of Acquire in internal/accountpool/pool.go that looks for an entry to evict.
use codex_account_pool.Prelude.{
  ℕ, ◌≤◌, String, ◌≡◌, refl, ◌≢◌, ◌⊎◌, inl, inr, some, [], ◌∷◌, arith, Dict, lookup, Entries,
  Entries-map, Distinct, Distinct-lookup, eq_iff,
}
use codex_account_pool.AccountPool.{Entry, oldest_idle, older_idle, expires_of}

module _ (h : ℕ → Entry) (all : Dict ℕ) where
  abbrev pub IsIdle : String → Type 0
  IsIdle k = (a : ℕ) × (lookup k all ≡ some a) × ((h a).refs ≡ 0)

  older_idle_cases :
      (oldest k : String) (a : ℕ)
      → ((h a).refs ≡ 0) × (older_idle h all oldest k a ≡ k)
        ⊎ (older_idle h all oldest k a ≡ oldest)
  unfolding older_idle
  older_idle_cases oldest k a = ground arith

  older_idle_le :
      (oldest k : String) (a : ℕ)
      → k ≢ ""
      → lookup k all ≡ some a
      → ((h a).refs ≡ 0 → expires_of h all (older_idle h all oldest k a) ≤ (h a).expires)
        × (oldest ≢ "" → expires_of h all (older_idle h all oldest k a) ≤ expires_of h all oldest)
        × (oldest ≢ "" → older_idle h all oldest k a ≢ "")
        × ((h a).refs ≡ 0 → older_idle h all oldest k a ≢ "")
  unfolding older_idle expires_of
  older_idle_le oldest k a n e = (
    λ r. ground (arith, eq_iff oldest ""),
    λ o. ground (arith, eq_iff oldest ""),
    λ o. ground (arith, eq_iff oldest ""),
    λ r. ground (arith, eq_iff oldest ""),
  )

  -- What holds of the start and of each idle entry holds of the result.
  oldest_idle_inv {ℓ} :
      (P : String → Type ℓ) (oldest : String) (m : Dict ℕ)
      → P oldest
      → Entries (λ k a. (h a).refs ≡ 0 → P k) m
      → P (oldest_idle h all oldest m)
  unfolding oldest_idle
  oldest_idle_inv P oldest [] p e = p
  oldest_idle_inv P oldest ((k, a) ∷ m) p e =
      oldest_idle_inv P (older_idle h all oldest k a) m
        (elim (older_idle_cases oldest k a) [ inl (r, q) ↦ rw q (e.0 r) | inr q ↦ rw q p ]) e.1

  -- The entry that is found is idle.
  pub oldest_idle-IsIdle :
      Distinct all → oldest_idle h all "" all ≢ "" → IsIdle (oldest_idle h all "" all)
  oldest_idle-IsIdle d found =
      elim (oldest_idle_inv (λ k. (k ≡ "") ⊎ IsIdle k) "" all (inl refl)
        (Entries-map (λ k a e r. inr (a, e, r)) all (Distinct-lookup all d))) [
          | inl e ↦ absurd (found e)
          | inr i ↦ i
        ]

  -- Neither the start nor an idle entry that the loop met expires before the result.
  pub oldest_idle_least :
      (oldest : String) (m : Dict ℕ)
      → Entries (λ k a. (k ≢ "") × (lookup k all ≡ some a)) m
      → (oldest ≢ "" → expires_of h all (oldest_idle h all oldest m) ≤ expires_of h all oldest)
        × Entries
            (λ k a. (h a).refs ≡ 0 → expires_of h all (oldest_idle h all oldest m) ≤ (h a).expires)
            m
  unfolding oldest_idle
  oldest_idle_least oldest [] e = (λ n. omega arith, tt)
  oldest_idle_least oldest ((k, a) ∷ m) e =
      let step = older_idle_le oldest k a e.0.0 e.0.1 in
      let rest = oldest_idle_least (older_idle h all oldest k a) m e.1 in
      (
        λ n. omega (arith, step.1 n, rest.0 (step.2 n)),
        ((λ r. omega (arith, step.0 r, rest.0 (step.3 r))), rest.1),
      )

  older_idle_none :
      (oldest k : String) (a : ℕ)
      → k ≢ ""
      → older_idle h all oldest k a ≡ ""
      → (oldest ≡ "") × ((h a).refs ≢ 0)
  unfolding older_idle
  older_idle_none oldest k a n e =
      (ground (arith, eq_iff oldest ""), λ r. ground (arith, eq_iff oldest ""))

  -- Where it finds none, every entry that it met is in use.
  pub oldest_idle_none :
      (oldest : String) (m : Dict ℕ)
      → Entries (λ k a. k ≢ "") m
      → oldest_idle h all oldest m ≡ ""
      → (oldest ≡ "") × Entries (λ k a. (h a).refs ≢ 0) m
  unfolding oldest_idle
  oldest_idle_none oldest [] n e = (e, tt)
  oldest_idle_none oldest ((k, a) ∷ m) n e =
      let rest = oldest_idle_none (older_idle h all oldest k a) m n.1 e in
      let step = older_idle_none oldest k a n.0 rest.0 in (step.0, (step.1, rest.1))
