-- ===== src/AccountPool/Refusal.antt =====
-- When Acquire of internal/accountpool/pool.go refuses a request, and which entry it evicts.
use codex_account_pool.Prelude.{
  ℕ, ◌≤◌, String, ◌≡◌, ◌≢◌, ◌↔◌, ◌⊎◌, ap, ◌∙◌, inl, inr, none, some, arith, Dict, lookup, erase,
  length, Entries, Entries-lookup, Entries-both, Distinct, Distinct-lookup, ok, err, Option-cases,
}
use codex_account_pool.AccountPool.{
  capacity, prune, oldest_idle, expires_of, session_key, begin, allocate,
}
use codex_account_pool.AccountPool.Oldest.{
  IsIdle, oldest_idle-IsIdle, oldest_idle_least, oldest_idle_none,
}
use codex_account_pool.AccountPool.Begin.{admit_cases, begin-some, begin-none, prune-Keeps}
use codex_account_pool.AccountPool.Protocol.{System, Reach}
use codex_account_pool.AccountPool.Invariant.{Reach-Inv}
use codex_account_pool.AccountPool.Capacity.{prune-IsBounded, Reach-IsBounded}

module _ {max ttl : ℕ} {s : System} (r : Reach max ttl s) (provider session : String)
    (now : ℕ) where
  abbrev left : Dict ℕ
  left = (prune s.pool now).entries

  abbrev request : String
  request = session_key provider session

  left-Distinct : Distinct left
  left-Distinct = (prune-Keeps s.pool (Reach-Inv r).distinct now).distinct

  named_left : Entries (λ k a. k ≢ "") left
  named_left = (prune-IsBounded (ground arith) (Reach-IsBounded r) now).named

  -- Acquire refuses a request exactly when its session has no live entry, the map without the
  -- expired idle entries is full, and every entry of it is in use; the error is `capacity`.
  pub begin_refuses : ((begin s.pool (session_key provider session) now).0 ≡ err capacity) ↔ (
      (lookup (session_key provider session) left ≡ none)
      × (s.pool.max ≤ length left)
      × Entries (λ k a. (s.pool.heap a).refs ≢ 0) left)
  unfolding prune
  begin_refuses = (refused (Option-cases (lookup request left)), refuses)
    where
      used :
          oldest_idle s.pool.heap left "" left ≡ "" → Entries (λ k a. (s.pool.heap a).refs ≢ 0) left
      used e = (oldest_idle_none s.pool.heap left "" left named_left e).1

      refused :
          (lookup request left ≡ none) ⊎ ((a : ℕ) × (lookup request left ≡ some a))
          → (begin s.pool request now).0 ≡ err capacity
          → (lookup request left ≡ none)
            × (s.pool.max ≤ length left)
            × Entries (λ k a. (s.pool.heap a).refs ≢ 0) left
      refused (inr (a, f)) e = cc (ap (λ x. x.0) (begin-some s.pool request now a f))
      refused (inl f) e = elim (admit_cases (prune s.pool now) request) [
        | inl c ↦ cc (ap (λ x. x.0) (begin-none s.pool request now f ∙ c.1))
        | inr (inl c) ↦ cc (ap (λ x. x.0) (begin-none s.pool request now f ∙ c.2))
        | inr (inr c) ↦ (f, c.0, used c.1)
      ]

      refuses :
          (lookup request left ≡ none)
            × (s.pool.max ≤ length left)
            × Entries (λ k a. (s.pool.heap a).refs ≢ 0) left
          → (begin s.pool request now).0 ≡ err capacity
      refuses h = elim (admit_cases (prune s.pool now) request) [
        | inl c ↦ absurd (omega (arith, h.1))
        | inr (inl c) ↦
            let idle = oldest_idle-IsIdle s.pool.heap left left-Distinct c.1 in
            absurd
              (Entries-lookup (λ k a. (s.pool.heap a).refs ≢ 0) _ idle.0 left h.2 idle.1 idle.2)
        | inr (inr c) ↦ ap (λ x. x.0) (begin-none s.pool request now h.0 ∙ c.2)
      ]

  -- When the map is full and some entry is idle, the one that is dropped is idle and no idle entry
  -- expires before it; the entries of the other sessions stay.
  pub begin_evicts :
      lookup (session_key provider session) left ≡ none
      → s.pool.max ≤ length left
      → ¬ Entries (λ k a. (s.pool.heap a).refs ≢ 0) left
      → (oldest : String) × IsIdle s.pool.heap left oldest
        × Entries
            (λ k a.
              (s.pool.heap a).refs ≡ 0
              → expires_of s.pool.heap left oldest ≤ (s.pool.heap a).expires)
            left
        × (begin s.pool (session_key provider session) now ≡ (
          ok s.pool.next,
          allocate (record s.pool { entries = erase oldest left }) (session_key provider session),
        ))
  unfolding prune
  begin_evicts f full idle = elim (admit_cases (prune s.pool now) request) [
    | inl c ↦ absurd (omega arith)
    | inr (inl c) ↦ (
      oldest_idle s.pool.heap left "" left,
      oldest_idle-IsIdle s.pool.heap left left-Distinct c.1,
      (oldest_idle_least s.pool.heap left "" left
          (Entries-both _ _ left named_left (Distinct-lookup left left-Distinct))).1,
      begin-none s.pool request now f ∙ c.2,
    )
    | inr (inr c) ↦ absurd (idle (oldest_idle_none s.pool.heap left "" left named_left c.1).1)
  ]
