-- ===== src/Antigravity/Accounts/Leases.antt =====
-- acquireAccount of internal/antigravity/accounts.go: what becomes of the lease on every path, and the
-- account that it gives.
use codex_account_pool.Prelude.{ℕ, String, true, ◌≡◌, ◌≢◌, Result, ok, err, contains}
use codex_account_pool.AccountPool.{Error, Pool, Lease, release}
use codex_account_pool.Antigravity.Accounts.{
  Credentials, Refusal, CredentialProvider, AccountLease, credentials,
}

-- Two pools agree on who holds an entry and who waits for it, and on which entries there are.
pub record SameHolds (p q : Pool) : Type 0 where
  pub refs : (a : ℕ) → (q.heap a).refs ≡ (p.heap a).refs
  pub gate : (a : ℕ) → (q.heap a).gate ≡ (p.heap a).gate
  pub entries : q.entries ≡ p.entries

-- The pool after the lease of an entry has been given back.
abbrev pub IsReleased : ℕ → ℕ → Pool → Pool → Type 0
IsReleased entry now p q =
    (r : Pool) × (l : Lease) × ((l.entry ≡ entry) × (SameHolds p r × (q ≡ release r l now)))

-- What Select promises of its result.
abbrev pub IsChoice : AccountLease → Pool → Result Error String → Type 0
IsChoice l q (err e) = Unit
IsChoice l q (ok id) =
    (id ≢ "") × ((contains l.ids id ≡ true) × ((q.heap l.policy.entry).profile ≡ id))

module _ {S : Type 0} (provider : CredentialProvider S) (now : ℕ) where
  -- The lease is held for a listed account whose credentials the broker gave.
  pub record Held (a : ℕ) (p : Pool) (l : AccountLease) (k : Credentials) (q : Pool) : Type 0 where
    pub entry : l.policy.entry ≡ a
    pub holds : SameHolds p q
    pub named : (q.heap a).profile ≢ ""
    pub listed : contains l.ids (q.heap a).profile ≡ true
    pub given : (s : S) × ((credentials provider l.fallback (q.heap a).profile s).0 ≡ ok k)

  -- A lease of an entry either is given back or is held.
  abbrev pub IsSettled : ℕ → Pool → Result Refusal (AccountLease × Credentials) → Pool → Type 0
  IsSettled entry p (err e) q = IsReleased entry now p q
  IsSettled entry p (ok r) q = Held entry p r.0 r.1 q
