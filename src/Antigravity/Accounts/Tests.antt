-- ===== src/Antigravity/Accounts/Tests.antt =====
-- Runs of internal/antigravity/accounts.go with two accounts.
use codex_account_pool.Prelude.{
  ℕ, String, true, false, ◌≡◌, refl, ◌⊎◌, inl, some, [], ◌∷◌, Result, ok, lookup, insert, retain,
  if◌then◌else◌, ◌==◌,
}
use codex_account_pool.AccountPool.{
  Pool, Lease, Quota, usable, exhausted, new, acquire, can_probe_failover, begin, prune, admit,
  after_begin, wait_gate, allocate, session_key, new_lease, enter_gate,
}
use codex_account_pool.AccountPool.Tests.{granted}
use codex_account_pool.Antigravity.Replay.{
  ReplayCache, session_profile, session_key as replay_session_key, session_profile_of, is_live,
}
use codex_account_pool.Antigravity.Replay.Tests.{empty_cache}
use codex_account_pool.Antigravity.Accounts.{
  Credentials, no_credentials, Refusal, CredentialProvider, of_accounts, AccountLease, Client,
  Request, Times, acquire_account, failover,
}
use codex_account_pool.Antigravity.Accounts.Affinity.{IsBound, acquire_account-IsBound}
use codex_account_pool.Antigravity.Accounts.Failover.{IsAlternate, failover_lem}

-- The world is the number of questions.
abbrev keys : String → Credentials
keys id = record { profile_id = id; access_token = "t"; project_id = "p" }

abbrev two_accounts : CredentialProvider ℕ
two_accounts = of_accounts (λ n. (ok ("work", "home" ∷ "work" ∷ []), n)) (λ id n. (ok (keys id), n))

abbrev request : Request
request = record { session = "-7"; model = "gemini"; selector = ""; history = true }

abbrev times : Times
times = record { acquired = 10; restored = 11; selected = 12; released = 13 }

abbrev pool : Pool
pool = new 2 100

-- The session is bound to "home".
abbrev cache : ReplayCache
cache = record empty_cache {
  sessions =
      (
        replay_session_key "gemini" "-7",
        record {
          profile = "home";
          model = "gemini";
          session = "-7";
          times = record { created = 0; expires = 60; used = 0 };
        },
      )
      ∷ [];
}

abbrev client : Client ℕ
client = record { pool = pool; replay = cache; broker = 0 }

abbrev first : Lease × Pool
first = granted (acquire pool "google-antigravity" "-7" false 10)

acquired : acquire pool "google-antigravity" "-7" false 10 ≡ some (ok first.0, first.1)
unfolding acquire begin prune retain lookup admit after_begin wait_gate allocate insert session_key
    new_lease new enter_gate
acquired = refl

abbrev Outcome : (Result Refusal (AccountLease × Credentials) → Client ℕ → Type 0) → Type 0
Outcome P =
    (o : Result Refusal (AccountLease × Credentials)) × (d : Client ℕ) × ((acquire_account
          two_accounts request times client false
        ≡ some (o, d))
      × P o d)

acquire_account-IsBound_example : Outcome (λ o d. IsBound "home" first.0.entry o d.pool)
unfolding session_profile session_profile_of lookup replay_session_key is_live
acquire_account-IsBound_example =
    acquire_account-IsBound two_accounts request times client false first.0 first.1 "home" acquired
      refl (λ e. cc) (inl refl)

-- "home" has no quota left.
abbrev probe : Credentials → String → ℕ → Quota × ℕ
probe k model n = (if k.profile_id == "home" then exhausted else usable, n)

abbrev lease : AccountLease
lease = record { policy = first.0; ids = "home" ∷ "work" ∷ []; fallback = []; history = false }

failover_lem_example :
    let result =
      failover two_accounts probe (λ n. false) (λ n. 20) "gemini" lease (keys "home") first.1 0 in
    let (k, given, l', q, s') = result in
    (((lease.history ≡ true) ⊎ (lease.policy.explicit ≡ true) ⊎ (lease.policy.attempted ≡ true))
      × (result ≡ (no_credentials, false, lease, first.1, 0)))
    ⊎ ((q.heap ≡ first.1.heap)
        × ((given ≡ false)
            ⊎ (((probe (keys "home") "gemini" 0).0 ≡ exhausted)
                × ((can_probe_failover l'.policy ≡ false)
                    × IsAlternate two_accounts probe
                        (λ n. false)
                        (λ n. 20)
                        "gemini"
                        lease
                        (first.1.heap lease.policy.entry).profile
                        k))))
failover_lem_example =
    failover_lem two_accounts probe (λ n. false) (λ n. 20) "gemini" lease (keys "home") first.1 0
