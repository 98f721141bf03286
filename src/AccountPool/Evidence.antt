-- ===== src/AccountPool/Evidence.antt =====
-- ObserveQuota of internal/accountpool/pool.go.
use codex_account_pool.Prelude.{
  ℕ, ◌+◌, ◌*◌, String, Bool, true, false, not, ◌&&◌, ◌||◌, Option, none, some, [], ◌∷◌, Dict,
  lookup, insert, erase, retain, length, ltb, leb, if◌then◌else◌, ◌==◌,
}
use codex_account_pool.AccountPool.State.{
  Quota, QuotaObservation, Pool, Lease, minute, unknown, usable, exhausted,
}
use codex_account_pool.AccountPool.Choice.{quota_key}

unfoldable pub oldest_quota : Dict QuotaObservation → String → Dict QuotaObservation → String
oldest_quota all oldest [] = oldest
oldest_quota all oldest ((k, q) ∷ m) =
    let before : Bool = elim (lookup oldest all) [
      | none ↦ false
      | some o ↦ ltb q.expires o.expires
    ] in
    oldest_quota all (if (oldest == "") || before then k else oldest) m

unfoldable pub is_none {ℓ} : {A : Type ℓ} → Option A → Bool
is_none none = true
is_none (some a) = false

-- The observations that have not expired.
unfoldable pub live_quota : Pool → ℕ → Dict QuotaObservation
live_quota p now = retain (λ k (q : QuotaObservation). not (leb q.expires now)) p.quota

unfoldable pub is_full : Pool → String → Dict QuotaObservation → Bool
is_full p key live = is_none (lookup key live) && leb (p.max * 4) (length live)

-- The table when an observation under `key` is about to be stored.
unfoldable pub make_room : Pool → String → ℕ → Dict QuotaObservation
make_room p key now =
    let live = live_quota p now in
    if is_full p key live then erase (oldest_quota live "" live) live else live

unfoldable pub store_quota : Pool → Lease → String → Quota → ℕ → Pool
store_quota p l profile state now = record p {
  quota =
      insert (quota_key l profile) (record { state = state; expires = now + minute })
        (make_room p (quota_key l profile) now);
}

unfoldable pub observe_quota : Pool → Lease → String → Quota → ℕ → Pool
observe_quota p l profile unknown now = p
observe_quota p l profile usable now = store_quota p l profile usable now
observe_quota p l profile exhausted now = store_quota p l profile exhausted now
