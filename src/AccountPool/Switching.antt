-- ===== src/AccountPool/Switching.antt =====
-- CanProbeFailover, Alternate and ObserveSuccess of internal/accountpool/pool.go.
use codex_account_pool.Prelude.{
  String, Bool, true, not, ◌&&◌, ◌||◌, List, [], ◌∷◌, if◌then◌else◌, ◌==◌,
}
use codex_account_pool.AccountPool.State.{Quota, Pool, Lease}
use codex_account_pool.AccountPool.Acquisition.{set_profile}
use codex_account_pool.AccountPool.Choice.{is_usable, is_exhausted}

unfoldable pub can_probe_failover : Lease → Bool
can_probe_failover l = not l.explicit && not l.attempted

-- The probe asks the provider for an account's quota and may change the caller's state `S`.
unfoldable pub first_alternate {ℓ} :
    {S : Type ℓ} → String → (String → S → Quota × S) → List String → S → String × S
first_alternate bound probe [] s = ("", s)
first_alternate bound probe (id ∷ ids) s =
    let skip = first_alternate bound probe ids s in
    let asked = probe id s in
    let next = first_alternate bound probe ids asked.1 in
    if id == bound then skip else if is_usable asked.0 then (id, asked.1) else next

unfoldable pub alternate {ℓ} :
    {S : Type ℓ}
    → String
    → Lease
    → Quota
    → List String
    → Bool
    → (String → S → Quota × S)
    → S
    → String × Lease × S
alternate bound l current candidates history probe s =
    if l.explicit || (l.attempted || (history || not (is_exhausted current)))
    then ("", l, s)
    else let (id, s') = first_alternate bound probe candidates s in
      (id, record l { attempted = true }, s')

unfoldable pub observe_success : Pool → Lease → String → Pool
observe_success p l profile = set_profile p l.entry profile
