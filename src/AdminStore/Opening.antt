-- ===== src/AdminStore/Opening.antt =====
-- OpenStateStore and load of internal/adminapi/store.go.
use codex_account_pool.Prelude.{
  ℕ, Bool, true, false, not, ◌||◌, Option, none, some, [], ◌∷◌, Result, ok, err, Dict, eqb,
  if◌then◌else◌,
}
use codex_account_pool.AdminStore.State.{
  Job, PersistedState, File, StateStore, Error, state_version, is_login, queued, checking,
  logging_in, finalizing, failed, absent, unreadable, malformed, decoded, read_failed, undecodable,
  bad_version,
}
use codex_account_pool.AdminStore.Saving.{save}

unfoldable pub is_interrupted : Job → Bool
is_interrupted j = elim j.state [
  | checking ↦ true
  | logging_in ↦ true
  | finalizing ↦ true
  | queued ↦ is_login j.type
  | _ ↦ false
]

unfoldable pub fail_interrupted : ℕ → Job → Job
fail_interrupted now j = record j {
  state = failed;
  error_code = "service_restarted";
  verification_url = "";
  user_code = "";
  updated_at = now;
}

unfoldable pub recover_jobs : ℕ → Dict Job → Dict Job
recover_jobs now [] = []
recover_jobs now ((k, j) ∷ m) =
    (k, if is_interrupted j then fail_interrupted now j else j) ∷ recover_jobs now m

unfoldable pub any_interrupted : Dict Job → Bool
any_interrupted [] = false
any_interrupted ((k, j) ∷ m) = is_interrupted j || any_interrupted m

unfoldable pub opened : Option Error × StateStore → Result Error StateStore
opened (none, s) = ok s
opened (some e, s) = err e

unfoldable pub load_state : File → PersistedState → ℕ → Bool → Result Error StateStore
load_state file p now writable =
    let p' = record p { jobs = recover_jobs now p.jobs } in
    if not (eqb p.version state_version)
    then err bad_version
    else if any_interrupted p.jobs
    then opened (save (record { file = file; state = p' }) writable)
    else ok (record { file = file; state = p })

unfoldable pub open_state_store : File → ℕ → Bool → Result Error StateStore
open_state_store absent now writable =
    ok
      (record { file = absent; state = record { version = state_version; jobs = []; checks = [] } })
open_state_store unreadable now writable = err read_failed
open_state_store malformed now writable = err undecodable
open_state_store (decoded p) now writable = load_state (decoded p) p now writable
