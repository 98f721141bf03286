-- ===== src/AdminStore/Edits.antt =====
-- The operations of internal/adminapi/store.go on one job, and the records of checks.
use Prim.Native.String.{◌++◌ as ◌<>◌}
use codex_account_pool.Prelude.{
  ◌==◌, ℕ, String, Bool, false, ◌&&◌, ◌||◌, Option, none, some, lookup, insert, if◌then◌else◌,
}
use codex_account_pool.AdminStore.State.{
  status_connected, Job, CheckRecord, StateStore, Error, is_login, is_terminal, is_logging_in,
  is_finalizing, is_canceled, is_succeeded, finalizing, succeeded, failed, canceled, not_found,
  not_active, already_finalizing,
}
use codex_account_pool.AdminStore.Saving.{save}
use codex_account_pool.AdminStore.Creation.{put_job, beside}

-- What an operation on a job does with it.
pub data Edit : Type 0 where
  refuse : Error → Edit
  leave : Edit
  write : Job → Edit

unfoldable pub apply_edit :
    StateStore → String → Job → Edit → Bool → Option Job × Option Error × StateStore
apply_edit s id j (refuse e) writable = (some j, some e, s)
apply_edit s id j leave writable = (some j, none, s)
apply_edit s id j (write j') writable = beside (some j') (put_job s id j' writable)

unfoldable pub edit_found :
    StateStore → String → (Job → Edit) → Bool → Option Job → Option Job × Option Error × StateStore
edit_found s id f writable none = (none, some not_found, s)
edit_found s id f writable (some j) = apply_edit s id j (f j) writable

unfoldable pub edit_job :
    StateStore → String → (Job → Edit) → Bool → Option Job × Option Error × StateStore
edit_job s id f writable = edit_found s id f writable (lookup id s.state.jobs)

unfoldable pub settle : Job → Bool → String → ℕ → Job
settle j success error_code now = record j {
  state = if success then succeeded else failed;
  error_code = if success then "" else error_code;
  updated_at = now;
}

unfoldable pub without_challenge : Job → Job
without_challenge j = record j { verification_url = ""; user_code = "" }

unfoldable pub checked : CheckRecord → ℕ → Job → Edit
checked r now j =
    if is_canceled j.state
    then leave
    else write (settle j (r.status == status_connected) r.error_code now)

unfoldable pub challenged : String → String → ℕ → Job → Edit
challenged url code now j =
    if is_login j.type && is_logging_in j.state
    then write (record j { verification_url = url; user_code = code; updated_at = now })
    else refuse not_active

unfoldable pub finalization_begun : ℕ → Job → Edit
finalization_begun now j =
    if is_login j.type && is_logging_in j.state
    then write (record (without_challenge j) { state = finalizing; updated_at = now })
    else refuse not_active

unfoldable pub login_finished : Bool → String → ℕ → Job → Edit
login_finished success error_code now j =
    if is_login j.type && is_finalizing j.state
    then write (settle (without_challenge j) success error_code now)
    else refuse not_active

unfoldable pub job_canceled : ℕ → Job → Edit
job_canceled now j =
    if is_terminal j.state
    then leave
    else if is_finalizing j.state
    then refuse already_finalizing
    else write (record (without_challenge j) {
      state = canceled;
      error_code = "canceled";
      updated_at = now;
    })

unfoldable pub job_failed : String → ℕ → Job → Edit
job_failed error_code now j =
    if is_succeeded j.state || is_canceled j.state
    then leave
    else write (settle (without_challenge j) false error_code now)

unfoldable pub profile_key : String → String → String
profile_key provider profile_id = (provider <> "/") <> profile_id

unfoldable pub with_check : StateStore → String → String → CheckRecord → StateStore
with_check s provider profile_id r = record s {
  state = record s.state { checks = insert (profile_key provider profile_id) r s.state.checks };
}

unfoldable pub checked_store : StateStore → CheckRecord → Job → StateStore
checked_store s r j = if is_canceled j.state then s else with_check s j.provider j.profile_id r

unfoldable pub complete_found :
    StateStore
    → String
    → CheckRecord
    → ℕ
    → Bool
    → Option Job
    → Option Job × Option Error × StateStore
complete_found s id r now writable none = (none, some not_found, s)
complete_found s id r now writable (some j) =
    apply_edit (checked_store s r j) id j (checked r now j) writable

-- A written check is recorded together with its job, before the save.
unfoldable pub complete_check :
    StateStore → String → CheckRecord → ℕ → Bool → Option Job × Option Error × StateStore
complete_check s id r now writable = complete_found s id r now writable (lookup id s.state.jobs)

unfoldable pub record_check :
    StateStore → String → String → CheckRecord → Bool → Option Error × StateStore
record_check s provider profile_id r writable = save (with_check s provider profile_id r) writable

unfoldable pub check_of : StateStore → String → String → Option CheckRecord
check_of s provider profile_id = lookup (profile_key provider profile_id) s.state.checks

unfoldable pub set_login_challenge :
    StateStore → String → String → String → ℕ → Bool → Option Job × Option Error × StateStore
set_login_challenge s id url code now writable = edit_job s id (challenged url code now) writable

unfoldable pub begin_login_finalization :
    StateStore → String → ℕ → Bool → Option Job × Option Error × StateStore
begin_login_finalization s id now writable = edit_job s id (finalization_begun now) writable

unfoldable pub finish_login :
    StateStore → String → Bool → String → ℕ → Bool → Option Job × Option Error × StateStore
finish_login s id success error_code now writable =
    edit_job s id (login_finished success error_code now) writable

unfoldable pub cancel_job : StateStore → String → ℕ → Bool → Option Job × Option Error × StateStore
cancel_job s id now writable = edit_job s id (job_canceled now) writable

unfoldable pub fail_job :
    StateStore → String → String → ℕ → Bool → Option Job × Option Error × StateStore
fail_job s id error_code now writable = edit_job s id (job_failed error_code now) writable
