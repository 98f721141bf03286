-- ===== src/AdminStore/Creation.antt =====
-- CreateJob and CreateLoginJob of internal/adminapi/store.go.
use codex_account_pool.Prelude.{
  ℕ, String, Bool, not, ◌&&◌, Option, none, some, [], ◌∷◌, Dict, insert, if◌then◌else◌, ◌==◌,
}
use codex_account_pool.AdminStore.State.{
  JobType, JobState, Job, StateStore, Error, is_login, is_check, is_active, login, checking,
  logging_in, profile_busy, login_busy,
}
use codex_account_pool.AdminStore.Saving.{save}

unfoldable pub with_jobs : StateStore → Dict Job → StateStore
with_jobs s m = record s { state = record s.state { jobs = m } }

unfoldable pub put_job : StateStore → String → Job → Bool → Option Error × StateStore
put_job s id j writable = save (with_jobs s (insert id j s.state.jobs)) writable

unfoldable pub new_job : String → JobType → JobState → String → String → Bool → ℕ → Job
new_job id type state provider profile_id new_profile now = record {
  id = id;
  type = type;
  provider = provider;
  profile_id = profile_id;
  new_profile = new_profile;
  state = state;
  error_code = "";
  verification_url = "";
  user_code = "";
  created_at = now;
  updated_at = now;
}

-- return job, s.saveLocked()
abbrev pub beside {ℓ} : {A : Type ℓ} → A → Option Error × StateStore → A × Option Error × StateStore
beside a r = (a, r.0, r.1)

unfoldable pub create_job :
    StateStore
    → JobType
    → String
    → String
    → Bool
    → String
    → ℕ
    → Bool
    → Job × Option Error × StateStore
create_job s kind provider profile_id new_profile id now writable =
    let state = if is_check kind then checking else logging_in in
    let j = new_job id kind state provider profile_id new_profile now in
    beside j (put_job s id j writable)

-- Why a login cannot start, if a job that is active forbids it.
unfoldable pub login_conflict : String → String → Dict Job → Option Error
login_conflict provider profile_id [] = none
login_conflict provider profile_id ((k, j) ∷ m) =
    let rest = login_conflict provider profile_id m in
    if not (is_active j.state)
    then rest
    else if (j.provider == provider) && (j.profile_id == profile_id)
    then some (profile_busy j.id)
    else if is_login j.type
    then some (login_busy j.id)
    else rest

unfoldable pub start_login :
    StateStore → Job → Bool → Option Error → Option Job × Option Error × StateStore
start_login s j writable (some e) = (none, some e, s)
start_login s j writable none = beside (some j) (put_job s j.id j writable)

unfoldable pub create_login_job :
    StateStore → String → String → Bool → String → ℕ → Bool → Option Job × Option Error × StateStore
create_login_job s provider profile_id new_profile id now writable =
    start_login s (new_job id login logging_in provider profile_id new_profile now) writable
      (login_conflict provider profile_id s.state.jobs)
