-- ===== src/AdminStore/Queries.antt =====
-- ActiveJob, RecentJob and ActiveJobs of internal/adminapi/store.go.
use codex_account_pool.Prelude.{
  lookup, String, Bool, true, false, ◌&&◌, ◌||◌, Option, none, some, List, [], ◌∷◌, Dict, map, ltb,
  if◌then◌else◌, ◌==◌,
}
use codex_account_pool.AdminStore.State.{
  JobType, Job, StateStore, is_active, public, check, login, other_type,
}

unfoldable pub job_of : StateStore → String → Option Job
job_of s id = lookup id s.state.jobs

-- The newest of the jobs that pass a test: ActiveJob and RecentJob.
unfoldable pub newer : Option Job → Job → Option Job
newer none j = some j
newer (some f) j = if (f.id == "") || ltb f.created_at j.created_at then some j else some f

unfoldable pub newest : (Job → Bool) → Option Job → Dict Job → Option Job
newest p found [] = found
newest p found ((k, j) ∷ m) = newest p (if p j then newer found j else found) m

unfoldable pub is_job_of : String → String → Job → Bool
is_job_of provider profile_id j = (j.provider == provider) && (j.profile_id == profile_id)

-- return found, found.ID != ""
unfoldable pub if_named : Option Job → Option Job
if_named none = none
if_named (some j) = if j.id == "" then none else some j

unfoldable pub active_job : StateStore → String → String → Option Job
active_job s provider profile_id =
    if_named (newest (λ j. is_job_of provider profile_id j && is_active j.state) none s.state.jobs)

unfoldable pub same_type : JobType → JobType → Bool
same_type check check = true
same_type login login = true
same_type (other_type a) (other_type b) = a == b
same_type _ _ = false

unfoldable pub recent_job : StateStore → JobType → String → String → Option Job
recent_job s kind provider profile_id =
    if_named
      (newest (λ j. same_type j.type kind && is_job_of provider profile_id j) none s.state.jobs)

unfoldable pub all_active : Dict Job → List Job
all_active [] = []
all_active ((k, j) ∷ m) = let rest = all_active m in if is_active j.state then j ∷ rest else rest

unfoldable pub insert_created : Job → List Job → List Job
insert_created j [] = j ∷ []
insert_created j (k ∷ ks) =
    if ltb k.created_at j.created_at then k ∷ insert_created j ks else j ∷ k ∷ ks

unfoldable pub by_creation : List Job → List Job
by_creation [] = []
by_creation (j ∷ js) = insert_created j (by_creation js)

unfoldable pub active_jobs : StateStore → List Job
active_jobs s = map public (by_creation (all_active s.state.jobs))
