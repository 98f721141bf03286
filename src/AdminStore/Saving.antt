-- ===== src/AdminStore/Saving.antt =====
-- pruneJobsLocked and saveLocked of internal/adminapi/store.go.
use codex_account_pool.Prelude.{
  ℕ, zero, suc, ◌-◌, Bool, Option, none, some, List, [], ◌∷◌, Dict, erase, length, ltb, eqb,
  if◌then◌else◌,
}
use codex_account_pool.AdminStore.State.{
  Job, StateStore, Error, max_retained_terminal_jobs, is_terminal, decoded, not_saved,
}

unfoldable pub terminal_jobs : Dict Job → List Job
terminal_jobs [] = []
terminal_jobs ((k, j) ∷ m) =
    let rest = terminal_jobs m in if is_terminal j.state then j ∷ rest else rest

unfoldable pub older : Job → Job → Bool
older a b =
    if eqb a.updated_at b.updated_at
    then ltb a.created_at b.created_at
    else ltb a.updated_at b.updated_at

unfoldable pub insert_older : Job → List Job → List Job
insert_older j [] = j ∷ []
insert_older j (k ∷ ks) = if older k j then k ∷ insert_older j ks else j ∷ k ∷ ks

-- sort.Slice by age; the order of jobs of the same age is left open by the code.
unfoldable pub by_age : List Job → List Job
by_age [] = []
by_age (j ∷ js) = insert_older j (by_age js)

-- for _, job := range terminal[:n] { delete(s.state.Jobs, job.ID) }
unfoldable pub delete_first : ℕ → List Job → Dict Job → Dict Job
delete_first zero js m = m
delete_first (suc n) [] m = m
delete_first (suc n) (j ∷ js) m = delete_first n js (erase j.id m)

-- With no more jobs than are retained the difference is 0 and nothing is deleted.
unfoldable pub prune_jobs : Dict Job → Dict Job
prune_jobs m =
    let terminal = terminal_jobs m in
    delete_first (length terminal - max_retained_terminal_jobs) (by_age terminal) m

-- saveLocked: the file is replaced whole, or it stays; the pruning stays in either case.
unfoldable pub save : StateStore → Bool → Option Error × StateStore
save s writable =
    let kept = record s.state { jobs = prune_jobs s.state.jobs } in
    if writable
    then (none, record { file = decoded kept; state = kept })
    else (some not_saved, record s { state = kept })
