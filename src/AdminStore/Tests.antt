-- ===== src/AdminStore/Tests.antt =====
-- Runs of internal/adminapi/store.go on small inputs.
use codex_account_pool.Prelude.{
  insert, ℕ, Bool, true, false, ◌≡◌, refl, ◌⊎◌, ◌≤◌, none, some, List, [], ◌∷◌, All, ok, Dict,
  lookup, Distinct, Entries,
}
use codex_account_pool.AdminStore.{
  terminal_jobs, by_age, delete_first, with_jobs, create_login_job, start_login, login_conflict,
  Job, StateStore, File, decoded, already_finalizing, login, logging_in, canceled, new_job,
  is_terminal, prune_jobs, is_logging_in, is_login, open_state_store, load_state, opened,
  begin_login_finalization, cancel_job, edit_job, edit_found, apply_edit, finalization_begun,
  put_job, save, any_interrupted, is_interrupted, recover_jobs,
}
use codex_account_pool.AdminStore.Pruning.{prune_keeps_unfinished}
use codex_account_pool.AdminStore.Logins.{active_logins}
use codex_account_pool.AdminStore.Moves.{run, Operation, create_login, begin_finalization, run_all}
use codex_account_pool.AdminStore.Restart.{one_login}
use codex_account_pool.AdminStore.Canceled.{creates, canceled_is_final}
use codex_account_pool.AdminStore.Keyed.{empty_store, finalization_wins}

-- A login that was under way when its process stopped.
abbrev pending : Job
pending = new_job "j_1" login logging_in "codex" "work" false 5

abbrev jobs : Dict Job
jobs = ("j_1", pending) ∷ []

abbrev file : File
file = decoded (record { version = 1; jobs = jobs; checks = [] })

abbrev store : StateStore
store = record { file = file; state = record { version = 1; jobs = jobs; checks = [] } }

abbrev restarted : StateStore
restarted =
    (save
      (record {
        file = file;
        state = record { version = 1; jobs = recover_jobs 9 jobs; checks = [] };
      })
      true).1

abbrev operations : List (Operation × ℕ × Bool)
operations =
    (create_login "codex" "work" false "j_2", 10, true)
    ∷ (begin_finalization "j_2", 11, true)
    ∷ (create_login "codex" "home" false "j_3", 12, false)
    ∷ []

file_opens : open_state_store file 9 true ≡ ok restarted
unfolding open_state_store load_state any_interrupted is_interrupted new_job opened save
file_opens = refl

one_login_example :
    (active_logins restarted.state.jobs ≡ 0)
    × (active_logins (run_all restarted operations).state.jobs ≤ 1)
one_login_example = one_login file 9 true restarted operations file_opens

pending_found : lookup "j_1" jobs ≡ some pending
unfolding lookup
pending_found = refl

pending_unfinished : is_terminal pending.state ≡ false
unfolding is_terminal new_job
pending_unfinished = refl

jobs-Distinct : Distinct jobs
unfolding lookup
jobs-Distinct = (refl, tt)

jobs_named : Entries (λ k (j : Job). j.id ≡ k) jobs
unfolding new_job
jobs_named = (refl, tt)

prune_keeps_unfinished_example : lookup "j_1" (prune_jobs jobs) ≡ some pending
prune_keeps_unfinished_example =
    prune_keeps_unfinished jobs "j_1" pending jobs-Distinct jobs_named pending_found
      pending_unfinished

abbrev stopped : Job
stopped = record pending { state = canceled }

abbrev stopped_store : StateStore
stopped_store = record {
  file = file;
  state = record { version = 1; jobs = ("j_1", stopped) ∷ []; checks = [] };
}

stopped_found : lookup "j_1" stopped_store.state.jobs ≡ some stopped
unfolding lookup
stopped_found = refl

no_reuse : All (λ (o : Operation × ℕ × Bool). creates "j_1" o.0 ≡ false) operations
unfolding creates
no_reuse = (refl, (refl, (refl, tt)))

canceled_is_final_example :
    (lookup "j_1" (run_all stopped_store operations).state.jobs ≡ some stopped)
    ⊎ (lookup "j_1" (run_all stopped_store operations).state.jobs ≡ none)
canceled_is_final_example =
    canceled_is_final stopped_store "j_1" stopped operations stopped_found refl no_reuse

abbrev started : StateStore
started = run_all empty_store ((create_login "codex" "work" false "j_2", 6, true) ∷ [])

started_begins : (begin_login_finalization started "j_2" 7 true).1 ≡ none
unfolding begin_login_finalization edit_job edit_found finalization_begun is_login is_logging_in
    new_job apply_edit put_job save lookup run_all run create_login_job start_login login_conflict
    with_jobs insert prune_jobs terminal_jobs is_terminal by_age delete_first
started_begins = refl

abbrev finalizing_store : StateStore
finalizing_store = (begin_login_finalization started "j_2" 7 true).2

finalization_wins_example :
    ((cancel_job finalizing_store "j_2" 8 true).1 ≡ some already_finalizing)
    × ((cancel_job finalizing_store "j_2" 8 true).2 ≡ finalizing_store)
finalization_wins_example =
    finalization_wins ((create_login "codex" "work" false "j_2", 6, true) ∷ []) "j_2" 7 8 true true
      started_begins
