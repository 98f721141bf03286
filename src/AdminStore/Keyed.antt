-- ===== src/AdminStore/Keyed.antt =====
-- The keys of the jobs of internal/adminapi/store.go over a whole run, from a store without a file.
use codex_account_pool.Prelude.{
  ℕ, String, Bool, ◌≡◌, refl, Option, none, some, List, [], ◌∷◌, lookup, Entries-lookup,
}
use codex_account_pool.AdminStore.{
  Job, StateStore, CheckRecord, Error, absent, login, logging_in, create_job, create_login_job,
  start_login, login_conflict, new_job, complete_check, complete_found, checked_store, record_check,
  with_check, set_login_challenge, begin_login_finalization, finish_login, cancel_job, fail_job,
  checked, challenged, finalization_begun, login_finished, job_canceled, job_failed, state_version,
  cancel_job, already_finalizing,
}
use codex_account_pool.AdminStore.Moves.{
  Operation, create_check, create_login, complete, record_one, challenge, begin_finalization,
  cancel, finish, fail, run, run_all,
}
use codex_account_pool.AdminStore.Finalization.{IsKeyed, finalization_excludes_cancel}
use codex_account_pool.AdminStore.Keys.{
  save-IsKeyed, put_job-IsKeyed, apply_edit-IsKeyed, edit_job-IsKeyed, with_check-IsKeyed,
  checked_store-IsKeyed, checked-SameId, challenged-SameId, finalization_begun-SameId,
  login_finished-SameId, job_canceled-SameId, job_failed-SameId,
}

complete_found-IsKeyed :
    (s : StateStore) (k : String) (r : CheckRecord) (t : ℕ) (w : Bool) (o : Option Job)
    → lookup k s.state.jobs ≡ o
    → IsKeyed s
    → IsKeyed (complete_found s k r t w o).2
unfolding complete_found
complete_found-IsKeyed s k r t w none e i = i
complete_found-IsKeyed s k r t w (some j) e i =
    apply_edit-IsKeyed (checked_store s r j) k j (checked r t j) w (checked_store-IsKeyed s r j i)
      (Entries-lookup (λ k j. j.id ≡ k) k j s.state.jobs i.named e) (checked-SameId t j r)

start_login-IsKeyed :
    (s : StateStore) (j : Job) (w : Bool) (o : Option Error)
    → IsKeyed s
    → IsKeyed (start_login s j w o).2
unfolding start_login
start_login-IsKeyed s j w (some e) i = i
start_login-IsKeyed s j w none i = put_job-IsKeyed s j.id j w (i.distinct, i.named) refl

run-IsKeyed :
    (s : StateStore) (o : Operation) (t : ℕ) (w : Bool) → IsKeyed s → IsKeyed (run s (o, t, w))
unfolding run
run-IsKeyed s (create_check p i n id) t w k =
    unfold create_job in put_job-IsKeyed s id _ w (k.distinct, k.named) (unfold new_job in refl)
run-IsKeyed s (create_login p i n id) t w k =
    unfold create_login_job in
    start_login-IsKeyed s (new_job id login logging_in p i n t) w (login_conflict p i s.state.jobs)
      k
run-IsKeyed s (complete id r) t w k =
    unfold complete_check in complete_found-IsKeyed s id r t w (lookup id s.state.jobs) refl k
run-IsKeyed s (record_one p i r) t w k =
    let c = with_check-IsKeyed s p i r k in
    unfold record_check in save-IsKeyed (with_check s p i r) w (c.distinct, c.named)
run-IsKeyed s (challenge id url code) t w k =
    unfold set_login_challenge in
    edit_job-IsKeyed s id (challenged url code t) w k (λ j. challenged-SameId t j url code)
run-IsKeyed s (begin_finalization id) t w k =
    unfold begin_login_finalization in
    edit_job-IsKeyed s id (finalization_begun t) w k (λ j. finalization_begun-SameId t j)
run-IsKeyed s (cancel id) t w k =
    unfold cancel_job in edit_job-IsKeyed s id (job_canceled t) w k (λ j. job_canceled-SameId t j)
run-IsKeyed s (finish id b code) t w k =
    unfold finish_login in
    edit_job-IsKeyed s id (login_finished b code t) w k (λ j. login_finished-SameId t j b code)
run-IsKeyed s (fail id code) t w k =
    unfold fail_job in
    edit_job-IsKeyed s id (job_failed code t) w k (λ j. job_failed-SameId t j code)

pub run_all-IsKeyed :
    (s : StateStore) (os : List (Operation × ℕ × Bool)) → IsKeyed s → IsKeyed (run_all s os)
unfolding run_all
run_all-IsKeyed s [] k = k
run_all-IsKeyed s ((o, t, w) ∷ os) k = run_all-IsKeyed (run s (o, t, w)) os (run-IsKeyed s o t w k)

abbrev pub empty_store : StateStore
empty_store = record {
  file = absent;
  state = record { version = state_version; jobs = []; checks = [] };
}

empty_store-IsKeyed : IsKeyed empty_store
empty_store-IsKeyed = record { distinct = tt; named = tt }

-- Of finalization and cancellation the first wins: after any operations on a store that was opened
-- without a file, when a finalization has begun, a cancellation is refused and changes nothing.
pub finalization_wins :
    (os : List (Operation × ℕ × Bool)) (k : String) (now later : ℕ) (w x : Bool)
    → (begin_login_finalization (run_all empty_store os) k now w).1 ≡ none
    → let t = (begin_login_finalization (run_all empty_store os) k now w).2 in
      ((cancel_job t k later x).1 ≡ some already_finalizing) × ((cancel_job t k later x).2 ≡ t)
finalization_wins os k now later w x h =
    finalization_excludes_cancel (run_all empty_store os) k now later w x
      (run_all-IsKeyed empty_store os empty_store-IsKeyed) h
