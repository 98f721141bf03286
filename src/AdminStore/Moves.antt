-- ===== src/AdminStore/Moves.antt =====
-- The operations of internal/adminapi/store.go as moves of one machine, and what they do with a
-- finished job and with the logins.
use codex_account_pool.Prelude.{
  ℕ, ◌≤◌, String, Bool, ◌≡◌, refl, Option, none, some, List, [], ◌∷◌, arith, Dict, lookup, insert,
  subst,
}
use codex_account_pool.AdminStore.{
  Job, StateStore, CheckRecord, Error, check, login, checking, logging_in, is_active, is_login,
  is_check, is_logging_in, is_canceled, create_job, create_login_job, start_login, login_conflict,
  new_job, put_job, with_jobs, with_check, complete_check, complete_found, checked_store,
  record_check, set_login_challenge, begin_login_finalization, finish_login, cancel_job, fail_job,
  apply_edit, checked, challenged, finalization_begun, login_finished, job_canceled, job_failed,
  settle, without_challenge,
}
use codex_account_pool.AdminStore.Logins.{
  active_logins, is_active_login, IsCalm, active_logins-insert, active_logins-save, no_conflict,
  edit_job-active_logins, apply_edit-active_logins,
}

-- What the service calls: checks are the only jobs that it creates without the login's guard.
pub data Operation : Type 0 where
  create_check : String → String → Bool → String → Operation
  create_login : String → String → Bool → String → Operation
  complete : String → CheckRecord → Operation
  record_one : String → String → CheckRecord → Operation
  challenge : String → String → String → Operation
  begin_finalization cancel : String → Operation
  finish : String → Bool → String → Operation
  fail : String → String → Operation

-- Each operation with its time and with whether the file can be written.
unfoldable pub run : StateStore → Operation × ℕ × Bool → StateStore
run s (create_check p i n id, t, w) = (create_job s check p i n id t w).2
run s (create_login p i n id, t, w) = (create_login_job s p i n id t w).2
run s (complete id r, t, w) = (complete_check s id r t w).2
run s (record_one p i r, t, w) = (record_check s p i r w).1
run s (challenge id url code, t, w) = (set_login_challenge s id url code t w).2
run s (begin_finalization id, t, w) = (begin_login_finalization s id t w).2
run s (cancel id, t, w) = (cancel_job s id t w).2
run s (finish id b code, t, w) = (finish_login s id b code t w).2
run s (fail id code, t, w) = (fail_job s id code t w).2

unfoldable pub run_all : StateStore → List (Operation × ℕ × Bool) → StateStore
run_all s [] = s
run_all s (o ∷ os) = run_all (run s o) os

module _ (now : ℕ) (j : Job) where
  checked-IsCalm : (r : CheckRecord) → IsCalm j (checked r now j)
  unfolding checked settle is_active_login is_active is_canceled
  checked-IsCalm r = ground arith

  challenged-IsCalm : (url code : String) → IsCalm j (challenged url code now j)
  unfolding challenged is_active_login
  challenged-IsCalm url code = ground arith

  finalization_begun-IsCalm : IsCalm j (finalization_begun now j)
  unfolding finalization_begun without_challenge is_active_login is_active is_logging_in
  finalization_begun-IsCalm = ground arith

  login_finished-IsCalm : (b : Bool) (code : String) → IsCalm j (login_finished b code now j)
  unfolding login_finished settle without_challenge is_active_login is_active
  login_finished-IsCalm b code = ground arith

  job_canceled-IsCalm : IsCalm j (job_canceled now j)
  unfolding job_canceled without_challenge is_active_login is_active
  job_canceled-IsCalm = ground arith

  job_failed-IsCalm : (code : String) → IsCalm j (job_failed code now j)
  unfolding job_failed settle without_challenge is_active_login is_active
  job_failed-IsCalm code = ground arith

create_job-active_logins :
    (s : StateStore) (p i : String) (n : Bool) (id : String) (t : ℕ) (w : Bool)
    → active_logins (create_job s check p i n id t w).2.state.jobs ≤ active_logins s.state.jobs
unfolding create_job put_job with_jobs is_check new_job is_active_login is_login
create_job-active_logins s p i n id t w =
    let j = new_job id check checking p i n t in
    omega (
      arith,
      active_logins-save (with_jobs s (insert id j s.state.jobs)) w,
      active_logins-insert id j s.state.jobs,
    )

start_login-active_logins :
    (s : StateStore) (j : Job) (w : Bool) (o : Option Error)
    → (o ≡ none → active_logins s.state.jobs ≡ 0)
    → active_logins s.state.jobs ≤ 1
    → active_logins (start_login s j w o).2.state.jobs ≤ 1
unfolding start_login put_job with_jobs
start_login-active_logins s j w (some e) h b = b
start_login-active_logins s j w none h b = ground (
  arith,
  active_logins-save (with_jobs s (insert j.id j s.state.jobs)) w,
  active_logins-insert j.id j s.state.jobs,
  h refl,
)

complete_found-active_logins :
    (s : StateStore) (id : String) (r : CheckRecord) (t : ℕ) (w : Bool) (o : Option Job)
    → lookup id s.state.jobs ≡ o
    → active_logins (complete_found s id r t w o).2.state.jobs ≤ active_logins s.state.jobs
unfolding complete_found
complete_found-active_logins s id r t w none e = omega arith
complete_found-active_logins s id r t w (some j) e =
    let same : (checked_store s r j).state.jobs ≡ s.state.jobs =
      unfold checked_store with_check in ground arith in
    subst
      (λ (m : Dict Job).
        active_logins (apply_edit (checked_store s r j) id j (checked r t j) w).2.state.jobs
        ≤ active_logins m)
      same
      (apply_edit-active_logins (checked_store s r j) id j (checked r t j) w (rw same e)
        (checked-IsCalm t j r))

run-active_logins :
    (s : StateStore) (o : Operation × ℕ × Bool)
    → active_logins s.state.jobs ≤ 1
    → active_logins (run s o).state.jobs ≤ 1
unfolding run
run-active_logins s (create_check p i n id, t, w) b =
    omega (arith, b, create_job-active_logins s p i n id t w)
run-active_logins s (create_login p i n id, t, w) b =
    unfold create_login_job in
    start_login-active_logins s (new_job id login logging_in p i n t) w
      (login_conflict p i s.state.jobs) (no_conflict p i s.state.jobs) b
run-active_logins s (complete id r, t, w) b =
    unfold complete_check in
    omega (arith, b, complete_found-active_logins s id r t w (lookup id s.state.jobs) refl)
run-active_logins s (record_one p i r, t, w) b =
    unfold record_check with_check in omega (arith, b, active_logins-save (with_check s p i r) w)
run-active_logins s (challenge id url code, t, w) b =
    unfold set_login_challenge in
    omega (
      arith,
      b,
      edit_job-active_logins s id (challenged url code t) w (λ j. challenged-IsCalm t j url code),
    )
run-active_logins s (begin_finalization id, t, w) b =
    unfold begin_login_finalization in
    omega (
      arith,
      b,
      edit_job-active_logins s id (finalization_begun t) w (λ j. finalization_begun-IsCalm t j),
    )
run-active_logins s (cancel id, t, w) b =
    unfold cancel_job in
    omega (arith, b, edit_job-active_logins s id (job_canceled t) w (λ j. job_canceled-IsCalm t j))
run-active_logins s (finish id x code, t, w) b =
    unfold finish_login in
    omega (
      arith,
      b,
      edit_job-active_logins s id (login_finished x code t) w
          (λ j. login_finished-IsCalm t j x code),
    )
run-active_logins s (fail id code, t, w) b =
    unfold fail_job in
    omega (
      arith,
      b,
      edit_job-active_logins s id (job_failed code t) w (λ j. job_failed-IsCalm t j code),
    )

pub run_all-active_logins :
    (s : StateStore) (os : List (Operation × ℕ × Bool))
    → active_logins s.state.jobs ≤ 1
    → active_logins (run_all s os).state.jobs ≤ 1
unfolding run_all
run_all-active_logins s [] b = b
run_all-active_logins s (o ∷ os) b = run_all-active_logins (run s o) os (run-active_logins s o b)
