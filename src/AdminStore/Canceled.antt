-- ===== src/AdminStore/Canceled.antt =====
-- Cancellation in internal/adminapi/store.go: no operation changes a canceled job.
use codex_account_pool.Prelude.{
  ℕ, String, Bool, false, ◌≡◌, refl, ◌≢◌, ◌⊎◌, sym, inl, inr, Option, none, some, List, [], ◌∷◌,
  arith, eq_iff, Dict, lookup, insert, ◌==◌, Bool-cases, lookup-insert, All, ne→eq_false, subst,
}
use codex_account_pool.AdminStore.{
  Job, StateStore, CheckRecord, Error, Edit, refuse, leave, write, canceled, is_finalizing,
  is_logging_in, is_terminal, is_canceled, is_succeeded, create_job, create_login_job, start_login,
  login_conflict, new_job, put_job, with_jobs, with_check, complete_check, complete_found,
  checked_store, record_check, set_login_challenge, begin_login_finalization, finish_login,
  cancel_job, fail_job, edit_job, edit_found, apply_edit, checked, challenged, finalization_begun,
  login_finished, job_canceled, job_failed,
}
use codex_account_pool.AdminStore.Pruning.{lookup-save}
use codex_account_pool.AdminStore.Moves.{
  Operation, create_check, create_login, complete, record_one, challenge, begin_finalization,
  cancel, finish, fail, run, run_all,
}

-- The job under a key is as it was, or pruned.
abbrev pub IsLeft : String → StateStore → StateStore → Type 0
IsLeft k s t = (lookup k t.state.jobs ≡ lookup k s.state.jobs) ⊎ (lookup k t.state.jobs ≡ none)

put_job-IsLeft :
    (k : String) (s : StateStore) (id : String) (j : Job) (w : Bool)
    → id ≢ k
    → IsLeft k s (put_job s id j w).1
unfolding put_job with_jobs
put_job-IsLeft k s id j w n = ground (
  arith,
  lookup-save k (with_jobs s (insert id j s.state.jobs)) w,
  lookup-insert id k j s.state.jobs,
  ne→eq_false id k n,
)

abbrev IsNoWrite : Edit → Type 0
IsNoWrite (refuse e) = Unit
IsNoWrite leave = Unit
IsNoWrite (write j) = ⊥

-- An edit of another job, or of this one that does not write.
apply_edit-IsLeft :
    (k : String) (s : StateStore) (id : String) (j : Job) (e : Edit) (w : Bool)
    → (id ≢ k) ⊎ IsNoWrite e
    → IsLeft k s (apply_edit s id j e w).2
unfolding apply_edit
apply_edit-IsLeft k s id j (refuse e) w h = inl refl
apply_edit-IsLeft k s id j leave w h = inl refl
apply_edit-IsLeft k s id j (write j') w (inl n) = put_job-IsLeft k s id j' w n
apply_edit-IsLeft k s id j (write j') w (inr x) = absurd x

edit_found-IsLeft :
    (k : String) (s : StateStore) (id : String) (f : Job → Edit) (w : Bool) (o : Option Job)
    → lookup id s.state.jobs ≡ o
    → ((j : Job) → lookup id s.state.jobs ≡ some j → (id ≢ k) ⊎ IsNoWrite (f j))
    → IsLeft k s (edit_found s id f w o).2
unfolding edit_found
edit_found-IsLeft k s id f w none e h = inl refl
edit_found-IsLeft k s id f w (some j) e h = apply_edit-IsLeft k s id j (f j) w (h j e)

start_login-IsLeft :
    (k : String) (s : StateStore) (j : Job) (w : Bool) (o : Option Error)
    → j.id ≢ k
    → IsLeft k s (start_login s j w o).2
unfolding start_login
start_login-IsLeft k s j w (some e) n = inl refl
start_login-IsLeft k s j w none n = put_job-IsLeft k s j.id j w n

-- The operation makes a job under this id. The code draws the ids of new jobs at random.
unfoldable pub creates : String → Operation → Bool
creates k (create_check p i n id) = id == k
creates k (create_login p i n id) = id == k
creates k _ = false

-- The job under `k`, if there is one, has been canceled.
abbrev pub IsOver : String → StateStore → Type 0
IsOver k s = (j : Job) → lookup k s.state.jobs ≡ some j → j.state ≡ canceled

module _ (k : String) (s : StateStore) (over : IsOver k s) where
  other_or_over :
      (id : String) (j : Job) → lookup id s.state.jobs ≡ some j → (id ≢ k) ⊎ (j.state ≡ canceled)
  other_or_over id j e = elim (Bool-cases (id == k)) [
    | inl t ↦
        let same : id ≡ k = (eq_iff id k).0 t in
        inr (over j (subst (λ (x : String). lookup x s.state.jobs ≡ some j) same e))
    | inr t ↦ inl (λ same. ground (arith, eq_iff id k))
  ]

  edit_job-over :
      (id : String) (f : Job → Edit) (w : Bool)
      → ((j : Job) → j.state ≡ canceled → IsNoWrite (f j))
      → IsLeft k s (edit_job s id f w).2
  unfolding edit_job
  edit_job-over id f w n =
      edit_found-IsLeft k s id f w (lookup id s.state.jobs) refl
        (λ j e. elim (other_or_over id j e) [ inl ne ↦ inl ne | inr done ↦ inr (n j done) ])

  complete_found-over :
      (id : String) (r : CheckRecord) (t : ℕ) (w : Bool) (o : Option Job)
      → lookup id s.state.jobs ≡ o
      → IsLeft k s (complete_found s id r t w o).2
  unfolding complete_found
  complete_found-over id r t w none e = inl refl
  complete_found-over id r t w (some j) e =
      let jobs : (checked_store s r j).state.jobs ≡ s.state.jobs =
        unfold checked_store with_check in ground arith in
      let h : (id ≢ k) ⊎ IsNoWrite (checked r t j) = elim (other_or_over id j e) [
        | inl ne ↦ inl ne
        | inr done ↦ inr (unfold checked is_canceled in rw done tt)
      ] in
      subst
        (λ (m : Dict Job).
          (lookup k (apply_edit (checked_store s r j) id j (checked r t j) w).2.state.jobs
            ≡ lookup k m)
          ⊎ (lookup k (apply_edit (checked_store s r j) id j (checked r t j) w).2.state.jobs
              ≡ none))
        jobs (apply_edit-IsLeft k (checked_store s r j) id j (checked r t j) w h)

  -- No operation but the creation of a job with the same id touches it.
  run-IsLeft :
      (o : Operation) (t : ℕ) (w : Bool) → creates k o ≡ false → IsLeft k s (run s (o, t, w))
  unfolding run creates
  run-IsLeft (create_check p i n id) t w h =
      unfold create_job in put_job-IsLeft k s id _ w (λ e. ground (arith, eq_iff id k))
  run-IsLeft (create_login p i n id) t w h =
      unfold create_login_job in
      start_login-IsLeft k s _ w (login_conflict p i s.state.jobs)
        (unfold new_job in λ e. ground (arith, eq_iff id k))
  run-IsLeft (complete id r) t w h =
      unfold complete_check in complete_found-over id r t w (lookup id s.state.jobs) refl
  run-IsLeft (record_one p i r) t w h =
      unfold record_check with_check in lookup-save k (with_check s p i r) w
  run-IsLeft (challenge id url code) t w h =
      unfold set_login_challenge in
      edit_job-over id (challenged url code t) w
        (λ j done. unfold challenged is_logging_in in rw done (ground arith))
  run-IsLeft (begin_finalization id) t w h =
      unfold begin_login_finalization in
      edit_job-over id (finalization_begun t) w
        (λ j done. unfold finalization_begun is_logging_in in rw done (ground arith))
  run-IsLeft (cancel id) t w h =
      unfold cancel_job in
      edit_job-over id (job_canceled t) w (λ j done. unfold job_canceled is_terminal in rw done tt)
  run-IsLeft (finish id b code) t w h =
      unfold finish_login in
      edit_job-over id (login_finished b code t) w
        (λ j done. unfold login_finished is_finalizing in rw done (ground arith))
  run-IsLeft (fail id code) t w h =
      unfold fail_job in
      edit_job-over id (job_failed code t) w
        (λ j done. unfold job_failed is_succeeded is_canceled in rw done tt)

run_all-IsLeft :
    (k : String) (s : StateStore) (os : List (Operation × ℕ × Bool))
    → All (λ o. creates k o.0 ≡ false) os
    → IsOver k s
    → IsLeft k s (run_all s os)
unfolding run_all
run_all-IsLeft k s [] h over = inl refl
run_all-IsLeft k s ((o, t, w) ∷ os) h over =
    let next = run s (o, t, w) in
    let step = run-IsLeft k s over o t w h.0 in
    let rest = run_all-IsLeft k next os h.1 (λ j e. over j (ground arith)) in ground arith

-- A canceled job is never changed again, as long as no new job draws its id: under any operations it
-- keeps every field until it is pruned, and once pruned it stays away.
pub canceled_is_final :
    (s : StateStore) (k : String) (j : Job) (os : List (Operation × ℕ × Bool))
    → lookup k s.state.jobs ≡ some j
    → j.state ≡ canceled
    → All (λ o. creates k o.0 ≡ false) os
    → (lookup k (run_all s os).state.jobs ≡ some j) ⊎ (lookup k (run_all s os).state.jobs ≡ none)
canceled_is_final s k j os e c h =
    let left = run_all-IsLeft k s os h (λ i f. ground arith) in rw (sym e) left
