-- ===== src/AdminStore/Finalization.antt =====
-- BeginLoginFinalization against CancelJob in internal/adminapi/store.go: the first one wins.
use codex_account_pool.Prelude.{
  ℕ, String, Bool, true, false, ◌≡◌, refl, ◌≢◌, ◌⊎◌, inl, inr, Option, none, some, arith, eq_refl,
  lookup, insert, lookup-insert, subst, Distinct, Entries, Entries-lookup, insert-Distinct,
  insert-Entries,
}
use codex_account_pool.AdminStore.{
  Job, StateStore, Error, Edit, refuse, write, finalizing, is_finalizing, is_terminal, put_job,
  with_jobs, save, begin_login_finalization, cancel_job, edit_job, edit_found, apply_edit,
  finalization_begun, job_canceled, without_challenge, not_active, already_finalizing,
}
use codex_account_pool.AdminStore.Pruning.{prune_keeps_unfinished}

-- The jobs of a store that was written by the program: each stands under its own id.
pub record IsKeyed (s : StateStore) : Type 0 where
  pub distinct : Distinct s.state.jobs
  pub named : Entries (λ k j. j.id ≡ k) s.state.jobs

some-ne-none : {e : Error} → ◌≢◌ {A = Option Error} (some e) none
some-ne-none h = cc

-- A job that is written and not finished is found again.
lookup-put_job :
    (s : StateStore) (k : String) (j : Job) (w : Bool)
    → IsKeyed s
    → j.id ≡ k
    → is_terminal j.state ≡ false
    → lookup k (put_job s k j w).1.state.jobs ≡ some j
unfolding put_job with_jobs save
lookup-put_job s k j true i n u =
    prune_keeps_unfinished (insert k j s.state.jobs) k j
      (insert-Distinct k j s.state.jobs i.distinct) (insert-Entries _ k j s.state.jobs n i.named)
      (ground (arith, lookup-insert k k j s.state.jobs, eq_refl k)) u
lookup-put_job s k j false i n u =
    prune_keeps_unfinished (insert k j s.state.jobs) k j
      (insert-Distinct k j s.state.jobs i.distinct) (insert-Entries _ k j s.state.jobs n i.named)
      (ground (arith, lookup-insert k k j s.state.jobs, eq_refl k)) u

job_canceled-finalizing :
    (now : ℕ) (j : Job) → j.state ≡ finalizing → job_canceled now j ≡ refuse already_finalizing
unfolding job_canceled is_terminal is_finalizing
job_canceled-finalizing now j f = rw f refl

cancel_job-finalizing :
    (s : StateStore) (k : String) (j : Job) (now : ℕ) (w : Bool)
    → lookup k s.state.jobs ≡ some j
    → j.state ≡ finalizing
    → cancel_job s k now w ≡ (some j, some already_finalizing, s)
unfolding cancel_job edit_job edit_found apply_edit
cancel_job-finalizing s k j now w e f = rw (e, job_canceled-finalizing now j f) refl

finalization_begun-write :
    (now : ℕ) (j : Job)
    → (finalization_begun now j ≡ refuse not_active)
      ⊎ (finalization_begun now j
          ≡ write (record (without_challenge j) { state = finalizing; updated_at = now }))
unfolding finalization_begun
finalization_begun-write now j = ground arith

begin_found :
    (s : StateStore) (k : String) (now : ℕ) (w : Bool) (o : Option Job)
    → IsKeyed s
    → lookup k s.state.jobs ≡ o
    → (edit_found s k (finalization_begun now) w o).1 ≡ none
    → (j : Job) × (lookup k (edit_found s k (finalization_begun now) w o).2.state.jobs ≡ some j)
      × (j.state ≡ finalizing)
unfolding edit_found apply_edit
begin_found s k now w none i e h = cc
begin_found s k now w (some j) i e h = elim (finalization_begun-write now j) [
  | inl f ↦ absurd (some-ne-none (subst (λ (x : Edit). (apply_edit s k j x w).1 ≡ none) f h))
  | inr f ↦
      let j' : Job = record (without_challenge j) { state = finalizing; updated_at = now } in
      let n : j'.id ≡ k =
        unfold without_challenge in Entries-lookup (λ k j. j.id ≡ k) k j s.state.jobs i.named e in
      rw f (j', lookup-put_job s k j' w i n (unfold is_terminal in refl), refl)
]

-- The first of the two wins: after a finalization of a login has begun, a cancellation is refused
-- and changes nothing. The store is one that the program wrote.
pub finalization_excludes_cancel :
    (s : StateStore) (k : String) (now later : ℕ) (w x : Bool)
    → IsKeyed s
    → (begin_login_finalization s k now w).1 ≡ none
    → let t = (begin_login_finalization s k now w).2 in
      ((cancel_job t k later x).1 ≡ some already_finalizing) × ((cancel_job t k later x).2 ≡ t)
unfolding begin_login_finalization edit_job
finalization_excludes_cancel s k now later w x i h =
    let (j, found, f) = begin_found s k now w (lookup k s.state.jobs) i refl h in
    let t = (edit_found s k (finalization_begun now) w (lookup k s.state.jobs)).2 in
    let r = cancel_job-finalizing t k j later x found f in rw r (refl, refl)
