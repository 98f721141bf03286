-- ===== src/AdminStore/Restart.antt =====
-- OpenStateStore of internal/adminapi/store.go: what a restart makes of the file's jobs.
use codex_account_pool.Prelude.{
  ℕ, ◌≤◌, Bool, true, false, ◌≡◌, refl, ◌⊎◌, inl, inr, Option, none, some, List, [], ◌∷◌, arith,
  Dict, ok, Bool-cases, subst,
}
use codex_account_pool.AdminStore.{
  Job, StateStore, PersistedState, File, absent, unreadable, malformed, decoded, Error,
  is_interrupted, fail_interrupted, recover_jobs, any_interrupted, load_state, open_state_store,
  opened, save, is_active, state_version,
}
use codex_account_pool.AdminStore.Logins.{
  active_logins, active_logins-save, is_active_login, weight,
}
use codex_account_pool.AdminStore.Moves.{Operation, run_all, run_all-active_logins}

uninterrupted-weight : (j : Job) → is_interrupted j ≡ false → weight j ≡ 0
unfolding is_interrupted is_active_login is_active
uninterrupted-weight j e = ground arith

failed-weight : (now : ℕ) (j : Job) → weight (fail_interrupted now j) ≡ 0
unfolding fail_interrupted is_active_login is_active
failed-weight now j = ground arith

active_logins-recover_jobs : (now : ℕ) (m : Dict Job) → active_logins (recover_jobs now m) ≡ 0
unfolding active_logins recover_jobs
active_logins-recover_jobs now [] = refl
active_logins-recover_jobs now ((k, j) ∷ m) = elim (Bool-cases (is_interrupted j)) [
  | inl e ↦ rw e (omega (arith, failed-weight now j, active_logins-recover_jobs now m))
  | inr e ↦ rw e (omega (arith, uninterrupted-weight j e, active_logins-recover_jobs now m))
]

none_interrupted-active_logins : (m : Dict Job) → any_interrupted m ≡ false → active_logins m ≡ 0
unfolding active_logins any_interrupted
none_interrupted-active_logins [] e = refl
none_interrupted-active_logins ((k, j) ∷ m) e =
    ground (arith, uninterrupted-weight j, none_interrupted-active_logins m)

opened-inv :
    (r : Option Error × StateStore) (s : StateStore) → opened r ≡ ok s → (r.0 ≡ none) × (r.1 ≡ s)
unfolding opened
opened-inv (none, t) s e = ground arith
opened-inv (some x, t) s e = ground arith

-- The two ways to open a file: nothing was interrupted, or the failed jobs were saved.
load_state-cases :
    (file : File) (p : PersistedState) (now : ℕ) (w : Bool) (s : StateStore)
    → load_state file p now w ≡ ok s
    → ((any_interrupted p.jobs ≡ false) × (s ≡ record { file = file; state = p }))
      ⊎ ((any_interrupted p.jobs ≡ true)
          × (save (record { file = file; state = record p { jobs = recover_jobs now p.jobs } }) w
              ≡ (none, s)))
unfolding load_state
load_state-cases file p now w s e =
    let x = save (record { file = file; state = record p { jobs = recover_jobs now p.jobs } }) w in
    ground (arith, opened-inv x s)

load_state-active_logins :
    (file : File) (p : PersistedState) (now : ℕ) (w : Bool) (s : StateStore)
    → load_state file p now w ≡ ok s
    → active_logins s.state.jobs ≡ 0
load_state-active_logins file p now w s e = elim (load_state-cases file p now w s e) [
  | inl (n, same) ↦ rw same (none_interrupted-active_logins p.jobs n)
  | inr (y, same) ↦
      let t : StateStore = record {
        file = file;
        state = record p { jobs = recover_jobs now p.jobs };
      } in
      let le = active_logins-save t w in
      let le' : active_logins s.state.jobs ≤ active_logins (recover_jobs now p.jobs) =
        subst
          (λ (r : Option Error × StateStore).
            active_logins r.1.state.jobs ≤ active_logins (recover_jobs now p.jobs))
          same le in
      omega (arith, le', active_logins-recover_jobs now p.jobs)
]

open_state_store-active_logins :
    (file : File) (now : ℕ) (w : Bool) (s : StateStore)
    → open_state_store file now w ≡ ok s
    → active_logins s.state.jobs ≡ 0
unfolding open_state_store
open_state_store-active_logins absent now w s e =
    let same : s ≡ record {
      file = absent;
      state = record { version = state_version; jobs = []; checks = [] };
    } =
      ground arith in
    rw same (unfold active_logins in refl)
open_state_store-active_logins unreadable now w s e = cc
open_state_store-active_logins malformed now w s e = cc
open_state_store-active_logins (decoded p) now w s e =
    load_state-active_logins (decoded p) p now w s e

-- From any file that opens, under any operations, there is never more than one login that has not
-- finished; just after the start there is none.
pub one_login :
    (file : File) (now : ℕ) (w : Bool) (s : StateStore) (os : List (Operation × ℕ × Bool))
    → open_state_store file now w ≡ ok s
    → (active_logins s.state.jobs ≡ 0) × (active_logins (run_all s os).state.jobs ≤ 1)
one_login file now w s os e =
    let start = open_state_store-active_logins file now w s e in
    (start, run_all-active_logins s os (omega (arith, start)))
