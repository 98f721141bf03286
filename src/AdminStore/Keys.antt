-- ===== src/AdminStore/Keys.antt =====
-- The jobs of internal/adminapi/store.go stand under their own ids, whatever the program does.
use codex_account_pool.Prelude.{
  ℕ, zero, suc, String, Bool, true, false, ◌≡◌, refl, Option, none, some, List, [], ◌∷◌, arith,
  Dict, lookup, insert, erase, Distinct, Entries, Entries-lookup, insert-Distinct, insert-Entries,
  erase-Distinct, erase-Entries,
}
use codex_account_pool.AdminStore.{
  Job, StateStore, CheckRecord, Edit, refuse, leave, write, put_job, with_jobs, with_check, save,
  prune_jobs, delete_first, by_age, terminal_jobs, checked_store, edit_job, edit_found, apply_edit,
  checked, challenged, finalization_begun, login_finished, job_canceled, job_failed, settle,
  without_challenge,
}
use codex_account_pool.AdminStore.Finalization.{IsKeyed}

abbrev pub AreKeyed : Dict Job → Type 0
AreKeyed m = Distinct m × Entries (λ k j. j.id ≡ k) m

delete_first-AreKeyed :
    (n : ℕ) (js : List Job) (m : Dict Job) → AreKeyed m → AreKeyed (delete_first n js m)
unfolding delete_first
delete_first-AreKeyed zero js m i = i
delete_first-AreKeyed (suc n) [] m i = i
delete_first-AreKeyed (suc n) (j ∷ js) m i =
    delete_first-AreKeyed n js (erase j.id m)
      (erase-Distinct j.id m i.0, erase-Entries _ j.id m i.1)

pub save-IsKeyed : (s : StateStore) (w : Bool) → AreKeyed s.state.jobs → IsKeyed (save s w).1
unfolding save prune_jobs
save-IsKeyed s true i =
    let (d, n) = delete_first-AreKeyed _ (by_age (terminal_jobs s.state.jobs)) s.state.jobs i in
    record { distinct = d; named = n }
save-IsKeyed s false i =
    let (d, n) = delete_first-AreKeyed _ (by_age (terminal_jobs s.state.jobs)) s.state.jobs i in
    record { distinct = d; named = n }

pub put_job-IsKeyed :
    (s : StateStore) (k : String) (j : Job) (w : Bool)
    → AreKeyed s.state.jobs
    → j.id ≡ k
    → IsKeyed (put_job s k j w).1
unfolding put_job with_jobs
put_job-IsKeyed s k j w i n =
    save-IsKeyed (with_jobs s (insert k j s.state.jobs)) w
      (insert-Distinct k j s.state.jobs i.0, insert-Entries _ k j s.state.jobs n i.1)

-- An edit that keeps the id.
abbrev pub SameId : Job → Edit → Type 0
SameId j (refuse e) = Unit
SameId j leave = Unit
SameId j (write j') = j'.id ≡ j.id

pub apply_edit-IsKeyed :
    (s : StateStore) (k : String) (j : Job) (e : Edit) (w : Bool)
    → IsKeyed s
    → j.id ≡ k
    → SameId j e
    → IsKeyed (apply_edit s k j e w).2
unfolding apply_edit
apply_edit-IsKeyed s k j (refuse e) w i n same = i
apply_edit-IsKeyed s k j leave w i n same = i
apply_edit-IsKeyed s k j (write j') w i n same =
    put_job-IsKeyed s k j' w (i.distinct, i.named) (ground arith)

pub edit_found-IsKeyed :
    (s : StateStore) (k : String) (f : Job → Edit) (w : Bool) (o : Option Job)
    → lookup k s.state.jobs ≡ o
    → IsKeyed s
    → ((j : Job) → SameId j (f j))
    → IsKeyed (edit_found s k f w o).2
unfolding edit_found
edit_found-IsKeyed s k f w none e i same = i
edit_found-IsKeyed s k f w (some j) e i same =
    apply_edit-IsKeyed s k j (f j) w i (Entries-lookup (λ k j. j.id ≡ k) k j s.state.jobs i.named e)
      (same j)

pub edit_job-IsKeyed :
    (s : StateStore) (k : String) (f : Job → Edit) (w : Bool)
    → IsKeyed s
    → ((j : Job) → SameId j (f j))
    → IsKeyed (edit_job s k f w).2
unfolding edit_job
edit_job-IsKeyed s k f w i same = edit_found-IsKeyed s k f w (lookup k s.state.jobs) refl i same

pub with_check-IsKeyed :
    (s : StateStore) (p i : String) (r : CheckRecord) → IsKeyed s → IsKeyed (with_check s p i r)
unfolding with_check
with_check-IsKeyed s p i r k = record { distinct = k.distinct; named = k.named }

pub checked_store-IsKeyed :
    (s : StateStore) (r : CheckRecord) (j : Job) → IsKeyed s → IsKeyed (checked_store s r j)
unfolding checked_store
checked_store-IsKeyed s r j k = ground (arith, with_check-IsKeyed s j.provider j.profile_id r k)

module _ (now : ℕ) (j : Job) where
  pub checked-SameId : (r : CheckRecord) → SameId j (checked r now j)
  unfolding checked settle
  checked-SameId r = ground arith

  pub challenged-SameId : (url code : String) → SameId j (challenged url code now j)
  unfolding challenged
  challenged-SameId url code = ground arith

  pub finalization_begun-SameId : SameId j (finalization_begun now j)
  unfolding finalization_begun without_challenge
  finalization_begun-SameId = ground arith

  pub login_finished-SameId : (b : Bool) (code : String) → SameId j (login_finished b code now j)
  unfolding login_finished settle without_challenge
  login_finished-SameId b code = ground arith

  pub job_canceled-SameId : SameId j (job_canceled now j)
  unfolding job_canceled without_challenge
  job_canceled-SameId = ground arith

  pub job_failed-SameId : (code : String) → SameId j (job_failed code now j)
  unfolding job_failed settle without_challenge
  job_failed-SameId code = ground arith
