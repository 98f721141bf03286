-- ===== src/AdminStore/Pruning.antt =====
-- pruneJobsLocked of internal/adminapi/store.go: what a save keeps.
use codex_account_pool.Prelude.{
  ℕ, zero, suc, ◌-◌, String, Bool, true, false, ◌≡◌, refl, ◌≢◌, ◌⊎◌, ◌∙◌, inl, inr, none, some,
  List, [], ◌∷◌, arith, eq_iff, Dict, lookup, erase, length, lookup-erase, All, Distinct, Entries,
  Entries-both, Entries-map, Distinct-lookup, Bool-cases,
}
use codex_account_pool.AdminStore.{
  Job, is_terminal, terminal_jobs, by_age, insert_older, delete_first, prune_jobs, older,
  max_retained_terminal_jobs, StateStore, save,
}

-- Pruning changes no job that it keeps.
pub lookup-delete_first :
    (k : String) (n : ℕ) (js : List Job) (m : Dict Job)
    → (lookup k (delete_first n js m) ≡ lookup k m) ⊎ (lookup k (delete_first n js m) ≡ none)
unfolding delete_first
lookup-delete_first k zero js m = inl refl
lookup-delete_first k (suc n) [] m = inl refl
lookup-delete_first k (suc n) (j ∷ js) m =
    ground (arith, lookup-delete_first k n js (erase j.id m), lookup-erase j.id k m)

lookup-delete_first_other :
    (k : String) (n : ℕ) (js : List Job) (m : Dict Job)
    → All (λ j. j.id ≢ k) js
    → lookup k (delete_first n js m) ≡ lookup k m
unfolding delete_first
lookup-delete_first_other k zero js m a = refl
lookup-delete_first_other k (suc n) [] m a = refl
lookup-delete_first_other k (suc n) (j ∷ js) m a = ground (
  arith,
  lookup-delete_first_other k n js (erase j.id m) a.1,
  lookup-erase j.id k m,
  eq_iff j.id k,
  a.0,
)

module _ {ℓ} (P : Job → Type ℓ) where
  All-insert_older : (j : Job) (js : List Job) → P j → All P js → All P (insert_older j js)
  unfolding insert_older
  All-insert_older j [] p a = (p, tt)
  All-insert_older j (k ∷ ks) p a = elim (Bool-cases (older k j)) [
    | inl e ↦ rw e (a.0, All-insert_older j ks p a.1)
    | inr e ↦ rw e (p, a)
  ]

  All-by_age : (js : List Job) → All P js → All P (by_age js)
  unfolding by_age
  All-by_age [] a = tt
  All-by_age (j ∷ js) a = All-insert_older j (by_age js) a.0 (All-by_age js a.1)

  All-terminal_jobs :
      (m : Dict Job) → Entries (λ k j. is_terminal j.state ≡ true → P j) m → All P (terminal_jobs m)
  unfolding terminal_jobs
  All-terminal_jobs [] a = tt
  All-terminal_jobs ((k, j) ∷ m) a = elim (Bool-cases (is_terminal j.state)) [
    | inl e ↦ rw e (a.0 e, All-terminal_jobs m a.1)
    | inr e ↦ rw e (All-terminal_jobs m a.1)
  ]

pub lookup-prune_jobs :
    (k : String) (m : Dict Job)
    → (lookup k (prune_jobs m) ≡ lookup k m) ⊎ (lookup k (prune_jobs m) ≡ none)
unfolding prune_jobs
lookup-prune_jobs k m =
    lookup-delete_first k (length (terminal_jobs m) - max_retained_terminal_jobs)
      (by_age (terminal_jobs m)) m

pub lookup-save :
    (k : String) (s : StateStore) (writable : Bool)
    → let jobs = (save s writable).1.state.jobs in
      (lookup k jobs ≡ lookup k s.state.jobs) ⊎ (lookup k jobs ≡ none)
unfolding save
lookup-save k s true = lookup-prune_jobs k s.state.jobs
lookup-save k s false = lookup-prune_jobs k s.state.jobs

unfinished-ne :
    (m : Dict Job) (k i : String) (j a : Job)
    → lookup k m ≡ some j
    → is_terminal j.state ≡ false
    → lookup i m ≡ some a
    → a.id ≡ i
    → is_terminal a.state ≡ true
    → a.id ≢ k
unfinished-ne m k i j a e unfinished f g t q = cc

-- Pruning deletes no job that is not finished, where each job stands under its own id.
pub prune_keeps_unfinished :
    (m : Dict Job) (k : String) (j : Job)
    → Distinct m
    → Entries (λ k j. j.id ≡ k) m
    → lookup k m ≡ some j
    → is_terminal j.state ≡ false
    → lookup k (prune_jobs m) ≡ some j
unfolding prune_jobs
prune_keeps_unfinished m k j d keyed e unfinished =
    let named =
      Entries-map {Q = λ i a. is_terminal a.state ≡ true → a.id ≢ k}
        (λ i (a : Job) (b : (lookup i m ≡ some a) × (a.id ≡ i)) (t : is_terminal a.state ≡ true)
            (q : a.id ≡ k).
          unfinished-ne m k i j a e unfinished b.0 b.1 t q)
        m (Entries-both _ _ m (Distinct-lookup m d) keyed) in
    lookup-delete_first_other k _ (by_age (terminal_jobs m)) m
      (All-by_age _ (terminal_jobs m) (All-terminal_jobs _ m named))
    ∙ e
