-- ===== src/AdminStore/Logins.antt =====
-- The logins under way in internal/adminapi/store.go: there is one at most.
use codex_account_pool.Prelude.{
  ℕ, zero, suc, ◌+◌, ◌≤◌, String, Bool, true, false, ◌&&◌, ◌≡◌, refl, inl, inr, Option, none, some,
  List, [], ◌∷◌, arith, Dict, lookup, insert, erase, if◌then◌else◌, ◌==◌, Bool-cases,
}
use codex_account_pool.AdminStore.{
  Job, is_active, is_login, StateStore, save, prune_jobs, delete_first, put_job, with_jobs, Edit,
  refuse, leave, write, apply_edit, edit_job, edit_found, login_conflict, by_age, terminal_jobs,
}

-- A login that has not finished.
unfoldable pub is_active_login : Job → Bool
is_active_login j = is_login j.type && is_active j.state

abbrev pub weight : Job → ℕ
weight j = if is_active_login j then 1 else 0

unfoldable pub active_logins : Dict Job → ℕ
active_logins [] = 0
active_logins ((k, j) ∷ m) = weight j + active_logins m

active_logins-erase : (k : String) (m : Dict Job) → active_logins (erase k m) ≤ active_logins m
unfolding active_logins erase
active_logins-erase k [] = omega arith
active_logins-erase k ((i, j) ∷ m) = ground (arith, active_logins-erase k m)

pub active_logins-insert :
    (k : String) (j : Job) (m : Dict Job)
    → active_logins (insert k j m) ≤ weight j + active_logins m
unfolding active_logins insert
active_logins-insert k j [] = omega arith
active_logins-insert k j ((i, a) ∷ m) = ground (arith, active_logins-insert k j m)

pub active_logins-insert_old :
    (k : String) (j old : Job) (m : Dict Job)
    → lookup k m ≡ some old
    → weight j ≤ weight old
    → active_logins (insert k j m) ≤ active_logins m
unfolding active_logins insert lookup
active_logins-insert_old k j old [] e h = cc
active_logins-insert_old k j old ((i, a) ∷ m) e h = elim (Bool-cases (i == k)) [
  | inl t ↦ let same : a ≡ old = ground arith in rw t (ground arith)
  | inr t ↦ ground (arith, active_logins-insert_old k j old m)
]

active_logins-delete_first :
    (n : ℕ) (js : List Job) (m : Dict Job) → active_logins (delete_first n js m) ≤ active_logins m
unfolding delete_first
active_logins-delete_first zero js m = omega arith
active_logins-delete_first (suc n) [] m = omega arith
active_logins-delete_first (suc n) (j ∷ js) m =
    omega (arith, active_logins-delete_first n js (erase j.id m), active_logins-erase j.id m)

pub active_logins-save :
    (s : StateStore) (writable : Bool)
    → active_logins (save s writable).1.state.jobs ≤ active_logins s.state.jobs
unfolding save prune_jobs
active_logins-save s true =
    active_logins-delete_first _ (by_age (terminal_jobs s.state.jobs)) s.state.jobs
active_logins-save s false =
    active_logins-delete_first _ (by_age (terminal_jobs s.state.jobs)) s.state.jobs

-- CreateLoginJob's loop finds nothing only if no login is under way.
pub no_conflict :
    (provider profile_id : String) (m : Dict Job)
    → login_conflict provider profile_id m ≡ none
    → active_logins m ≡ 0
unfolding login_conflict active_logins is_active_login
no_conflict provider profile_id [] e = refl
no_conflict provider profile_id ((k, j) ∷ m) e = ground (arith, no_conflict provider profile_id m)

-- An edit that makes no login active.
abbrev pub IsCalm : Job → Edit → Type 0
IsCalm j (refuse e) = Unit
IsCalm j leave = Unit
IsCalm j (write j') = weight j' ≤ weight j

pub apply_edit-active_logins :
    (s : StateStore) (id : String) (j : Job) (e : Edit) (writable : Bool)
    → lookup id s.state.jobs ≡ some j
    → IsCalm j e
    → active_logins (apply_edit s id j e writable).2.state.jobs ≤ active_logins s.state.jobs
unfolding apply_edit put_job with_jobs
apply_edit-active_logins s id j (refuse e) writable f c = omega arith
apply_edit-active_logins s id j leave writable f c = omega arith
apply_edit-active_logins s id j (write j') writable f c = omega (
  arith,
  active_logins-save (with_jobs s (insert id j' s.state.jobs)) writable,
  active_logins-insert_old id j' j s.state.jobs f c,
)

edit_found-active_logins :
    (s : StateStore) (id : String) (f : Job → Edit) (writable : Bool) (o : Option Job)
    → lookup id s.state.jobs ≡ o
    → ((j : Job) → IsCalm j (f j))
    → active_logins (edit_found s id f writable o).2.state.jobs ≤ active_logins s.state.jobs
unfolding edit_found
edit_found-active_logins s id f writable none e c = omega arith
edit_found-active_logins s id f writable (some j) e c =
    apply_edit-active_logins s id j (f j) writable e (c j)

pub edit_job-active_logins :
    (s : StateStore) (id : String) (f : Job → Edit) (writable : Bool)
    → ((j : Job) → IsCalm j (f j))
    → active_logins (edit_job s id f writable).2.state.jobs ≤ active_logins s.state.jobs
unfolding edit_job
edit_job-active_logins s id f writable c =
    edit_found-active_logins s id f writable (lookup id s.state.jobs) refl c
