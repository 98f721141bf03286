-- ===== src/AccountPool/Capacity.antt =====
-- The bound on the entries of internal/accountpool/pool.go.
use text.Mathlib.TextLemmas.{append-eq-nil_iff}
use codex_account_pool.Prelude.{
  ℕ, ◌≤◌, ◌<◌, String, Bool, ◌≡◌, refl, ◌≢◌, ap, ◌∙◌, inl, inr, none, List, if◌then◌else◌, leb,
  subst, arith, eq_iff, lookup, erase, length, length-retain-le, length-insert-le, length-erase-lt,
  Entries, retain-Entries, erase-Entries, insert-Entries, Distinct, Option-cases,
}
use codex_account_pool.AccountPool.{
  Pool, prune, oldest_idle, session_key, begin, admit, allocate, add_ref, new, set_profile, select,
  restore_profile, observe_success, observe_quota, store_quota, unknown, usable, exhausted, stamp,
  unref, enter_gate, leave_gate, Lease, Quota,
}
use codex_account_pool.AccountPool.Oldest.{oldest_idle-IsIdle}
use codex_account_pool.AccountPool.Begin.{admit_cases, begin-some, begin-none, prune-Keeps}
use codex_account_pool.AccountPool.Protocol.{System, Step, Reach, here, next}
use codex_account_pool.AccountPool.Selection.{select_cases}
use codex_account_pool.AccountPool.Invariant.{Reach-Inv}

-- The map of entries of a pool that was made with the bound `max`.
pub record IsBounded (max : ℕ) (p : Pool) : Type 0 where
  pub bound : p.max ≡ max
  pub fits : length p.entries ≤ max
  pub named : Entries (λ k a. k ≢ "") p.entries

session_key-ne-empty : (provider session : String) → session_key provider session ≢ ""
unfolding session_key
session_key-ne-empty provider session e =
    cc ((eq_iff "\0" "").1 (append-eq-nil_iff.0 (append-eq-nil_iff.0 e).0).1)

-- Steps that leave the map alone.
same_entries :
    {max : ℕ} {p q : Pool}
    → q.max ≡ p.max
    → q.entries ≡ p.entries
    → IsBounded max p
    → IsBounded max q
same_entries m e b = record { bound = m ∙ b.bound; fits = rw e b.fits; named = rw e b.named }

module _ {max : ℕ} (pos : 0 < max) {p : Pool} (b : IsBounded max p) where
  pub prune-IsBounded : (now : ℕ) → IsBounded max (prune p now)
  unfolding prune
  prune-IsBounded now = record {
    bound = b.bound;
    fits = omega (arith, b.fits, length-retain-le _ p.entries);
    named = retain-Entries _ _ p.entries b.named;
  }

  admit-IsBounded : (key : String) → Distinct p.entries → key ≢ "" → IsBounded max (admit p key).1
  unfolding allocate
  admit-IsBounded key d n = elim (admit_cases p key) [
    | inl c ↦ rw c.1 (record {
      bound = b.bound;
      fits = omega (arith, b.bound, length-insert-le key p.next p.entries);
      named = insert-Entries _ key p.next p.entries n b.named;
    })
    | inr (inl c) ↦
        let oldest = oldest_idle p.heap p.entries "" p.entries in
        let idle = oldest_idle-IsIdle p.heap p.entries d c.1 in
        rw c.2 (record {
          bound = b.bound;
          fits = omega (
            arith,
            b.fits,
            length-insert-le key p.next (erase _ p.entries),
            length-erase-lt oldest p.entries (λ (e : lookup oldest p.entries ≡ none). cc (idle.1)),
          );
          named = insert-Entries _ key p.next _ n (erase-Entries _ _ p.entries b.named);
        })
    | inr (inr c) ↦ rw c.2 b
  ]

module _ {max : ℕ} (pos : 0 < max) {p : Pool} (b : IsBounded max p) where
  begin-IsBounded :
      (key : String) (now : ℕ) → Distinct p.entries → key ≢ "" → IsBounded max (begin p key now).1
  begin-IsBounded key now d n = elim (Option-cases (lookup key (prune p now).entries)) [
    | inr (a, f) ↦
        rw (begin-some p key now a f)
          (unfold add_ref in same_entries refl refl (prune-IsBounded pos b now))
    | inl f ↦
        rw (begin-none p key now f)
          (admit-IsBounded pos (prune-IsBounded pos b now) key (prune-Keeps p d now).distinct n)
  ]

  observe_quota-IsBounded :
      (l : Lease) (profile : String) (state : Quota) (now : ℕ)
      → IsBounded max (observe_quota p l profile state now)
  unfolding observe_quota store_quota
  observe_quota-IsBounded l profile unknown now = b
  observe_quota-IsBounded l profile usable now = same_entries refl refl b
  observe_quota-IsBounded l profile exhausted now = same_entries refl refl b

  select-IsBounded :
      (l : Lease) (preferred selector : String) (candidates : List String) (history : Bool)
      (now : ℕ)
      → IsBounded max (select p l preferred selector candidates history now).2
  unfolding set_profile
  select-IsBounded l preferred selector candidates history now =
      elim (select_cases p l preferred selector candidates history now) [
        | inl c ↦ rw c.1 b
        | inr (inl c) ↦ rw c.2 b
        | inr (inr c) ↦ rw c.3 (same_entries refl refl b)
      ]

  restore-IsBounded : (l : Lease) (profile : String) → IsBounded max (restore_profile p l profile).1
  unfolding restore_profile set_profile
  restore-IsBounded l profile = same_entries (ground arith) (ground arith) b

Step-IsBounded :
    {max : ℕ} {s u : System}
    → 0 < max
    → Distinct s.pool.entries
    → Step s u
    → IsBounded max s.pool
    → IsBounded max u.pool
unfolding unref enter_gate leave_gate stamp observe_success set_profile
Step-IsBounded pos d (Step.begins provider session now a p e) b =
    subst (IsBounded _) (ap (λ r. r.1) e)
      (begin-IsBounded pos b _ now d (session_key-ne-empty provider session))
Step-IsBounded pos d (Step.refuses provider session now er p e) b =
    subst (IsBounded _) (ap (λ r. r.1) e)
      (begin-IsBounded pos b _ now d (session_key-ne-empty provider session))
Step-IsBounded pos d (Step.selects pre post t l pr se ca hi now e w q) b =
    select-IsBounded pos b l pr se ca hi now
Step-IsBounded pos d (Step.restores pre post t l id e w q) b = restore-IsBounded pos b l id
Step-IsBounded pos d (Step.observes l id st now) b = observe_quota-IsBounded pos b l id st now
Step-IsBounded pos d _ b = same_entries refl refl b

-- The bound that `New` installs is the requested one, or 1024 for a request that is not positive.
-- It bounds the number of remembered sessions in every reachable state.
pub Reach-IsBounded :
    {max ttl : ℕ} {s : System}
    → Reach max ttl s
    → IsBounded (if leb max 0 then 1024 else max) s.pool
unfolding new
Reach-IsBounded {max} here = record { bound = refl; fits = omega arith; named = tt }
Reach-IsBounded {max} (next r st) =
    Step-IsBounded (ground arith) (Reach-Inv r).distinct st (Reach-IsBounded r)
