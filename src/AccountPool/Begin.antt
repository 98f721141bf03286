-- ===== src/AccountPool/Begin.antt =====
-- What the locked part of Acquire in internal/accountpool/pool.go does to the map of entries.
use codex_account_pool.Prelude.{
  ℕ, ◌≤◌, ◌<◌, String, not, ◌≡◌, refl, ◌≢◌, ◌⊎◌, inl, inr, none, some, arith, Dict, lookup, erase,
  lookup-erase, lookup-erase-none, lookup-retain-some, lookup-retain_inv, erase-Distinct,
  retain-Distinct, Distinct, eq_iff, leb, length, ok, err, ok-pair_injective, err-pair_injective,
  sym, ap, ◌∙◌, Bool-cases, Option-cases, ◌==◌,
}
use codex_account_pool.AccountPool.{
  Pool, Error, capacity, expired_idle, prune, oldest_idle, evict, admit, allocate, add_ref, begin,
}
use codex_account_pool.AccountPool.Oldest.{IsIdle, oldest_idle-IsIdle}

-- `m` still has every entry of the pool that is in use.
pub record Keeps (p : Pool) (m : Dict ℕ) : Type 0 where
  pub distinct : Distinct m
  pub found :
      (k : String) (a : ℕ) → lookup k p.entries ≡ some a → (p.heap a).refs ≢ 0 → lookup k m ≡ some a
  pub from : (k : String) (a : ℕ) → lookup k m ≡ some a → lookup k p.entries ≡ some a

pub record Begun (p : Pool) (key : String) (a : ℕ) (q : Pool) : Type 0 where
  pub rest : Dict ℕ
  pub keeps : Keeps p rest
  pub outcome :
      ((lookup key rest ≡ some a) × (q ≡ add_ref (record p { entries = rest }) a))
      ⊎ ((lookup key rest ≡ none) × (a ≡ p.next) × (q ≡ allocate (record p { entries = rest }) key))

module _ (p : Pool) (d : Distinct p.entries) where
  pub prune-Keeps : (now : ℕ) → Keeps p (prune p now).entries
  unfolding prune expired_idle
  prune-Keeps now = record {
    distinct = retain-Distinct _ p.entries d;
    found = λ k a e r.
        lookup-retain-some (λ k a. not (expired_idle p.heap now a)) k a p.entries e (ground arith);
    from =
        λ k a e. (lookup-retain_inv (λ k a. not (expired_idle p.heap now a)) k a p.entries d e).0;
  }

  erase-Keeps :
      (m : Dict ℕ) (oldest : String) → Keeps p m → IsIdle p.heap m oldest → Keeps p (erase oldest m)
  erase-Keeps m oldest h idle = record {
    distinct = erase-Distinct oldest m h.distinct;
    found = λ k a e r.
        ground (arith, lookup-erase oldest k m, h.found k a e r, eq_iff oldest k, idle.1, idle.2);
    from = λ k a e. h.from k a (ground (arith, lookup-erase oldest k m));
  }

pub begin-some :
    (p : Pool) (key : String) (now b : ℕ)
    → lookup key (prune p now).entries ≡ some b
    → begin p key now ≡ (ok b, add_ref (prune p now) b)
begin-some p key now b f = unfold begin in rw (f, begin) refl

pub begin-none :
    (p : Pool) (key : String) (now : ℕ)
    → lookup key (prune p now).entries ≡ none
    → begin p key now ≡ admit (prune p now) key
begin-none p key now f = unfold begin in rw (f, begin) refl

-- The two ways in which `admit` makes an entry, and the one in which it refuses.
pub admit_cases :
    (p : Pool) (key : String)
    → let oldest = oldest_idle p.heap p.entries "" p.entries in
      ((length p.entries < p.max) × (admit p key ≡ (ok p.next, allocate p key)))
      ⊎ ((p.max ≤ length p.entries)
          × (oldest ≢ "")
          × (admit p key
              ≡ (ok p.next, allocate (record p { entries = erase oldest p.entries }) key)))
      ⊎ ((p.max ≤ length p.entries) × (oldest ≡ "") × (admit p key ≡ (err capacity, p)))
unfolding admit evict
admit_cases p key = elim (Bool-cases (leb p.max (length p.entries))) [
  | inr few ↦ inl (ground arith, rw few refl)
  | inl full ↦ elim (Bool-cases (oldest_idle p.heap p.entries "" p.entries == "")) [
    | inl t ↦ inr (inr (ground arith, (eq_iff _ _).0 t, rw (full, t) refl))
    | inr t ↦ inr (inl (ground arith, (λ e. cc ((eq_iff _ _).1 e)), rw (full, t) refl))
  ]
]

module _ (p : Pool) (d : Distinct p.entries) (key : String) (now : ℕ) where
  pub begin-Begun : (a : ℕ) (q : Pool) → begin p key now ≡ (ok a, q) → Begun p key a q
  unfolding prune
  begin-Begun a q e = elim (Option-cases (lookup key (prune p now).entries)) [
    | inr (b, f) ↦
        let (i, j) = ok-pair_injective (sym (begin-some p key now b f) ∙ e) in
        record {
          rest = (prune p now).entries;
          keeps = prune-Keeps p d now;
          outcome = inl (rw f (ap some i), rw (← i) (sym j));
        }
    | inl f ↦ elim (admit_cases (prune p now) key) [
      | inl c ↦
          let (i, j) = ok-pair_injective (sym (begin-none p key now f ∙ c.1) ∙ e) in
          record {
            rest = (prune p now).entries;
            keeps = prune-Keeps p d now;
            outcome = inr (f, sym i, sym j);
          }
      | inr (inl c) ↦
          let (i, j) = ok-pair_injective (sym (begin-none p key now f ∙ c.2) ∙ e) in
          let kept = prune-Keeps p d now in
          let idle = oldest_idle-IsIdle p.heap (prune p now).entries kept.distinct c.1 in
          record {
            rest = erase _ (prune p now).entries;
            keeps = erase-Keeps p d (prune p now).entries _ kept idle;
            outcome = inr (lookup-erase-none _ key (prune p now).entries f, sym i, sym j);
          }
      | inr (inr c) ↦ cc (begin-none p key now f, c.2, e)
    ]
  ]

  -- A refusal leaves the pruned pool.
  pub begin-err : (e : Error) (q : Pool) → begin p key now ≡ (err e, q) → q ≡ prune p now
  begin-err e q h = elim (Option-cases (lookup key (prune p now).entries)) [
    | inr (b, f) ↦ cc (begin-some p key now b f)
    | inl f ↦ elim (admit_cases (prune p now) key) [
      | inl c ↦ cc (begin-none p key now f, c.1)
      | inr (inl c) ↦ cc (begin-none p key now f, c.2)
      | inr (inr c) ↦ (err-pair_injective (sym h ∙ begin-none p key now f ∙ c.2)).1
    ]
  ]
