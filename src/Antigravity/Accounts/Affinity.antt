-- ===== src/Antigravity/Accounts/Affinity.antt =====
-- acquireAccount of internal/antigravity/accounts.go for a session that the replay cache knows: the
-- account that it is bound to there.
use codex_account_pool.Prelude.{
  ℕ, subst, String, Bool, true, ◌≡◌, refl, sym, ◌∙◌, ap, ◌≢◌, ◌⊎◌, inl, inr, Option, none, some,
  List, Result, ok, err, arith, eq_iff,
}
use codex_account_pool.AccountPool.{Error, Pool, Lease, acquire, select, set_model}
use codex_account_pool.AccountPool.Selection.{select_gives, select_pinned, select_history}
use codex_account_pool.AccountPool.Alternates.{restore_profile_lem}
use codex_account_pool.Antigravity.Replay.{session_profile}
use codex_account_pool.Antigravity.Accounts.{
  Credentials, Refusal, CredentialProvider, AccountLease, Listing, Client, Request, Times, give_up,
  restore, with_credentials, with_choice, with_listing, with_restored, with_lease, after_acquire,
  acquire_account, list_accounts, credentials,
}

-- A success leaves the entry bound to the account.
abbrev pub IsBound {ℓ} : {A : Type ℓ} → String → ℕ → Result Refusal A → Pool → Type 0
IsBound profile a (err e) q = Unit
IsBound profile a (ok r) q = (q.heap a).profile ≡ profile

select_keeps :
    (p : Pool) (l : Lease) (preferred selector : String) (candidates : List String) (history : Bool)
    (now : ℕ) (id : String)
    → (p.heap l.entry).profile ≢ ""
    → (selector ≡ "") ⊎ (history ≡ true)
    → let (r, l', q) = select p l preferred selector candidates history now in
      r ≡ ok id → id ≡ (p.heap l.entry).profile
select_keeps p l preferred selector candidates history now id n (inl s) = λ e.
    let h = select_pinned p l preferred candidates now n history in
    let k : (select p l preferred "" candidates history now).0 ≡ ok id =
      subst (λ s. (select p l preferred s candidates history now).0 ≡ ok id) s e in
    ground (arith, h, k)
select_keeps p l preferred selector candidates history now id n (inr t) = λ e.
    let r = select p l preferred selector candidates true now in
    let k : r.0 ≡ ok id =
      subst (λ b. (select p l preferred selector candidates b now).0 ≡ ok id) t e in
    let h : r ≡ (ok id, r.1, r.2) = ap (λ x. (x, r.1, r.2)) k in
    (select_history p l preferred selector candidates now h).0

-- What the choice leaves the entry bound to.
abbrev IsKept : String → ℕ → Result Error String → Pool → Type 0
IsKept profile a (err e) q = Unit
IsKept profile a (ok id) q = (q.heap a).profile ≡ profile

select-IsKept :
    (p : Pool) (l : Lease) (preferred selector : String) (candidates : List String) (history : Bool)
    (now : ℕ)
    → (p.heap l.entry).profile ≢ ""
    → (selector ≡ "") ⊎ (history ≡ true)
    → let (r, l', q) = select p l preferred selector candidates history now in
      IsKept (p.heap l.entry).profile l.entry r q
select-IsKept p l preferred selector candidates history now n s =
    let q = (select p l preferred selector candidates history now).2 in
    let bound = (p.heap l.entry).profile in
    elim (select_gives p l preferred selector candidates history now) [
      | inl (e, g, k) ↦ subst (λ o. IsKept bound l.entry o q) (sym g) tt
      | inr (id, g, m, i, b, others, known) ↦
          subst (λ o. IsKept bound l.entry o q) (sym g)
            (b ∙ select_keeps p l preferred selector candidates history now id n s g)
    ]

module _ {S : Type 0} (provider : CredentialProvider S) (r : Request) (t : Times) where
  with_credentials-IsBound :
      (profile : String) (a : ℕ) (l : AccountLease) (c : Client S) (o : Result Refusal Credentials)
      → (c.pool.heap a).profile ≡ profile
      → let d = with_credentials provider r t l c o in IsBound profile a d.0 d.1.pool
  unfolding with_credentials give_up
  with_credentials-IsBound profile a l c (err e) b = tt
  with_credentials-IsBound profile a l c (ok k) b = b

  with_choice-IsBound :
      (profile : String) (a : ℕ) (l : AccountLease) (c : Client S) (o : Result Error String)
      → IsKept profile a o c.pool
      → let d = with_choice provider r t l c o in IsBound profile a d.0 d.1.pool
  unfolding with_choice give_up
  with_choice-IsBound profile a l c (err e) b = tt
  with_choice-IsBound profile a l c (ok id) b =
      let k = credentials provider l.fallback id c.broker in
      with_credentials-IsBound profile a l (record c { broker = k.1 }) k.0 b

  with_listing-IsBound :
      (l : Lease) (c : Client S) (o : Result String Listing)
      → (c.pool.heap l.entry).profile ≢ ""
      → (r.selector ≡ "") ⊎ (r.history ≡ true)
      → let d = with_listing provider r t l c o in
        IsBound (c.pool.heap l.entry).profile l.entry d.0 d.1.pool
  unfolding with_listing give_up
  with_listing-IsBound l c (err e) n s = tt
  with_listing-IsBound l c (ok a) n s =
      let chosen = select c.pool l a.preferred r.selector a.ids r.history t.selected in
      let lease : AccountLease = record {
        policy = chosen.1;
        ids = a.ids;
        fallback = a.fallback;
        history = r.history;
      } in
      with_choice-IsBound (c.pool.heap l.entry).profile l.entry lease (record c { pool = chosen.2 })
        chosen.0 (select-IsKept c.pool l a.preferred r.selector a.ids r.history t.selected n s)

  with_restored-IsBound :
      (profile : String) (l : Lease) (c : Client S) (o : Option Error)
      → ((o ≡ none) → (c.pool.heap l.entry).profile ≡ profile)
      → profile ≢ ""
      → (r.selector ≡ "") ⊎ (r.history ≡ true)
      → let d = with_restored provider r t l c o in IsBound profile l.entry d.0 d.1.pool
  unfolding with_restored set_model give_up
  with_restored-IsBound profile l c (some e) b n s = tt
  with_restored-IsBound profile l c none b n s =
      let a = list_accounts provider c.broker in
      let d = with_listing provider r t (set_model l r.model) (record c { broker = a.1 }) a.0 in
      subst (λ i. IsBound i l.entry d.0 d.1.pool) (b refl)
        (with_listing-IsBound (set_model l r.model) (record c { broker = a.1 }) a.0
          (λ e. n (sym (b refl) ∙ e)) s)

  restore_binds :
      (profile : String) (p : Pool) (l : Lease)
      → profile ≢ ""
      → (restore (some profile) p l).0 ≡ none
      → ((restore (some profile) p l).1.heap l.entry).profile ≡ profile
  unfolding restore
  restore_binds profile p l n e = elim (restore_profile_lem p l profile) [
    | inl (m, b, d, f, q) ↦ ground (arith, f, e)
    | inr (h, f, b, others) ↦ ground (arith, b, eq_iff profile "")
  ]

  -- If the replay cache knows the session's account, then a request for that session that names no
  -- account, or has tool history, is given that account or none.
  pub acquire_account-IsBound :
      (c : Client S) (done : Bool) (l : Lease) (p : Pool) (profile : String)
      → acquire c.pool "google-antigravity" r.session done t.acquired ≡ some (ok l, p)
      → (session_profile c.replay r.model r.session t.restored).0 ≡ some profile
      → profile ≢ ""
      → (r.selector ≡ "") ⊎ (r.history ≡ true)
      → (o : Result Refusal (AccountLease × Credentials)) × (d : Client S) × ((acquire_account
              provider r t c done
            ≡ some (o, d))
          × IsBound profile l.entry o d.pool)
  unfolding acquire_account after_acquire with_lease
  acquire_account-IsBound c done l p profile e f n s =
      let d = with_lease provider r t l (record c { pool = p }) in
      let found = session_profile c.replay r.model r.session t.restored in
      let bound = restore found.0 p l in
      (
        d.0,
        d.1,
        (
          rw e refl,
          with_restored-IsBound profile l (record c { pool = bound.1; replay = found.1 }) bound.0
              (subst
                (λ o. (restore o p l).0 ≡ none → ((restore o p l).1.heap l.entry).profile ≡ profile)
                (sym f) (restore_binds profile p l n))
              n s,
        ),
      )
