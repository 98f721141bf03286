-- ===== src/Antigravity/Accounts/Failover.antt =====
-- failover of internal/antigravity/accounts.go: when it asks for another account, and which one it
-- gives.
use codex_account_pool.Prelude.{
  ℕ, subst, String, Bool, true, false, not, ◌≡◌, refl, sym, ◌∙◌, ◌≢◌, ◌⊎◌, inl, inr, List, [], ◌∷◌,
  Result, ok, err, arith, eq_iff, eq_refl, contains, Bool-cases, ◌==◌, ◌||◌,
}
use codex_account_pool.AccountPool.{
  Pool, Lease, Quota, usable, unknown, exhausted, is_usable, is_exhausted, alternate,
  first_alternate, can_probe_failover, observe_quota, store_quota, Entry,
}
use codex_account_pool.Antigravity.Accounts.{
  Credentials, no_credentials, Refusal, CredentialProvider, AccountLease, Probing, credentials,
  probe_credentials, probe_account, probe_alternates, failover,
}

module _ {S : Type 0} (bound : String) (probe : String → S → Quota × S) where
  -- The account that the loop stops at, and the state that its probe leaves.
  abbrev Stopped : List String → String → S → Type 0
  Stopped ids id s =
      (id ≡ "")
      ⊎ ((contains ids id ≡ true)
          × (id ≢ bound)
          × ((t : S) × (((probe id t).0 ≡ usable) × (s ≡ (probe id t).1))))

  Stopped-cons :
      (c id : String) (ids : List String) (s : S) → Stopped ids id s → Stopped (c ∷ ids) id s
  unfolding contains
  Stopped-cons c id ids s (inl e) = inl e
  Stopped-cons c id ids s (inr (f, g, h)) = inr (rw f (ground arith), g, h)

  first_alternate-Stopped :
      (ids : List String) (s : S) → let r = first_alternate bound probe ids s in Stopped ids r.0 r.1
  unfolding first_alternate is_usable
  first_alternate-Stopped [] s = inl refl
  first_alternate-Stopped (id ∷ ids) s =
      let rest = first_alternate-Stopped ids s in
      let asked = probe id s in
      let next = first_alternate-Stopped ids asked.1 in
      elim (Bool-cases (id == bound)) [
        | inl e ↦ rw e (Stopped-cons id _ ids _ rest)
        | inr e ↦ elim (Bool-cases (is_usable asked.0)) [
          | inl u ↦
              rw (e, u)
                (inr (
                  unfold contains in rw (eq_refl id) refl,
                  (λ q. cc ((eq_iff _ _).1 q)),
                  (s, (ground arith, refl)),
                ))
          | inr u ↦ rw (e, u) (Stopped-cons id _ ids _ next)
        ]
      ]

first_alternate_keeps :
    {S : Type 0} {P : S → Type 0} (bound : String) (probe : String → S → Quota × S)
    → ((id : String) (s : S) → P s → P (probe id s).1)
    → (ids : List String) (s : S) → P s
    → P (first_alternate bound probe ids s).1
unfolding first_alternate
first_alternate_keeps bound probe k [] s h = h
first_alternate_keeps {S} {P} bound probe k (id ∷ ids) s h =
    let skip = first_alternate_keeps {P = P} bound probe k ids s h in
    let asked = probe id s in
    let next = first_alternate_keeps {P = P} bound probe k ids asked.1 (k id s h) in
    elim (Bool-cases (id == bound)) [
      | inl e ↦ rw e skip
      | inr e ↦ elim (Bool-cases (is_usable asked.0)) [
        | inl u ↦ rw (e, u) (k id s h)
        | inr u ↦ rw (e, u) next
      ]
    ]

heap-observe_quota :
    (p : Pool) (l : Lease) (id : String) (state : Quota) (now : ℕ)
    → (observe_quota p l id state now).heap ≡ p.heap
unfolding observe_quota store_quota
heap-observe_quota p l id unknown now = refl
heap-observe_quota p l id usable now = refl
heap-observe_quota p l id exhausted now = refl

module _ {S : Type 0} (provider : CredentialProvider S)
    (probe : Credentials → String → S → Quota × S) (expired : S → Bool) (time : S → ℕ)
    (model : String) (l : AccountLease) where
  -- Credentials that the broker gave for an account, whose quota a probe found usable.
  abbrev pub IsOffered : String → Credentials → Type 0
  IsOffered id k =
      ((s : S) × ((credentials provider l.fallback id s).0 ≡ ok k))
      × ((s : S) × ((probe k model s).0 ≡ usable))

  probe_credentials-IsOffered :
      (id : String) (w : Probing S) (s : S) (o : Result Refusal Credentials)
      → (credentials provider l.fallback id s).0 ≡ o
      → (probe_credentials provider probe expired time model l id w o).0 ≡ usable
      → IsOffered id (probe_credentials provider probe expired time model l id w o).1.chosen
  unfolding probe_credentials is_usable
  probe_credentials-IsOffered id w s (err e) g u = ground arith
  probe_credentials-IsOffered id w s (ok k) g u = rw u ((s, g), (w.broker, u))

  probe_account-IsOffered :
      (id : String) (w : Probing S)
      → let r = probe_account provider probe expired time model l id w in
        r.0 ≡ usable → IsOffered id r.1.chosen
  unfolding probe_account
  probe_account-IsOffered id w = elim (Bool-cases (expired w.broker)) [
    | inl e ↦ rw e (λ u. ground arith)
    | inr e ↦ rw e (
        let k = credentials provider l.fallback id w.broker in
        probe_credentials-IsOffered id (record w { broker = k.1 }) w.broker k.0 refl)
  ]

  -- Another account than the bound one.
  abbrev pub IsAlternate : String → Credentials → Type 0
  IsAlternate bound k =
      (id : String) × ((contains l.ids id ≡ true) × ((id ≢ bound) × ((id ≢ "") × IsOffered id k)))

  probe_alternates-IsAlternate :
      (current : Quota) (w : Probing S)
      → let r = probe_alternates provider probe expired time model l current w in
        ((r.0 == "") ≡ false)
        → (current ≡ exhausted) × IsAlternate (w.pool.heap l.policy.entry).profile r.2.chosen
  unfolding probe_alternates alternate
  probe_alternates-IsAlternate current w =
      let bound = (w.pool.heap l.policy.entry).profile in
      let ask = probe_account provider probe expired time model l in
      let r = first_alternate bound ask l.ids w in
      elim (Bool-cases
        (l.policy.explicit || (l.policy.attempted || (l.history || not (is_exhausted current))))) [
          | inl e ↦ rw e (λ n. ground arith)
          | inr e ↦ rw e (λ n. (
            unfold is_exhausted in ground arith,
            elim (first_alternate-Stopped bound ask l.ids w) [
              | inl z ↦ ground (arith, eq_iff r.0 "")
              | inr (i, d, (t, (u, g))) ↦ (
                r.0,
                (
                  i,
                  (
                    d,
                    (
                      (λ z. ground (arith, eq_iff r.0 "")),
                      subst (λ x. IsOffered r.0 x.chosen) (sym g) (probe_account-IsOffered r.0 t u),
                    ),
                  ),
                ),
              )
            ],
          ))
        ]

  -- An account is given once.
  probe_alternates_spent :
      (current : Quota) (w : Probing S)
      → let r = probe_alternates provider probe expired time model l current w in
        ((r.0 == "") ≡ false) → can_probe_failover r.1 ≡ false
  unfolding probe_alternates alternate can_probe_failover
  probe_alternates_spent current w =
      elim (Bool-cases
        (l.policy.explicit || (l.policy.attempted || (l.history || not (is_exhausted current))))) [
          | inl e ↦ rw e (λ n. ground arith)
          | inr e ↦ rw e (λ n. ground arith)
        ]

  heap-probe_credentials :
      (h : ℕ → Entry) (id : String) (w : Probing S) (o : Result Refusal Credentials)
      → w.pool.heap ≡ h
      → (probe_credentials provider probe expired time model l id w o).1.pool.heap ≡ h
  unfolding probe_credentials
  heap-probe_credentials h id w (err f) e = e
  heap-probe_credentials h id w (ok k) e =
      let state = probe k model w.broker in
      heap-observe_quota w.pool l.policy id state.0 (time state.1) ∙ e

  heap-probe_account :
      (h : ℕ → Entry) (id : String) (w : Probing S)
      → w.pool.heap ≡ h
      → (probe_account provider probe expired time model l id w).1.pool.heap ≡ h
  unfolding probe_account
  heap-probe_account h id w e = elim (Bool-cases (expired w.broker)) [
    | inl t ↦ rw t e
    | inr t ↦ rw t (
        let k = credentials provider l.fallback id w.broker in
        heap-probe_credentials h id (record w { broker = k.1 }) k.0 e)
  ]

  heap-probe_alternates :
      (h : ℕ → Entry) (current : Quota) (w : Probing S)
      → w.pool.heap ≡ h
      → (probe_alternates provider probe expired time model l current w).2.pool.heap ≡ h
  unfolding probe_alternates alternate
  heap-probe_alternates h current w e =
      let bound = (w.pool.heap l.policy.entry).profile in
      let ask = probe_account provider probe expired time model l in
      elim (Bool-cases
        (l.policy.explicit || (l.policy.attempted || (l.history || not (is_exhausted current))))) [
          | inl t ↦ rw t e
          | inr t ↦ rw t (
              first_alternate_keeps {P = λ v. v.pool.heap ≡ h} bound ask (heap-probe_account h)
                l.ids w e)
        ]

  -- A request with a named account, with tool history, or whose lease has already switched, is left as
  -- it is, and nothing is asked. Any other is given other credentials only if the current account's
  -- quota is exhausted, and then those that the broker gave for a listed account other than the bound
  -- one, whose quota a probe found usable, and the lease does not switch again. The bindings and the
  -- holds of the pool stay.
  pub failover_lem :
      (current : Credentials) (p : Pool) (s : S)
      → let result = failover provider probe expired time model l current p s in
        let (k, given, l', q, s') = result in
        (((l.history ≡ true) ⊎ (l.policy.explicit ≡ true) ⊎ (l.policy.attempted ≡ true))
          × (result ≡ (no_credentials, false, l, p, s)))
        ⊎ ((q.heap ≡ p.heap)
            × ((given ≡ false)
                ⊎ (((probe current model s).0 ≡ exhausted)
                    × ((can_probe_failover l'.policy ≡ false)
                        × IsAlternate (p.heap l.policy.entry).profile k))))
  unfolding failover
  failover_lem current p s =
      let state = probe current model s in
      let w : Probing S = record {
        pool = observe_quota p l.policy current.profile_id state.0 (time state.1);
        broker = state.1;
        chosen = no_credentials;
      } in
      let found = probe_alternates provider probe expired time model l state.0 w in
      let h = heap-observe_quota p l.policy current.profile_id state.0 (time state.1) in
      elim (Bool-cases (l.history || not (can_probe_failover l.policy))) [
        | inl e ↦ rw e (inl (unfold can_probe_failover in ground arith, refl))
        | inr e ↦ rw e (
            inr (
              heap-probe_alternates p.heap state.0 w h,
              elim (Bool-cases (found.0 == "")) [
                | inl g ↦ inl (ground (arith, g))
                | inr g ↦
                    let (x, y) = probe_alternates-IsAlternate state.0 w g in
                    inr (
                      x,
                      (
                        probe_alternates_spent state.0 w g,
                        subst (λ f. IsAlternate (f l.policy.entry).profile found.2.chosen) h y,
                      ),
                    )
              ],
            ))
      ]
