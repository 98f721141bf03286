-- ===== src/AccountPool/Alternates.antt =====
-- Alternate and RestoreProfile of internal/accountpool/pool.go on every branch.
use codex_account_pool.Prelude.{
  ℕ, String, Bool, true, false, not, ◌≡◌, refl, ◌≢◌, ◌⊎◌, inl, inr, none, some, List, [], ◌∷◌,
  arith, eq_iff, eq_refl, Bool-cases, if◌then◌else◌, ◌==◌, ◌||◌, contains,
}
use codex_account_pool.AccountPool.{
  unknown, usable, Pool, Lease, Quota, exhausted, continuity, set_profile, is_usable, is_exhausted,
  restore_profile, alternate, first_alternate,
}

module _ {ℓ} {S : Type ℓ} (bound : String) (probe : String → S → Quota × S) where
  -- No account, or a listed one that is not the bound one and that a probe found usable.
  abbrev pub Alternative : List String → String → Type ℓ
  Alternative ids id =
      (id ≡ "") ⊎ ((id ≢ bound) × (contains ids id ≡ true) × ((t : S) × ((probe id t).0 ≡ usable)))

  Alternative-cons :
      (c id : String) (ids : List String) → Alternative ids id → Alternative (c ∷ ids) id
  unfolding contains
  Alternative-cons c id ids (inl e) = inl e
  Alternative-cons c id ids (inr f) = inr (f.0, rw f.1 (ground arith), f.2)

  first_alternate-Alternative :
      (ids : List String) (s : S) → Alternative ids (first_alternate bound probe ids s).0
  unfolding first_alternate is_usable
  first_alternate-Alternative [] s = inl refl
  first_alternate-Alternative (id ∷ ids) s =
      let rest = first_alternate-Alternative ids s in
      let next = first_alternate-Alternative ids (probe id s).1 in
      elim (Bool-cases (id == bound)) [
        | inl e ↦ rw e (Alternative-cons id _ ids rest)
        | inr e ↦ elim (Bool-cases (is_usable (probe id s).0)) [
          | inl u ↦
              rw (e, u)
                (inr (
                  (λ q. cc ((eq_iff _ _).1 q)),
                  unfold contains in rw (eq_refl id) refl,
                  (s, ground arith),
                ))
          | inr u ↦ rw (e, u) (Alternative-cons id _ ids next)
        ]
      ]

module _ {ℓ} {S : Type ℓ} (bound : String) (l : Lease) (current : Quota) (candidates : List String)
    (history : Bool) (probe : String → S → Quota × S) (s : S) where
  alternate_refuses :
      (l.explicit ≡ true) ⊎ (l.attempted ≡ true) ⊎ (history ≡ true) ⊎ (current ≢ exhausted)
      → alternate bound l current candidates history probe s ≡ ("", l, s)
  unfolding alternate is_exhausted
  alternate_refuses (inl e) = rw e refl
  alternate_refuses (inr (inl e)) = ground arith
  alternate_refuses (inr (inr (inl e))) = ground arith
  alternate_refuses (inr (inr (inr e))) = ground arith

  alternate-Alternative :
      Alternative bound probe candidates (alternate bound l current candidates history probe s).0
  unfolding alternate
  alternate-Alternative =
      elim (Bool-cases (l.explicit || (l.attempted || (history || not (is_exhausted current))))) [
        | inl e ↦ rw e (inl refl)
        | inr e ↦ rw e (first_alternate-Alternative bound probe candidates s)
      ]

  alternate_attempted :
      l.explicit ≡ false
      → history ≡ false
      → current ≡ exhausted
      → (alternate bound l current candidates history probe s).1.attempted ≡ true
  unfolding alternate is_exhausted
  alternate_attempted e h c = ground arith

is_exhausted-cases : (q : Quota) → (q ≡ exhausted) ⊎ (q ≢ exhausted)
is_exhausted-cases unknown = inr (λ e. cc)
is_exhausted-cases usable = inr (λ e. cc)
is_exhausted-cases exhausted = inl refl

-- Alternate leaves a pinned, already switched or tool-history session alone, and asks nothing
-- unless the current account is exhausted. Otherwise it gives no account or a candidate other than
-- the bound one that a probe found usable, and no later call with the lease gives or asks anything.
pub alternate_once {ℓ} :
    {S : Type ℓ} (bound : String) (l : Lease) (current : Quota) (candidates : List String)
    (history : Bool) (probe : String → S → Quota × S) (s : S)
    → let (id, l', s') = alternate bound l current candidates history probe s in
      (((l.explicit ≡ true) ⊎ (l.attempted ≡ true) ⊎ (history ≡ true) ⊎ (current ≢ exhausted))
        × (alternate bound l current candidates history probe s ≡ ("", l, s)))
      ⊎ (Alternative bound probe candidates id
          × ((later : Quota) (others : List String) (again : Bool) (t : S)
              → alternate bound l' later others again probe t ≡ ("", l', t)))
alternate_once bound l current candidates history probe s =
    let refused = alternate_refuses bound l current candidates history probe s in
    elim (Bool-cases l.explicit) [
      | inl e ↦ inl (inl e, refused (inl e))
      | inr e ↦ elim (Bool-cases history) [
        | inl h ↦ inl (inr (inr (inl h)), refused (inr (inr (inl h))))
        | inr h ↦ elim (is_exhausted-cases current) [
          | inr n ↦ inl (inr (inr (inr n)), refused (inr (inr (inr n))))
          | inl c ↦ inr (
            alternate-Alternative bound l current candidates history probe s,
            λ later others again t.
                alternate_refuses bound (alternate bound l current candidates history probe s).1
                  later others again probe t
                  (inr
                    (inl (alternate_attempted bound l current candidates history probe s e h c))),
          )
        ]
      ]
    ]

-- RestoreProfile refuses, and then changes nothing, when the session is bound to another account than
-- a nonempty restored one; otherwise the session is bound to the restored account, or as before if
-- that is empty. No other entry changes.
pub restore_profile_lem :
    (p : Pool) (l : Lease) (profile : String)
    → let bound = (p.heap l.entry).profile in
      let (r, q) = restore_profile p l profile in
      ((profile ≢ "") × (bound ≢ "") × (bound ≢ profile) × (r ≡ some continuity) × (q ≡ p))
      ⊎ (((profile ≡ "") ⊎ (bound ≡ "") ⊎ (bound ≡ profile))
          × (r ≡ none)
          × ((q.heap l.entry).profile ≡ (if profile == "" then bound else profile))
          × ((a : ℕ) → a ≢ l.entry → q.heap a ≡ p.heap a))
unfolding restore_profile set_profile
restore_profile_lem p l profile =
    let bound = (p.heap l.entry).profile in
    elim (Bool-cases (profile == "")) [
      | inl e ↦ rw e (inr (inl ((eq_iff profile "").0 e), refl, refl, (λ a n. refl)))
      | inr e ↦ elim (Bool-cases (bound == "")) [
        | inl b ↦
            rw (e, b)
              (inr (inr (inl ((eq_iff bound "").0 b)), refl, ground arith, (λ a n. ground arith)))
        | inr b ↦ elim (Bool-cases (bound == profile)) [
          | inl c ↦
              rw (e, b, c)
                (inr (
                  inr (inr ((eq_iff bound profile).0 c)),
                  refl,
                  ground arith,
                  (λ a n. ground arith),
                ))
          | inr c ↦
              rw (e, b, c)
                (inl (
                  (λ x. ground (arith, eq_iff profile "")),
                  (λ x. ground (arith, eq_iff bound "")),
                  (λ x. ground (arith, eq_iff bound profile)),
                  refl,
                  refl,
                ))
        ]
      ]
    ]
