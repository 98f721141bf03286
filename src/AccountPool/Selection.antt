-- ===== src/AccountPool/Selection.antt =====
-- Select, RestoreProfile and Alternate of internal/accountpool/pool.go: which account a session gets.
use mathlib.Core.Path.{subst₂}
use codex_account_pool.Prelude.{
  eqb, ℕ, String, Bool, true, false, not, ◌≡◌, refl, subst, ◌≢◌, ◌⊎◌, sym, ap, ◌∙◌, inl, inr, List,
  [], ◌∷◌, ◌++◌, arith, eq_iff, ok, err, All, Bool-cases, if◌then◌else◌, ◌==◌, contains,
}
use codex_account_pool.AccountPool.{
  Quota, unknown, head_or_empty, usable, Pool, Lease, exhausted, Error, continuity, unavailable,
  set_profile, select, choose, breaks_continuity, first_choice, first_usable, known_quota,
  is_usable, is_exhausted,
}

-- What `first_usable` finds is known to be usable.
first_usable_lem :
    (p : Pool) (l : Lease) (now : ℕ) (cs : List String)
    → (first_usable p l now cs ≡ "") ⊎ (known_quota p l (first_usable p l now cs) now ≡ usable)
unfolding first_usable is_usable
first_usable_lem p l now [] = inl refl
first_usable_lem p l now (c ∷ cs) = ground (arith, first_usable_lem p l now cs)

usable_or_not : (q : Quota) → (q ≡ usable) ⊎ ((q ≢ usable) × (is_usable q ≡ false))
unfolding is_usable
usable_or_not usable = inl refl
usable_or_not unknown = inr ((λ e. cc), refl)
usable_or_not exhausted = inr ((λ e. cc), refl)

exhausted_or_not :
    (q : Quota)
    → ((q ≡ exhausted) × (is_exhausted q ≡ true)) ⊎ ((q ≢ exhausted) × (is_exhausted q ≡ false))
unfolding is_exhausted
exhausted_or_not exhausted = inl (refl, refl)
exhausted_or_not unknown = inr ((λ e. cc), refl)
exhausted_or_not usable = inr ((λ e. cc), refl)

module _ (p : Pool) (l : Lease) (preferred selector : String) (candidates : List String)
    (history : Bool) (now : ℕ) where
  abbrev pub bound : String
  bound = (p.heap l.entry).profile

  abbrev pub chosen : String
  chosen = choose p l bound preferred selector candidates now

  abbrev pub selected : Lease
  selected = record l { explicit = not (selector == "") }

  -- The three ways in which Select ends.
  pub select_cases :
      ((breaks_continuity bound selector history ≡ true)
        × (select p l preferred selector candidates history now ≡ (err continuity, selected, p)))
      ⊎ ((breaks_continuity bound selector history ≡ false)
          × ((chosen ≡ "") ⊎ (contains candidates chosen ≡ false))
          × (select p l preferred selector candidates history now ≡ (err unavailable, selected, p)))
      ⊎ ((breaks_continuity bound selector history ≡ false)
          × (chosen ≢ "")
          × (contains candidates chosen ≡ true)
          × (select p l preferred selector candidates history now
              ≡ (ok chosen, selected, set_profile p l.entry chosen)))
  unfolding select
  select_cases = elim (Bool-cases (breaks_continuity bound selector history)) [
    | inl b ↦ inl (b, rw b refl)
    | inr b ↦ elim (Bool-cases (chosen == "")) [
      | inl e ↦ inr (inl (b, inl ((eq_iff _ _).0 e), rw (b, e) refl))
      | inr e ↦ elim (Bool-cases (contains candidates chosen)) [
        | inl c ↦ inr (inr (b, (λ q. cc ((eq_iff _ _).1 q)), c, rw (b, e, c) refl))
        | inr c ↦ inr (inl (b, inr c, rw (b, e, c) refl))
      ]
    ]
  ]

  -- A session that is bound keeps its account unless the caller names another one.
  choose_bound : bound ≢ "" → selector ≡ "" → chosen ≡ bound
  unfolding choose first_choice
  choose_bound b s = ground (arith, eq_iff selector "", eq_iff bound "")

  choose_history :
      breaks_continuity bound selector history ≡ false → history ≡ true → chosen ≡ bound
  unfolding choose first_choice breaks_continuity
  choose_history b s = ground (arith, eq_iff selector "", eq_iff bound "", eq_iff selector bound)

  choose-ne-exhausted :
      bound ≡ "" → selector ≡ "" → chosen ≢ "" → known_quota p l chosen now ≢ exhausted
  unfolding choose is_exhausted
  choose-ne-exhausted b s n =
      ground (arith, eq_iff selector "", eq_iff bound "", first_usable_lem p l now candidates)

-- A session that is bound to an account is never switched silently: with no selector Select gives
-- that account, or fails with `unavailable` when it is not among the candidates.
pub select_pinned :
    (p : Pool) (l : Lease) (preferred : String) (candidates : List String) (now : ℕ)
    → (p.heap l.entry).profile ≢ ""
    → (history : Bool)
    → (select p l preferred "" candidates history now).0 ≡ (
        if contains candidates (p.heap l.entry).profile
        then ok (p.heap l.entry).profile
        else err unavailable)
select_pinned p l preferred candidates now n history =
    let same = choose_bound p l preferred "" candidates history now n refl in
    elim (select_cases p l preferred "" candidates history now) [
      | inl c ↦
          absurd (
            n (unfold breaks_continuity in ground (arith, eq_iff (p.heap l.entry).profile "", c.0)))
      | inr (inl c) ↦ ground (arith, ap (λ t. t.0) c.2)
      | inr (inr c) ↦ ground (arith, ap (λ t. t.0) c.3)
    ]

-- With tool history in the request Select either fails or gives the account that the session is
-- bound to, whatever selector, preference and candidates the caller passes; the binding stays.
pub select_history :
    (p : Pool) (l : Lease) (preferred selector : String) (candidates : List String) (now : ℕ)
    {id : String} {l' : Lease} {q : Pool}
    → select p l preferred selector candidates true now ≡ (ok id, l', q)
    → (id ≡ (p.heap l.entry).profile) × ((q.heap l.entry).profile ≡ (p.heap l.entry).profile)
unfolding set_profile
select_history p l preferred selector candidates now {id} {l'} {q} h =
    elim (select_cases p l preferred selector candidates true now) [
      | inl c ↦ cc
      | inr (inl c) ↦ cc
      | inr (inr c) ↦
          let same = choose_history p l preferred selector candidates true now c.0 refl in
          let parts = sym h ∙ c.3 in
          (ground (arith, same, parts), rw (ap (λ t. t.2) parts, same) (ground arith))
    ]

bound_selected_or_left :
    (p : Pool) (l : Lease) (preferred selector : String) (candidates : List String) (history : Bool)
    (now : ℕ)
    → choose p l (p.heap l.entry).profile preferred selector candidates now ≢ ""
    → ((p.heap l.entry).profile ≢ "")
      ⊎ (selector ≢ "")
      ⊎ (known_quota p l (choose p l (p.heap l.entry).profile preferred selector candidates now) now
          ≢ exhausted)
bound_selected_or_left p l preferred selector candidates history now n =
    elim (Bool-cases ((p.heap l.entry).profile == "")) [
      | inr b ↦ inl (λ e. ground (arith, eq_iff (p.heap l.entry).profile ""))
      | inl b ↦ elim (Bool-cases (selector == "")) [
        | inr t ↦ inr (inl (λ e. ground (arith, eq_iff selector "")))
        | inl t ↦ inr (
            inr (
              choose-ne-exhausted p l preferred selector candidates history now
                ((eq_iff (p.heap l.entry).profile "").0 b) ((eq_iff selector "").0 t) n))
      ]
    ]

-- A success of Select, and what it leaves.
pub select_gives :
    (p : Pool) (l : Lease) (preferred selector : String) (candidates : List String) (history : Bool)
    (now : ℕ)
    → let (r, l', q) = select p l preferred selector candidates history now in
      ((e : Error) × (r ≡ err e) × (q ≡ p))
      ⊎ ((id : String) × (r ≡ ok id)
          × (id ≢ "")
          × (contains candidates id ≡ true)
          × ((q.heap l.entry).profile ≡ id)
          × ((a : ℕ) → a ≢ l.entry → q.heap a ≡ p.heap a)
          × (((p.heap l.entry).profile ≢ "")
              ⊎ (selector ≢ "")
              ⊎ (known_quota p l id now ≢ exhausted)))
unfolding set_profile
select_gives p l preferred selector candidates history now =
    elim (select_cases p l preferred selector candidates history now) [
      | inl c ↦ inl (continuity, ap (λ t. t.0) c.1, ap (λ t. t.2) c.1)
      | inr (inl c) ↦ inl (unavailable, ap (λ t. t.0) c.2, ap (λ t. t.2) c.2)
      | inr (inr c) ↦ inr (
        choose p l (p.heap l.entry).profile preferred selector candidates now,
        ap (λ t. t.0) c.3,
        c.1,
        c.2,
        rw c.3 (ground arith),
        (λ a n. rw c.3 (ground arith)),
        bound_selected_or_left p l preferred selector candidates history now c.1,
      )
    ]

-- The first account of a list that the pool knows to be usable, or "".
abbrev pub IsFirstUsable : Pool → Lease → ℕ → List String → String → Type 0
IsFirstUsable p l now cs id =
    ((id ≡ "") × All (λ c. known_quota p l c now ≢ usable) cs)
    ⊎ ((xs : List String) × (ys : List String) × ((cs ≡ xs ++ id ∷ ys)
          × ((known_quota p l id now ≡ usable) × All (λ c. known_quota p l c now ≢ usable) xs)))

first_usable-IsFirstUsable :
    (p : Pool) (l : Lease) (now : ℕ) (cs : List String)
    → IsFirstUsable p l now cs (first_usable p l now cs)
unfolding first_usable is_usable
first_usable-IsFirstUsable p l now [] = inl (refl, tt)
first_usable-IsFirstUsable p l now (c ∷ cs) = elim (usable_or_not (known_quota p l c now)) [
  | inl u ↦ rw u (inr ([], cs, (refl, (u, tt))))
  | inr (n, u) ↦ rw u (elim (first_usable-IsFirstUsable p l now cs) [
    | inl (e, a) ↦ inl (e, (n, a))
    | inr (xs, ys, (e, (k, a))) ↦ inr (c ∷ xs, ys, (ap (λ t. c ∷ t) e, (k, (n, a))))
  ])
]

-- The account that a session without one gets, before quotas: the preferred one, or else the first
-- candidate.
abbrev pub default_choice : String → List String → String
default_choice preferred candidates =
    if preferred == "" then head_or_empty candidates else preferred

-- The account that Select tries to give: the named one; or else the bound one; or else the default
-- one, in place of which, if it is known to be exhausted, the first one is taken that is known to be
-- usable.
abbrev pub IsTried : Pool → Lease → String → String → List String → ℕ → String → Type 0
IsTried p l preferred selector candidates now id =
    let bound = (p.heap l.entry).profile in
    let default = default_choice preferred candidates in
    ((selector ≢ "") × (id ≡ selector))
    ⊎ ((selector ≡ "") × (bound ≢ "") × (id ≡ bound))
    ⊎ ((selector ≡ "") × (bound ≡ "") × (known_quota p l default now ≢ exhausted) × (id ≡ default))
    ⊎ ((selector ≡ "")
        × (bound ≡ "")
        × (known_quota p l default now ≡ exhausted)
        × IsFirstUsable p l now candidates id)

choose_default :
    (p : Pool) (l : Lease) (old preferred selector : String) (candidates : List String) (now : ℕ)
    → old ≡ ""
    → selector ≡ ""
    → choose p l old preferred selector candidates now ≡ (
        if is_exhausted (known_quota p l (default_choice preferred candidates) now)
        then first_usable p l now candidates
        else default_choice preferred candidates)
unfolding choose first_choice
choose_default p l old preferred selector candidates now b s =
    subst₂
      (λ b s. choose p l b preferred s candidates now ≡ (
        if is_exhausted (known_quota p l (default_choice preferred candidates) now)
        then first_usable p l now candidates
        else default_choice preferred candidates))
      (sym b) (sym s) refl

choose-IsTried :
    (p : Pool) (l : Lease) (preferred selector : String) (candidates : List String) (now : ℕ)
    → IsTried p l preferred selector candidates now
        (choose p l (p.heap l.entry).profile preferred selector candidates now)
unfolding choose first_choice
choose-IsTried p l preferred selector candidates now =
    let bound = (p.heap l.entry).profile in
    let default = default_choice preferred candidates in
    elim (Bool-cases (selector == "")) [
      | inr s ↦ inl ((λ e. ground (arith, eq_iff selector "")), ground (arith, s))
      | inl s ↦
          let s' : selector ≡ "" = (eq_iff selector "").0 s in
          elim (Bool-cases (bound == "")) [
            | inr b ↦ inr (inl (s', (λ e. ground (arith, eq_iff bound "")), ground (arith, s, b)))
            | inl b ↦
                let b' : bound ≡ "" = (eq_iff bound "").0 b in
                let same = choose_default p l bound preferred selector candidates now b' s' in
                elim (exhausted_or_not (known_quota p l default now)) [
                  | inr (n, q) ↦ inr (inr (inl (s', b', n, same ∙ rw q refl)))
                  | inl (n, q) ↦ inr (
                      inr (
                        inr (
                          s',
                          b',
                          n,
                          subst (IsFirstUsable p l now candidates) (sym (same ∙ rw q refl))
                              (first_usable-IsFirstUsable p l now candidates),
                        )))
                ]
          ]
    ]

-- Tool history that the session's binding does not answer for: there is none, or the caller names
-- another account.
abbrev pub IsBroken : String → String → Bool → Type 0
IsBroken bound selector history =
    (history ≡ true) × ((bound ≡ "") ⊎ ((selector ≢ "") × (selector ≢ bound)))

breaks-IsBroken :
    (bound selector : String) (history : Bool)
    → breaks_continuity bound selector history ≡ true
    → IsBroken bound selector history
unfolding breaks_continuity
breaks-IsBroken bound selector history e =
    ground (arith, e, eq_iff bound "", eq_iff selector "", eq_iff selector bound)

unbroken :
    (bound selector : String) (history : Bool)
    → breaks_continuity bound selector history ≡ false
    → (history ≡ false) ⊎ ((bound ≢ "") × ((selector ≡ "") ⊎ (selector ≡ bound)))
unfolding breaks_continuity
unbroken bound selector history e =
    ground (arith, e, eq_iff bound "", eq_iff selector "", eq_iff selector bound)

-- Select tries the account that the caller names, or else the one that the session is bound to, or
-- else the preferred one or, without a preference, the first candidate; if that last one is known to
-- be exhausted, it tries the first candidate that is known to be usable. It fails with `continuity`
-- exactly if there is tool history and the session is unbound or the caller names another account
-- than the bound one; otherwise with `unavailable` exactly if the account that it tries is "" or no
-- candidate; and a failure leaves the pool. Otherwise it gives that account, binds the session to it
-- and leaves all else of the entries. The lease notes whether an account was named.
pub select_result :
    (p : Pool) (l : Lease) (preferred selector : String) (candidates : List String) (history : Bool)
    (now : ℕ)
    → let (r, l', q) = select p l preferred selector candidates history now in
      let bound = (p.heap l.entry).profile in
      (l' ≡ record l { explicit = not (selector == "") })
      × ((id : String) × (IsTried p l preferred selector candidates now id
            × ((IsBroken bound selector history × (r ≡ err continuity) × (q ≡ p))
                ⊎ (((history ≡ false) ⊎ ((bound ≢ "") × ((selector ≡ "") ⊎ (selector ≡ bound))))
                    × ((((id ≡ "") ⊎ (contains candidates id ≡ false))
                          × (r ≡ err unavailable)
                          × (q ≡ p))
                        ⊎ ((id ≢ "")
                            × (contains candidates id ≡ true)
                            × (r ≡ ok id)
                            × ((a : ℕ)
                                → q.heap a ≡ (
                                    if eqb l.entry a
                                    then record (p.heap a) { profile = id }
                                    else p.heap a))))))))
unfolding set_profile
select_result p l preferred selector candidates history now =
    let bound = (p.heap l.entry).profile in
    let id = choose p l bound preferred selector candidates now in
    let tried = choose-IsTried p l preferred selector candidates now in
    elim (select_cases p l preferred selector candidates history now) [
      | inl (b, e) ↦ (
        ap (λ t. t.1) e,
        (
          id,
          (tried, inl (breaks-IsBroken bound selector history b, ap (λ t. t.0) e, ap (λ t. t.2) e)),
        ),
      )
      | inr (inl (b, c, e)) ↦ (
        ap (λ t. t.1) e,
        (
          id,
          (
            tried,
            inr (unbroken bound selector history b, inl (c, ap (λ t. t.0) e, ap (λ t. t.2) e)),
          ),
        ),
      )
      | inr (inr (b, n, c, e)) ↦ (
        ap (λ t. t.1) e,
        (
          id,
          (
            tried,
            inr (
              unbroken bound selector history b,
              inr (n, c, ap (λ t. t.0) e, (λ a. rw e (ground arith))),
            ),
          ),
        ),
      )
    ]
