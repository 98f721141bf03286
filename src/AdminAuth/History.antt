-- ===== src/AdminAuth/History.antt =====
-- The sessions of internal/adminauth/session.go against the history of their operations: who is let in.
use codex_account_pool.Prelude.{
  ℕ, ◌+◌, ◌*◌, ◌≤◌, String, true, false, not, ◌≡◌, refl, ◌≢◌, ◌⊎◌, inl, inr, Option, none, some,
  List, [], ◌∷◌, arith, eq_iff, Bool-cases, lookup, retain, lookup-insert, lookup-erase, subst, sym,
  ap, ◌∙◌, ◌↔◌, some-injective, ne→eq_false, Distinct, keep_some, lookup-retain, retain-Distinct,
  insert-Distinct, erase-Distinct, ◌==◌, if◌then◌else◌,
}
use mathlib.Core.Path.{subst₂}
use codex_account_pool.AccountPool.{minute}
use codex_account_pool.AdminAuth.{
  Session, Sessions, matches_key, new_sessions, is_expired, prune_locked, login, logout,
  authenticate,
}

pub data Operation : Type 0 where
  logged_in : List ℕ → String → List ℕ → ℕ → ℕ → Operation
  logged_out : String → Operation
  asked : String → ℕ → Operation

unfoldable pub step : Sessions → Operation → Sessions
step s (logged_in candidate id csrf issued now) = (login s candidate id csrf issued now).1
step s (logged_out cookie) = logout s cookie
step s (asked cookie now) = (authenticate s cookie now).1

-- The sessions after a history, whose last operation stands first.
unfoldable pub after : List ℕ → List Operation → Sessions
after key [] = new_sessions key
after key (o ∷ os) = step (after key os) o

-- An operation leaves a session open: it is a login with the key that issues the session for the
-- given time, or the session was open before, the operation does not issue it anew or log it out, and
-- it has not expired if the operation looks at the sessions.
abbrev pub Leaves : List ℕ → ℕ → String → Session → Type 0 → Operation → Type 0
Leaves key ttl v s before (logged_in candidate id csrf issued now) =
    ((matches_key candidate key ≡ true)
      × (id ≡ v)
      × (s ≡ record { id = id; csrf_token = csrf; expires_at = issued + ttl }))
    ⊎ ((matches_key candidate key ≡ true) × (id ≢ v) × (now + 1 ≤ s.expires_at) × before)
    ⊎ ((matches_key candidate key ≡ false) × before)
Leaves key ttl v s before (logged_out cookie) = (cookie ≢ v) × before
Leaves key ttl v s before (asked cookie now) = ((cookie ≡ "") ⊎ (now + 1 ≤ s.expires_at)) × before

-- The open session of a cookie, by the history alone.
abbrev pub IsOpen : List ℕ → String → Session → List Operation → Type 0
IsOpen key v s [] = ⊥
IsOpen key v s (o ∷ os) = Leaves key (60 * minute) v s (IsOpen key v s os) o

key-after :
    (key : List ℕ) (os : List Operation)
    → ((after key os).key ≡ key) × ((after key os).ttl ≡ 60 * minute)
unfolding after step login logout authenticate prune_locked new_sessions
key-after key [] = (refl, refl)
key-after key (logged_in candidate id csrf issued now ∷ os) = ground (arith, key-after key os)
key-after key (logged_out cookie ∷ os) = ground (arith, key-after key os)
key-after key (asked cookie now ∷ os) = ground (arith, key-after key os)

-- The session under a cookie after an operation.
abbrev of_cookie : String → Sessions → Operation → Option Session
of_cookie v s (logged_in candidate id csrf issued now) =
    let session : Session = record { id = id; csrf_token = csrf; expires_at = issued + s.ttl } in
    if matches_key candidate s.key
    then (if id == v
        then some session
        else keep_some (λ x. not (is_expired now x)) (lookup v s.sessions))
    else lookup v s.sessions
of_cookie v s (logged_out cookie) = if cookie == v then none else lookup v s.sessions
of_cookie v s (asked cookie now) =
    if cookie == ""
    then lookup v s.sessions
    else keep_some (λ x. not (is_expired now x)) (lookup v s.sessions)

lookup-step :
    (v : String) (s : Sessions) (o : Operation)
    → v ≢ ""
    → Distinct s.sessions
    → lookup v (step s o).sessions ≡ of_cookie v s o
unfolding step login logout authenticate prune_locked
lookup-step v s (logged_in candidate id csrf issued now) n d =
    let session : Session = record { id = id; csrf_token = csrf; expires_at = issued + s.ttl } in
    let left = retain (λ k (x : Session). not (is_expired now x)) s.sessions in
    let h = lookup-retain (λ k (x : Session). not (is_expired now x)) v s.sessions d in
    let k = lookup-insert id v session left in
    elim (Bool-cases (matches_key candidate s.key)) [
      | inr e ↦ rw (e, step, login) refl
      | inl e ↦
          rw (e, step, login)
            (elim (Bool-cases (id == v)) [
              | inl f ↦ rw f (ground (arith, k, eq_iff id v, f))
              | inr f ↦ rw f (ground (arith, k, h, eq_iff id v, f))
            ])
    ]
lookup-step v s (logged_out cookie) n d =
    ground (arith, lookup-erase cookie v s.sessions, eq_iff cookie v, eq_iff cookie "")
lookup-step v s (asked cookie now) n d =
    let h = lookup-retain (λ k (x : Session). not (is_expired now x)) v s.sessions d in
    elim (Bool-cases (cookie == "")) [
      | inl e ↦ rw (e, step, authenticate) refl
      | inr e ↦ rw (e, step, authenticate) h
    ]

step-Distinct : (s : Sessions) (o : Operation) → Distinct s.sessions → Distinct (step s o).sessions
unfolding step login logout authenticate prune_locked
step-Distinct s (logged_in candidate id csrf issued now) d =
    let session : Session = record { id = id; csrf_token = csrf; expires_at = issued + s.ttl } in
    let left = retain (λ k (x : Session). not (is_expired now x)) s.sessions in
    let h = retain-Distinct (λ k (x : Session). not (is_expired now x)) s.sessions d in
    elim (Bool-cases (matches_key candidate s.key)) [
      | inr e ↦ rw (e, step, login) d
      | inl e ↦ rw (e, step, login) (insert-Distinct id session left h)
    ]
step-Distinct s (logged_out cookie) d = elim (Bool-cases (cookie == "")) [
  | inl e ↦ rw (e, step, logout) d
  | inr e ↦ rw (e, step, logout) (erase-Distinct cookie s.sessions d)
]
step-Distinct s (asked cookie now) d = elim (Bool-cases (cookie == "")) [
  | inl e ↦ rw (e, step, authenticate) d
  | inr e ↦
      rw (e, step, authenticate)
        (retain-Distinct (λ k (x : Session). not (is_expired now x)) s.sessions d)
]

after-Distinct : (key : List ℕ) (os : List Operation) → Distinct (after key os).sessions
unfolding after new_sessions
after-Distinct key [] = tt
after-Distinct key (o ∷ os) = step-Distinct (after key os) o (after-Distinct key os)

live : (now : ℕ) (s : Session) → is_expired now s ≡ false → now + 1 ≤ s.expires_at
unfolding is_expired
live now s e = ground (arith, e)

live_back : (now : ℕ) (s : Session) → now + 1 ≤ s.expires_at → is_expired now s ≡ false
unfolding is_expired
live_back now s e = ground (arith, e)

kept :
    (now : ℕ) (s : Session) (o : Option Session)
    → keep_some (λ x. not (is_expired now x)) o ≡ some s
    → (o ≡ some s) × (now + 1 ≤ s.expires_at)
kept now s none e = ground arith
kept now s (some x) e = elim (Bool-cases (is_expired now x)) [
  | inl t ↦ ground (arith, t)
  | inr t ↦
      let same : some x ≡ some s = ground (arith, t) in
      (same, live now s (subst (λ y. is_expired now y ≡ false) (some-injective same) t))
]

kept_back :
    (now : ℕ) (s : Session) (o : Option Session)
    → o ≡ some s
    → now + 1 ≤ s.expires_at
    → keep_some (λ x. not (is_expired now x)) o ≡ some s
kept_back now s o e f = rw (e, live_back now s f) refl

module _ (v : String) (s : Session) (S : Sessions) (T : Type 0) where
  of_cookie-Leaves :
      (o : Operation)
      → v ≢ ""
      → (lookup v S.sessions ≡ some s → T)
      → of_cookie v S o ≡ some s
      → Leaves S.key S.ttl v s T o
  of_cookie-Leaves (logged_in candidate id csrf issued now) n h =
      elim (Bool-cases (matches_key candidate S.key)) [
        | inr e ↦ rw e (λ g. inr (inr (refl, h g)))
        | inl e ↦ rw e (elim (Bool-cases (id == v)) [
          | inl f ↦ rw f (λ g. inl (refl, (eq_iff id v).0 f, sym (some-injective g)))
          | inr f ↦ rw f (λ g.
              let k = kept now s (lookup v S.sessions) g in
              inr (inl (refl, (λ q. ground (arith, eq_iff id v, f)), k.1, h k.0)))
        ])
      ]
  of_cookie-Leaves (logged_out cookie) n h = elim (Bool-cases (cookie == v)) [
    | inl e ↦ rw e (λ g. ground arith)
    | inr e ↦ rw e (λ g. ((λ q. ground (arith, eq_iff cookie v, e)), h g))
  ]
  of_cookie-Leaves (asked cookie now) n h = elim (Bool-cases (cookie == "")) [
    | inl e ↦ rw e (λ g. (inl ((eq_iff cookie "").0 e), h g))
    | inr e ↦ rw e (λ g. let k = kept now s (lookup v S.sessions) g in (inr k.1, h k.0))
  ]

  Leaves-of_cookie :
      (o : Operation)
      → v ≢ ""
      → (T → lookup v S.sessions ≡ some s)
      → Leaves S.key S.ttl v s T o
      → of_cookie v S o ≡ some s
  Leaves-of_cookie (logged_in candidate id csrf issued now) n h (inl (e, f, g)) =
      rw (e, (eq_iff id v).1 f) (ap some (sym g))
  Leaves-of_cookie (logged_in candidate id csrf issued now) n h (inr (inl (e, f, g, t))) =
      rw (e, ne→eq_false id v f) (kept_back now s (lookup v S.sessions) (h t) g)
  Leaves-of_cookie (logged_in candidate id csrf issued now) n h (inr (inr (e, t))) = rw e (h t)
  Leaves-of_cookie (logged_out cookie) n h (f, t) = rw (ne→eq_false cookie v f) (h t)
  Leaves-of_cookie (asked cookie now) n h (inl e, t) = rw ((eq_iff cookie "").1 e) (h t)
  Leaves-of_cookie (asked cookie now) n h (inr e, t) = elim (Bool-cases (cookie == "")) [
    | inl f ↦ rw f (h t)
    | inr f ↦ rw f (kept_back now s (lookup v S.sessions) (h t) e)
  ]

-- What a cookie finds is the session that the history leaves open for it.
lookup-after :
    (key : List ℕ) (v : String) (s : Session) (os : List Operation)
    → v ≢ ""
    → (lookup v (after key os).sessions ≡ some s → IsOpen key v s os)
      × (IsOpen key v s os → lookup v (after key os).sessions ≡ some s)
unfolding after new_sessions lookup
lookup-after key v s [] n = ((λ e. ground arith), (λ x. ground arith))
lookup-after key v s (o ∷ os) n =
    let S = after key os in
    let (k, t) = key-after key os in
    let h = lookup-step v S o n (after-Distinct key os) in
    let ih = lookup-after key v s os n in
    let T = IsOpen key v s os in
    (
      λ e. subst₂ (λ k t. Leaves k t v s T o) k t (of_cookie-Leaves v s S T o n ih.0 (sym h ∙ e)),
      λ e.
          h
          ∙ Leaves-of_cookie v s S T o n ih.1
              (subst₂ (λ k t. Leaves k t v s T o) (sym k) (sym t) e),
    )

-- Authenticate lets a cookie in with a session exactly when the cookie is not empty, the history of
-- the operations leaves that session open for it, and the session has not expired: a login with the
-- key issued it, for one hour, and no later operation issued it anew, logged it out or saw it expired.
pub authenticate-IsOpen :
    (key : List ℕ) (v : String) (s : Session) (os : List Operation) (now : ℕ)
    → ((authenticate (after key os) v now).0 ≡ some s)
      ↔ ((v ≢ "") × (now + 1 ≤ s.expires_at) × IsOpen key v s os)
unfolding authenticate prune_locked
authenticate-IsOpen key v s os now =
    let S = after key os in
    let h =
      lookup-retain (λ k (x : Session). not (is_expired now x)) v S.sessions
        (after-Distinct key os) in
    elim (Bool-cases (v == "")) [
      | inl e ↦ rw e ((λ g. ground arith), (λ g. ground (arith, eq_iff v "", g.0)))
      | inr e ↦
          let n : v ≢ "" = (λ q. ground (arith, eq_iff v "", e)) in
          rw e (
            (λ g.
                let k = kept now s (lookup v S.sessions) (sym h ∙ g) in
                (n, k.1, (lookup-after key v s os n).0 k.0)),
            (λ g.
                h ∙ kept_back now s (lookup v S.sessions) ((lookup-after key v s os n).1 g.2) g.1),
          )
    ]
