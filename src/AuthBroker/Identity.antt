-- ===== src/AuthBroker/Identity.antt =====
-- Whose credentials CredentialsForProfile and ForceRefresh of internal/authbroker/broker.go return.
use codex_account_pool.Prelude.{
  ℕ, String, false, ◌≡◌, refl, ◌⊎◌, inl, inr, Option, none, some, arith, Result, ok, err,
  Result-cases, Option-cases, Bool-cases, is_blank,
}
use codex_account_pool.AuthBroker.{
  World, AuthFile, Fault, Credentials, Payload, load_profile, credentials_from, refresh, reload,
  refresh_locked, with_lock, credentials_for_profile, force_locked, force_refresh,
  token_needs_refresh, require_registered, coded, temporarily_unavailable,
}
use codex_account_pool.AuthBroker.Refresh.{Keeps, Keeps-refl, refresh_lem}

-- The credentials are those in the profile's own file.
pub record AreStored (id : String) (c : Credentials) (v : World) : Type 0 where
  pub own : c.profile_id ≡ id
  pub file : AuthFile
  pub loaded : load_profile v id ≡ ok file
  pub same_token : c.access_token ≡ file.tokens.access_token
  pub same_account : c.account_id ≡ file.tokens.account_id
  pub has_token : is_blank c.access_token ≡ false
  pub has_account : is_blank c.account_id ≡ false

-- The outcome of work on one profile that began in the world `w`.
pub record Outcome (id : String) (w : World) (r : Result Fault Credentials × World) : Type 0 where
  pub keeps : Keeps id w r.1
  pub stored : (c : Credentials) → r.0 ≡ ok c → AreStored id c r.1

credentials_from-AreStored :
    (id : String) (doc : AuthFile) (c : Credentials) (v : World)
    → load_profile v id ≡ ok doc
    → credentials_from id doc ≡ ok c
    → AreStored id c v
unfolding credentials_from
credentials_from-AreStored id doc c v l e = record {
  own = ground arith;
  file = doc;
  loaded = l;
  same_token = ground arith;
  same_account = ground arith;
  has_token = ground arith;
  has_account = ground arith;
}

module _ (decode : String → Option Payload) (id : String) (w : World) where
  failed-Outcome : (f : Fault) (v : World) → Keeps id w v → Outcome id w (err f, v)
  failed-Outcome f v k = record { keeps = k; stored = λ c e. absurd (ground arith) }

  from-Outcome :
      (doc : AuthFile) (v : World)
      → Keeps id w v
      → load_profile v id ≡ ok doc
      → Outcome id w (credentials_from id doc, v)
  from-Outcome doc v k l = record {
    keeps = k;
    stored = λ c e. credentials_from-AreStored id doc c v l e;
  }

  reload-Outcome :
      (f : Option Fault) (v : World) → Keeps id w v → Outcome id w (reload decode id (f, v))
  unfolding reload
  reload-Outcome (some f) v k = failed-Outcome f v k
  reload-Outcome none v k = elim (Result-cases (load_profile v id)) [
    | inl (doc, l) ↦ rw (l, reload) (from-Outcome doc v k l)
    | inr (f, l) ↦ rw (l, reload) (failed-Outcome f v k)
  ]

module _ (decode : String → Option Payload) (id : String) (now : ℕ) where
  refresh-Outcome :
      (w : World) (doc : AuthFile) → Outcome id w (reload decode id (refresh decode w id doc))
  refresh-Outcome w doc =
      let (f, v) = refresh decode w id doc in
      reload-Outcome decode id w f v (refresh_lem decode w id doc).0

  refresh_locked-Outcome : (w : World) → Outcome id w (refresh_locked decode w id now)
  unfolding refresh_locked
  refresh_locked-Outcome w = elim (Result-cases (load_profile w id)) [
    | inr (f, l) ↦ rw (l, refresh_locked) (failed-Outcome decode id w f w (Keeps-refl id w))
    | inl (doc, l) ↦ elim (Bool-cases (token_needs_refresh decode doc.tokens.access_token now)) [
      | inl t ↦ rw (l, refresh_locked, t) (refresh-Outcome w doc)
      | inr t ↦ rw (l, refresh_locked, t) (from-Outcome decode id w doc w (Keeps-refl id w) l)
    ]
  ]

  force_locked-Outcome : (w : World) → Outcome id w (force_locked decode w id)
  unfolding force_locked
  force_locked-Outcome w = elim (Result-cases (load_profile w id)) [
    | inr (f, l) ↦ rw (l, force_locked) (failed-Outcome decode id w f w (Keeps-refl id w))
    | inl (doc, l) ↦ rw (l, force_locked) (refresh-Outcome w doc)
  ]

-- The world in which the call works: the caller's, or the one that the lock brings.
abbrev pub IsBase : Option (World → World) → World → World → Type 0
IsBase waited w base =
    (base ≡ w) ⊎ ((others : World → World) × (waited ≡ some others) × (base ≡ others w))

-- CredentialsForProfile returns only the credentials in the profile's own file, which are not
-- blank. Beside what other writers do while it waits for the lock, it leaves the other profiles'
-- files, the registry and the route alone, and the profile's file names the same account.
pub credentials-Outcome :
    (decode : String → Option Payload) (waited : Option (World → World)) (id : String) (now : ℕ)
    (w : World)
    → (base : World) × IsBase waited w base
      × Outcome id base (credentials_for_profile decode waited id now w)
unfolding credentials_for_profile with_lock
credentials-Outcome decode waited id now w = elim (Option-cases (require_registered w id)) [
  | inr (f, r) ↦ (
    w,
    inl refl,
    rw (r, credentials_for_profile) (failed-Outcome decode id w f w (Keeps-refl id w)),
  )
  | inl r ↦ elim (Result-cases (load_profile w id)) [
    | inr (f, l) ↦ (
      w,
      inl refl,
      rw (r, credentials_for_profile, l) (failed-Outcome decode id w f w (Keeps-refl id w)),
    )
    | inl (doc, l) ↦ elim (Bool-cases (token_needs_refresh decode doc.tokens.access_token now)) [
      | inr t ↦ (
        w,
        inl refl,
        rw (r, credentials_for_profile, l, t) (from-Outcome decode id w doc w (Keeps-refl id w) l),
      )
      | inl t ↦ elim (Option-cases waited) [
        | inl n ↦ (
          w,
          inl refl,
          rw (r, credentials_for_profile, l, t, n)
              (failed-Outcome decode id w (coded temporarily_unavailable) w (Keeps-refl id w)),
        )
        | inr (others, n) ↦ (
          others w,
          inr (others, n, refl),
          rw (r, credentials_for_profile, l, t, n)
              (refresh_locked-Outcome decode id now (others w)),
        )
      ]
    ]
  ]
]

-- ForceRefresh asks the authority whatever the token's expiry, and returns what the file then holds.
pub force_refresh-Outcome :
    (decode : String → Option Payload) (waited : Option (World → World)) (id : String) (w : World)
    → (base : World) × IsBase waited w base × Outcome id base (force_refresh decode waited id w)
unfolding force_refresh with_lock
force_refresh-Outcome decode waited id w = elim (Option-cases (require_registered w id)) [
  | inr (f, r) ↦
      (w, inl refl, rw (r, force_refresh) (failed-Outcome decode id w f w (Keeps-refl id w)))
  | inl r ↦ elim (Option-cases waited) [
    | inl n ↦ (
      w,
      inl refl,
      rw (r, force_refresh, n)
          (failed-Outcome decode id w (coded temporarily_unavailable) w (Keeps-refl id w)),
    )
    | inr (others, n) ↦ (
      others w,
      inr (others, n, refl),
      rw (r, force_refresh, n) (force_locked-Outcome decode id 0 (others w)),
    )
  ]
]
