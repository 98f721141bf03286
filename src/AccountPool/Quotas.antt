-- ===== src/AccountPool/Quotas.antt =====
-- The observations of quotas in internal/accountpool/pool.go: ObserveQuota and knownQuota.
use codex_account_pool.Prelude.{
  ◌==◌, eq_iff, ℕ, ◌+◌, ◌*◌, ◌≤◌, ◌<◌, String, false, not, ◌≡◌, refl, ◌≢◌, ◌⊎◌, sym, inl, inr, none,
  some, [], ◌∷◌, if◌then◌else◌, leb, arith, eq_refl, ne→eq_false, Dict, lookup, length,
  length-retain-le, length-insert-le, length-insert_old, length-erase-lt, lookup-insert,
  lookup-erase, lookup-retain_inv, Option-cases, Entries, Distinct, Distinct-lookup,
  retain-Distinct, erase-Distinct, insert-Distinct, Bool-cases,
}
use codex_account_pool.AccountPool.{
  Pool, Lease, Quota, QuotaObservation, unknown, usable, exhausted, minute, quota_key, known_quota,
  oldest_quota, make_room, store_quota, observe_quota, is_none, live_quota, is_full, read_quota,
}

-- The loop for the observation that expires first names a key of the table.
oldest_quota-found :
    (all m : Dict QuotaObservation) (oldest : String)
    → lookup oldest all ≢ none
    → Entries (λ k q. lookup k all ≡ some q) m
    → lookup (oldest_quota all oldest m) all ≢ none
unfolding oldest_quota
oldest_quota-found all [] oldest n e = n
oldest_quota-found all ((k, q) ∷ m) oldest n e = oldest_quota-found all m _ (ground arith) e.1

oldest_quota-start :
    (all m : Dict QuotaObservation)
    → 0 < length m
    → Entries (λ k q. lookup k all ≡ some q) m
    → lookup (oldest_quota all "" m) all ≢ none
unfolding oldest_quota
oldest_quota-start all ((k, q) ∷ m) h e = oldest_quota-found all m k (ground arith) e.1
oldest_quota-start all [] h e = absurd (omega arith)

-- The table of a pool whose bound is positive.
pub record IsQuotaTable (p : Pool) : Type 0 where
  pub positive : 0 < p.max
  pub distinct : Distinct p.quota
  pub fits : length p.quota ≤ p.max * 4

module _ {p : Pool} (t : IsQuotaTable p) (now : ℕ) where
  abbrev live : Dict QuotaObservation
  live = live_quota p now

  live-Distinct : Distinct live
  unfolding live_quota
  live-Distinct = retain-Distinct _ p.quota t.distinct

  length-live : length live ≤ p.max * 4
  unfolding live_quota
  length-live = omega (arith, t.fits, length-retain-le _ p.quota)

  make_room-Distinct : (key : String) → Distinct (make_room p key now)
  unfolding make_room
  make_room-Distinct key = elim (Bool-cases (is_full p key live)) [
    | inl e ↦ rw e (erase-Distinct (oldest_quota live "" live) live live-Distinct)
    | inr e ↦ rw e live-Distinct
  ]

  -- There is room for one more, or the key has its place.
  make_room_fits :
      (key : String)
      → (length (make_room p key now) < p.max * 4)
        ⊎ ((length (make_room p key now) ≤ p.max * 4) × (lookup key (make_room p key now) ≢ none))
  unfolding make_room is_full is_none
  make_room_fits key = elim (Bool-cases (is_full p key live)) [
    | inl e ↦
        let found =
          oldest_quota-start live live (ground (arith, t.positive))
            (Distinct-lookup live live-Distinct) in
        rw e
          (inl (omega (arith, length-live, length-erase-lt (oldest_quota live "" live) live found)))
    | inr e ↦ rw e (ground (arith, length-live))
  ]

  -- An entry of the new table was in the old one and has not expired.
  make_room_from :
      (key k : String) (q : QuotaObservation)
      → lookup k (make_room p key now) ≡ some q
      → (lookup k p.quota ≡ some q) × (leb q.expires now ≡ false)
  unfolding make_room live_quota
  make_room_from key k q h =
      let f = λ (k : String) (q : QuotaObservation). not (leb q.expires now) in
      let kept : lookup k live ≡ some q =
        ground (arith, lookup-erase (oldest_quota live "" live) k live) in
      let r = lookup-retain_inv f k q p.quota t.distinct kept in (r.0, ground arith)

module _ (p : Pool) (l : Lease) (profile : String) (state : Quota) (now : ℕ)
    (t : IsQuotaTable p) where
  abbrev key : String
  key = quota_key l profile

  abbrev observation : QuotaObservation
  observation = record { state = state; expires = now + minute }

  store_quota-IsQuotaTable : IsQuotaTable (store_quota p l profile state now)
  unfolding store_quota
  store_quota-IsQuotaTable = record {
    positive = t.positive;
    distinct = insert-Distinct key observation (make_room p key now) (make_room-Distinct t now key);
    fits = elim (make_room_fits t now key) [
      | inl few ↦ omega (arith, few, length-insert-le key observation (make_room p key now))
      | inr (few, old) ↦
          omega (arith, few, length-insert_old key observation (make_room p key now) old)
    ];
  }

  known_quota-store_self :
      (later : ℕ)
      → known_quota (store_quota p l profile state now) l profile later
        ≡ (if leb (now + minute) later then unknown else state)
  unfolding store_quota known_quota read_quota
  known_quota-store_self later =
      rw (lookup-insert key key observation (make_room p key now), eq_refl key) refl

  known_quota-store_ne :
      (m : Lease) (other : String) (later : ℕ)
      → quota_key m other ≢ quota_key l profile
      → (known_quota (store_quota p l profile state now) m other later
          ≡ known_quota p m other later)
        ⊎ (known_quota (store_quota p l profile state now) m other later ≡ unknown)
  unfolding store_quota known_quota read_quota
  known_quota-store_ne m other later n =
      rw
        (
          lookup-insert key (quota_key m other) observation (make_room p key now),
          ne→eq_false key (quota_key m other) (λ e. n (sym e)),
        )
        (elim (Option-cases (lookup (quota_key m other) (make_room p key now))) [
          | inl e ↦ inr (rw e refl)
          | inr (q, e) ↦ inl (rw (e, (make_room_from t now key (quota_key m other) q e).0) refl)
        ])

-- The table stays distinct and within four times the pool's bound, whatever is observed.
pub observe_quota-IsQuotaTable :
    (p : Pool) (l : Lease) (profile : String) (state : Quota) (now : ℕ)
    → IsQuotaTable p
    → IsQuotaTable (observe_quota p l profile state now)
unfolding observe_quota store_quota
observe_quota-IsQuotaTable p l profile unknown now t = t
observe_quota-IsQuotaTable p l profile usable now t =
    store_quota-IsQuotaTable p l profile usable now t
observe_quota-IsQuotaTable p l profile exhausted now t =
    store_quota-IsQuotaTable p l profile exhausted now t

-- What is known for a key after an observation under one key.
known_quota-store :
    (p : Pool) (l m : Lease) (profile other : String) (state : Quota) (now later : ℕ)
    → IsQuotaTable p
    → let q = store_quota p l profile state now in
      (known_quota q l profile later ≡ (if leb (now + minute) later then unknown else state))
      × ((quota_key m other ≡ quota_key l profile)
          ⊎ (known_quota q m other later ≡ known_quota p m other later)
          ⊎ (known_quota q m other later ≡ unknown))
known_quota-store p l m profile other state now later t = (
  known_quota-store_self p l profile state now t later,
  elim (Bool-cases (quota_key m other == quota_key l profile)) [
    | inl e ↦ inl ((eq_iff (quota_key m other) (quota_key l profile)).0 e)
    | inr e ↦
        let ne : quota_key m other ≢ quota_key l profile =
          λ same. ground (arith, eq_iff (quota_key m other) (quota_key l profile)) in
        inr (known_quota-store_ne p l profile state now t m other later ne)
  ],
)

-- After an observation of a known state the pool answers it for that provider, model and account
-- for one minute, and then `unknown`; an observation of `unknown` changes nothing. For any other
-- key the pool answers what it answered before, or `unknown`: it makes up no evidence.
pub known_quota-observe :
    (p : Pool) (l m : Lease) (profile other : String) (state : Quota) (now later : ℕ)
    → IsQuotaTable p
    → let q = observe_quota p l profile state now in
      ((state ≡ unknown) × (q ≡ p))
      ⊎ ((state ≢ unknown)
          × (known_quota q l profile later ≡ (if leb (now + minute) later then unknown else state))
          × ((quota_key m other ≡ quota_key l profile)
              ⊎ (known_quota q m other later ≡ known_quota p m other later)
              ⊎ (known_quota q m other later ≡ unknown)))
unfolding observe_quota
known_quota-observe p l m profile other unknown now later t = inl (refl, refl)
known_quota-observe p l m profile other usable now later t =
    let (self, others) = known_quota-store p l m profile other usable now later t in
    inr ((λ e. cc), self, others)
known_quota-observe p l m profile other exhausted now later t =
    let (self, others) = known_quota-store p l m profile other exhausted now later t in
    inr ((λ e. cc), self, others)
