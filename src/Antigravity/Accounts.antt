-- ===== src/Antigravity/Accounts.antt =====
-- internal/antigravity/accounts.go: the lease of an account for a request, over the account pool, the
-- replay cache and the broker of credentials. The broker and its world `S` are parameters, and so are
-- the probe of a quota and the readings of the clock. What other requests do to the pool between two
-- critical sections is left out.
pub mod Leases
pub mod Affinity
pub mod Failover
pub mod Tests
use codex_account_pool.Prelude.{
  ℕ, String, Bool, true, false, not, ◌||◌, Option, none, some, List, [], ◌∷◌, ◌++◌, Result, ok, err,
  Dict, lookup, insert, if◌then◌else◌, ◌==◌,
}
use codex_account_pool.AccountPool.{
  Error, Quota, unknown, usable, exhausted, unavailable, Pool, Lease, acquire, release, select,
  restore_profile, set_model, observe_quota, can_probe_failover, alternate, is_usable,
}
use codex_account_pool.Antigravity.Replay.{ReplayCache, session_profile}

-- Credentials of internal/antigravityauth/broker.go
pub record Credentials : Type 0 where
  pub profile_id : String
  pub access_token : String
  pub project_id : String

abbrev pub no_credentials : Credentials
no_credentials = record { profile_id = ""; access_token = ""; project_id = "" }

pub data Refusal : Type 0 where
  by_pool : Error → Refusal
  by_broker : String → Refusal

-- A broker of several accounts: Accounts and CredentialsFor. Or one of a single account:
-- Credentials, and CandidateCredentials if it has that.
pub data CredentialProvider (S : Type 0) : Type 0 where
  of_accounts :
      (S → Result String (String × List String) × S)
      → (String → S → Result String Credentials × S)
      → CredentialProvider S
  of_one :
      (S → Result String Credentials × S)
      → Option (String → S → List Credentials × S)
      → CredentialProvider S

pub record AccountLease : Type 0 where
  pub policy : Lease
  pub ids : List String
  pub fallback : Dict Credentials
  pub history : Bool

-- The accounts that the broker lists, with the preferred one.
pub record Listing : Type 0 where
  pub preferred : String
  pub ids : List String
  pub fallback : Dict Credentials

pub record Client (S : Type 0) : Type 0 where
  pub pool : Pool
  pub replay : ReplayCache
  pub broker : S

-- The candidates after the current account.
unfoldable pub add_candidates : Listing → List Credentials → Listing
add_candidates l [] = l
add_candidates l (c ∷ cs) =
    add_candidates
      (record l { ids = l.ids ++ c.profile_id ∷ []; fallback = insert c.profile_id c l.fallback })
      cs

unfoldable pub listing_of_one : Credentials → Listing
listing_of_one c = record {
  preferred = c.profile_id;
  ids = c.profile_id ∷ [];
  fallback = (c.profile_id, c) ∷ [];
}

abbrev pub or_unavailable : Option Credentials → Result Refusal Credentials
or_unavailable none = err (by_pool unavailable)
or_unavailable (some c) = ok c

abbrev pub from_broker : Result String Credentials → Result Refusal Credentials
from_broker (ok c) = ok c
from_broker (err e) = err (by_broker e)

module _ {S : Type 0} where
  unfoldable pub listed : Result String (String × List String) → S → Result String Listing × S
  listed (err e) s = (err e, s)
  listed (ok r) s = (ok (record { preferred = r.0; ids = r.1; fallback = [] }), s)

  unfoldable pub listed_one :
      Option (String → S → List Credentials × S)
      → Result String Credentials
      → S
      → Result String Listing × S
  listed_one candidates (err e) s = (err e, s)
  listed_one none (ok c) s = (ok (listing_of_one c), s)
  listed_one (some candidates) (ok c) s =
      let r = candidates c.profile_id s in (ok (add_candidates (listing_of_one c) r.0), r.1)

  unfoldable pub list_accounts : CredentialProvider S → S → Result String Listing × S
  list_accounts (of_accounts accounts credentials) s = let r = accounts s in listed r.0 r.1
  list_accounts (of_one current candidates) s = let r = current s in listed_one candidates r.0 r.1

  -- credentials of accountLease
  unfoldable pub credentials :
      CredentialProvider S → Dict Credentials → String → S → Result Refusal Credentials × S
  credentials (of_accounts accounts source) fallback id s =
      let r = source id s in (from_broker r.0, r.1)
  credentials (of_one current candidates) fallback id s = (or_unavailable (lookup id fallback), s)

  -- policy.Release() before an error is returned.
  unfoldable pub give_up :
      Lease → ℕ → Client S → Refusal → Result Refusal (AccountLease × Credentials) × Client S
  give_up l now c e = (err e, record c { pool = release c.pool l now })

-- What a request asks for.
pub record Request : Type 0 where
  pub session : String
  pub model : String
  pub selector : String
  pub history : Bool

-- The restored binding of the session, if the replay cache has one.
unfoldable pub restore : Option String → Pool → Lease → Option Error × Pool
restore none p l = (none, p)
restore (some profile) p l = restore_profile p l profile

-- The readings of the clock in acquireAccount: in Acquire, SessionProfile, Select and Release.
pub record Times : Type 0 where
  pub acquired : ℕ
  pub restored : ℕ
  pub selected : ℕ
  pub released : ℕ

module _ {S : Type 0} (provider : CredentialProvider S) (r : Request) (t : Times) where
  unfoldable pub with_credentials :
      AccountLease
      → Client S
      → Result Refusal Credentials
      → Result Refusal (AccountLease × Credentials) × Client S
  with_credentials l c (err e) = give_up l.policy t.released c e
  with_credentials l c (ok k) = (ok (l, k), c)

  unfoldable pub with_choice :
      AccountLease
      → Client S
      → Result Error String
      → Result Refusal (AccountLease × Credentials) × Client S
  with_choice l c (err e) = give_up l.policy t.released c (by_pool e)
  with_choice l c (ok id) =
      let k = credentials provider l.fallback id c.broker in
      with_credentials l (record c { broker = k.1 }) k.0

  unfoldable pub with_listing :
      Lease
      → Client S
      → Result String Listing
      → Result Refusal (AccountLease × Credentials) × Client S
  with_listing l c (err e) = give_up l t.released c (by_broker e)
  with_listing l c (ok a) =
      let chosen = select c.pool l a.preferred r.selector a.ids r.history t.selected in
      let lease : AccountLease = record {
        policy = chosen.1;
        ids = a.ids;
        fallback = a.fallback;
        history = r.history;
      } in
      with_choice lease (record c { pool = chosen.2 }) chosen.0

  unfoldable pub with_restored :
      Lease → Client S → Option Error → Result Refusal (AccountLease × Credentials) × Client S
  with_restored l c (some e) = give_up l t.released c (by_pool e)
  with_restored l c none =
      let a = list_accounts provider c.broker in
      with_listing (set_model l r.model) (record c { broker = a.1 }) a.0

  unfoldable pub with_lease :
      Lease → Client S → Result Refusal (AccountLease × Credentials) × Client S
  with_lease l c =
      let found = session_profile c.replay r.model r.session t.restored in
      let bound = restore found.0 c.pool l in
      with_restored l (record c { pool = bound.1; replay = found.1 }) bound.0

  unfoldable pub after_acquire :
      Client S
      → Option (Result Error Lease × Pool)
      → Option (Result Refusal (AccountLease × Credentials) × Client S)
  after_acquire c none = none
  after_acquire c (some (err e, p)) = some (err (by_pool e), record c { pool = p })
  after_acquire c (some (ok l, p)) = some (with_lease l (record c { pool = p }))

  -- `none`: Acquire blocks.
  unfoldable pub acquire_account :
      Client S → Bool → Option (Result Refusal (AccountLease × Credentials) × Client S)
  acquire_account c done =
      after_acquire c (acquire c.pool "google-antigravity" r.session done t.acquired)

-- What the probes of failover change.
pub record Probing (S : Type 0) : Type 0 where
  pub pool : Pool
  pub broker : S
  pub chosen : Credentials

-- The probe of a quota, whether the deadline of the probes has passed, and the clock.
module _ {S : Type 0} (provider : CredentialProvider S)
    (probe : Credentials → String → S → Quota × S) (expired : S → Bool) (time : S → ℕ)
    (model : String) (l : AccountLease) where
  unfoldable pub probe_credentials :
      String → Probing S → Result Refusal Credentials → Quota × Probing S
  probe_credentials id w (err e) = (unknown, w)
  probe_credentials id w (ok k) =
      let state = probe k model w.broker in
      (
        state.0,
        record {
          pool = observe_quota w.pool l.policy id state.0 (time state.1);
          broker = state.1;
          chosen = if is_usable state.0 then k else w.chosen;
        },
      )

  -- The function that Alternate asks.
  unfoldable pub probe_account : String → Probing S → Quota × Probing S
  probe_account id w =
      let k = credentials provider l.fallback id w.broker in
      if expired w.broker
      then (unknown, w)
      else probe_credentials id (record w { broker = k.1 }) k.0

  unfoldable pub probe_alternates : Quota → Probing S → String × Lease × Probing S
  probe_alternates current w =
      alternate (w.pool.heap l.policy.entry).profile l.policy current l.ids l.history probe_account
        w

  -- failover: the credentials, whether there are any, and what it leaves.
  unfoldable pub failover : Credentials → Pool → S → Credentials × Bool × AccountLease × Pool × S
  failover current p s =
      let state = probe current model s in
      let w : Probing S = record {
        pool = observe_quota p l.policy current.profile_id state.0 (time state.1);
        broker = state.1;
        chosen = no_credentials;
      } in
      let found = probe_alternates state.0 w in
      if l.history || not (can_probe_failover l.policy) then (no_credentials, false, l, p, s) else (
        found.2.chosen,
        not (found.0 == ""),
        record l { policy = found.1 },
        found.2.pool,
        found.2.broker,
      )
