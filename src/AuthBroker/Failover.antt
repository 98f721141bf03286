-- ===== src/AuthBroker/Failover.antt =====
-- Broker.Failover of internal/authbroker/broker.go: the route to another Codex profile when one has
-- reached its usage limit. Credentials come through an interface, which CredentialsForProfile fills.
pub mod Ring
pub mod Walk
pub mod Registered
pub mod Outcome
pub mod Supply
use codex_account_pool.Prelude.{
  ℕ, zero, suc, ◌+◌, ◌-◌, ◌%◌, String, Bool, true, false, not, ◌&&◌, ◌≡◌, Option, none, some, List,
  [], ◌∷◌, map, Result, ok, err, Dict, lookup, insert, retain, ltb, leb, if◌then◌else◌, ◌==◌,
  length, keep,
}
use codex_account_pool.Profile
use codex_account_pool.Profile.{Registry, Profile}
use codex_account_pool.AuthBroker.{
  World, Fault, no_usable, all_limited, no_alternate, load_failed, use_failed, save_failed,
  Credentials, hour,
}

-- What Failover uses of the source of credentials.
pub record Source : Type 0 where
  pub fetch : String → World → Result Fault Credentials × World
  pub own :
      (id : String) (w v : World) (c : Credentials) → fetch id w ≡ (ok c, v) → c.profile_id ≡ id
  pub same_route : (id : String) (w : World) → (fetch id w).1.exhausted ≡ w.exhausted
  pub same_registry : (id : String) (w : World) → (fetch id w).1.registry ≡ w.registry

-- The route's map with its expired marks dropped and the profile marked until the reset, or for an
-- hour if the reset is not ahead.
unfoldable pub mark_exhausted : Dict ℕ → String → ℕ → ℕ → Dict ℕ
mark_exhausted marks id reset_at now =
    insert id (if leb reset_at now then now + hour else reset_at)
      (retain (λ j (until : ℕ). not (leb until now)) marks)

unfoldable pub is_blocked : Dict ℕ → String → ℕ → Bool
is_blocked marks id now = elim (lookup id marks) [ none ↦ false | some until ↦ ltb now until ]

unfoldable pub codex_ids : Registry → List String
codex_ids r =
    map (λ (p : Profile). p.id)
      (keep (λ (p : Profile). p.provider == Profile.provider_codex) (Profile.sorted_profiles r))

-- The position of the first id that is the exhausted one, or 0.
unfoldable pub position : String → List String → Option ℕ
position id [] = none
position id (c ∷ cs) =
    if c == id then some 0 else elim (position id cs) [ none ↦ none | some i ↦ some (suc i) ]

abbrev pub or_zero : Option ℕ → ℕ
or_zero none = 0
or_zero (some i) = i

unfoldable pub start_of : String → List String → ℕ
start_of id ids = or_zero (position id ids)

-- ids[i], for an index in range.
abbrev pub nth : List String → ℕ → String
nth [] i = ""
nth (c ∷ cs) zero = c
nth (c ∷ cs) (suc i) = nth cs i

unfoldable pub candidate : List String → ℕ → ℕ → String
candidate ids start offset = nth ids ((start + offset) % length ids)

-- Store.Save, unless registry.Use failed.
unfoldable pub save_route :
    Result Profile.Error Registry → Credentials → World → Result Fault Credentials × World
save_route (err e) c w = (err use_failed, w)
save_route (ok r) c w =
    if w.savable
    then (ok c, record w { registry = some (record r { version = Profile.registry_version }) })
    else (err save_failed, w)

unfoldable pub commit : Registry → String → Credentials → World → Result Fault Credentials × World
commit r id c w = save_route (Profile.use_profile r Profile.provider_codex id) c w

unfoldable pub give_up : Option Fault → Fault
give_up none = all_limited
give_up (some f) = no_usable f

unfoldable pub keep_ok : Result Fault Credentials → World → Option Credentials × World
keep_ok (ok c) v = (some c, v)
keep_ok (err f) v = (none, v)

-- What follows an attempt at a candidate: the route is committed, or the next candidate is tried.
unfoldable pub settle :
    Registry
    → String
    → (Option Fault → World → Result Fault Credentials × World)
    → Result Fault Credentials
    → World
    → Result Fault Credentials × World
settle r id next (ok c) v = commit r id c v
settle r id next (err f) v = next (some f) v

module _ (source : Source) where
  -- The loop over the offsets: `left` of them from `offset` on.
  unfoldable pub try_others :
      Registry
      → List String
      → ℕ
      → ℕ
      → ℕ
      → ℕ
      → Option Fault
      → World
      → Result Fault Credentials × World
  try_others r ids start now zero offset last w = (err (give_up last), w)
  try_others r ids start now (suc left) offset last w =
      let id = candidate ids start offset in
      let next = try_others r ids start now left (suc offset) in
      let asked = source.fetch id w in
      if is_blocked w.exhausted id now then next last w else settle r id next asked.0 asked.1

  unfoldable pub try_ring : Registry → String → ℕ → World → Result Fault Credentials × World
  try_ring r id now w =
      let ids = codex_ids r in
      if ltb (length ids) 2
      then (err no_alternate, w)
      else try_others r ids (start_of id ids) now (length ids - 1) 1 none w

  unfoldable pub try_profile : String → ℕ → World → Option Profile → Option Credentials × World
  try_profile id now w none = (none, w)
  try_profile id now w (some p) =
      let asked = source.fetch p.id w in
      if not (p.id == id) && not (is_blocked w.exhausted p.id now)
      then keep_ok asked.0 asked.1
      else (none, w)

  -- The active profile comes first, if it is another one and not marked; `none` goes on to the ring.
  unfoldable pub try_active : Registry → String → ℕ → World → Option Credentials × World
  try_active r id now w = try_profile id now w (Profile.active_profile r Profile.provider_codex)

  unfoldable pub after_active :
      Registry → String → ℕ → Option Credentials → World → Result Fault Credentials × World
  after_active r id now (some c) w = (ok c, w)
  after_active r id now none w = try_ring r id now w

  unfoldable pub route : Option Registry → String → ℕ → World → Result Fault Credentials × World
  route none id now w = (err load_failed, w)
  route (some r) id now w =
      let tried = try_active r id now w in after_active r id now tried.0 tried.1

  unfoldable pub failover : World → String → ℕ → ℕ → Result Fault Credentials × World
  failover w id reset_at now =
      let marked : World = record w { exhausted = mark_exhausted w.exhausted id reset_at now } in
      route w.registry id now marked
