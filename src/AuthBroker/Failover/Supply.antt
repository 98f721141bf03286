-- ===== src/AuthBroker/Failover/Supply.antt =====
-- CredentialsForProfile of internal/authbroker/broker.go as the source that Failover uses.
use codex_account_pool.Prelude.{ℕ, String, ◌≡◌, ap, ◌∙◌, inl, inr, Option, some, Result, ok}
use codex_account_pool.AuthBroker.{World, Fault, Credentials, Payload, credentials_for_profile}
use codex_account_pool.AuthBroker.Identity.{IsBase, credentials-Outcome}
use codex_account_pool.AuthBroker.Failover.{Source}

-- While Failover runs, other writers may change the auth files, but neither the registry nor the
-- route's marks: the marks are guarded by `routeMu`.
pub record IsQuiet (waits : String → Option (World → World)) : Type 0 where
  pub marks :
      (id : String) (others : World → World) (w : World)
      → waits id ≡ some others
      → (others w).exhausted ≡ w.exhausted
  pub registry :
      (id : String) (others : World → World) (w : World)
      → waits id ≡ some others
      → (others w).registry ≡ w.registry

module _ (decode : String → Option Payload) (waits : String → Option (World → World))
    (quiet : IsQuiet waits) (now : ℕ) where
  base-marks :
      (id : String) (w base : World) → IsBase (waits id) w base → base.exhausted ≡ w.exhausted
  base-marks id w base (inl e) = ap (λ (v : World). v.exhausted) e
  base-marks id w base (inr (others, s, e)) =
      ap (λ (v : World). v.exhausted) e ∙ quiet.marks id others w s

  pub base-registry :
      (id : String) (w base : World) → IsBase (waits id) w base → base.registry ≡ w.registry
  base-registry id w base (inl e) = ap (λ (v : World). v.registry) e
  base-registry id w base (inr (others, s, e)) =
      ap (λ (v : World). v.registry) e ∙ quiet.registry id others w s

  abbrev pub fetch : String → World → Result Fault Credentials × World
  fetch id w = credentials_for_profile decode (waits id) id now w

  pub fetch-own :
      (id : String) (w v : World) (c : Credentials) → fetch id w ≡ (ok c, v) → c.profile_id ≡ id
  fetch-own id w v c e =
      let (base, b, o) = credentials-Outcome decode (waits id) id now w in
      (o.stored c (ap (λ x. x.0) e)).own

  pub fetch-marks : (id : String) (w : World) → (fetch id w).1.exhausted ≡ w.exhausted
  fetch-marks id w =
      let (base, b, o) = credentials-Outcome decode (waits id) id now w in
      o.keeps.exhausted ∙ base-marks id w base b

  pub fetch-registry : (id : String) (w : World) → (fetch id w).1.registry ≡ w.registry
  fetch-registry id w =
      let (base, b, o) = credentials-Outcome decode (waits id) id now w in
      o.keeps.registry ∙ base-registry id w base b

  abbrev pub broker_source : Source
  broker_source = record {
    fetch = fetch;
    own = fetch-own;
    same_route = fetch-marks;
    same_registry = fetch-registry;
  }
