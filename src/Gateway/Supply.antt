-- ===== src/Gateway/Supply.antt =====
-- What the round trip of internal/gateway/gateway.go relies on of its provider of credentials.
use codex_account_pool.Prelude.{ℕ, String, true, Option, some, List, ◌≡◌, Result, ok, contains}
use codex_account_pool.AuthBroker.{Fault, Credentials}
use codex_account_pool.Gateway.{Provider, ProfileMethods}

-- A lookup and a refresh give credentials of the account that they are asked for, a failover gives those of a
-- registered account, and none of the calls registers accounts. `known` are the registered ones.
pub record IsSupply {S : Type 0} (provider : Provider S) (known : S → List String) : Type 0 where
  pub active_known : (s : S) → known (provider.credentials s).1 ≡ known s
  pub profile_known :
      (m : ProfileMethods S) (id : String) (s : S)
      → provider.profile_methods ≡ some m
      → known (m.credentials_for_profile id s).1 ≡ known s
  pub profile_own :
      (m : ProfileMethods S) (id : String) (s v : S) (c : Credentials)
      → provider.profile_methods ≡ some m
      → m.credentials_for_profile id s ≡ (ok c, v)
      → c.profile_id ≡ id
  pub refresh_own :
      (m : ProfileMethods S) (id : String) (s v : S) (c : Credentials)
      → provider.profile_methods ≡ some m
      → m.force_refresh id s ≡ (ok c, v)
      → c.profile_id ≡ id
  pub refresh_known :
      (m : ProfileMethods S) (id : String) (s : S)
      → provider.profile_methods ≡ some m
      → known (m.force_refresh id s).1 ≡ known s
  pub failover_registered :
      (call : String → Option ℕ → S → Result Fault Credentials × S) (id : String) (reset : Option ℕ)
      (s v : S) (c : Credentials)
      → provider.failover ≡ some call
      → call id reset s ≡ (ok c, v)
      → contains (known s) c.profile_id ≡ true
  pub failover_known :
      (call : String → Option ℕ → S → Result Fault Credentials × S) (id : String) (reset : Option ℕ)
      (s : S)
      → provider.failover ≡ some call
      → known (call id reset s).1 ≡ known s
