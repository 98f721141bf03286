-- ===== src/Gateway/State.antt =====
-- The requests, the responses and the errors of internal/gateway/gateway.go, and what the gateway
-- uses of its provider of credentials.
use codex_account_pool.Prelude.{ℕ, String, Bool, Option, List, Dict, Result}
use codex_account_pool.AuthBroker.{Fault, Credentials}

-- A body that is nil or of length 0, that is read whole, or whose reading fails.
pub data Body : Type 0 where
  no_body broken_body : Body
  bytes : String → Body

-- The keys of a header are canonical. `credentials` and `pinned` are values of the context, `upgrade`
-- is what the client sent under "Upgrade", `connection` are the canonical names that it listed under
-- "Connection", and `trailers` says that it listed that word under "Te".
pub record Request : Type 0 where
  pub method : String
  pub scheme : String
  pub host : String
  pub path : String
  pub connection : List String
  pub trailers : Bool
  pub upgrade : String
  pub header : Dict (List String)
  pub body : Body
  pub credentials : Option Credentials
  pub pinned : Bool

pub record Response : Type 0 where
  pub status : ℕ
  pub body : Body

-- What errors.Is and errors.As find in the chain of an error of the transport: an operation of the
-- network with its Timeout and its Op.
pub record TransportError : Type 0 where
  pub canceled : Bool
  pub deadline_exceeded : Bool
  pub dns : Bool
  pub unknown_authority : Bool
  pub record_header : Bool
  pub operation : Option (Bool × String)

-- The errors of RoundTrip.
pub data TripError : Type 0 where
  body_unreadable response_unreadable : TripError
  upstream_failed : TransportError → TripError
  refresh_unavailable : Fault → TripError

-- The ways in which the gateway asks its provider; a provider without the methods of an interface
-- has none of its functions. The state of the provider is threaded through.
pub record ProfileMethods (S : Type 0) : Type 0 where
  pub credentials_for_profile : String → S → Result Fault Credentials × S
  pub force_refresh : String → S → Result Fault Credentials × S

pub record Provider (S : Type 0) : Type 0 where
  pub credentials : S → Result Fault Credentials × S
  pub profile_methods : Option (ProfileMethods S)
  pub failover : Option (String → Option ℕ → S → Result Fault Credentials × S)

-- The events that a request's round trip emits. An account is named by its id, where the source
-- writes a keyed digest of it.
pub data TripEvent : Type 0 where
  attempted_by : String → TripEvent
  switched : String → String → TripEvent
