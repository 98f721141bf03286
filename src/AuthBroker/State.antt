-- ===== src/AuthBroker/State.antt =====
-- The errors and the state of internal/authbroker/broker.go and errors.go.
use codex_account_pool.Prelude.{ℕ, ◌*◌, String, Bool, Option, Dict}
use codex_account_pool.Profile.{Registry}

pub data ErrorCode : Type 0 where
  not_logged_in reauth_required temporarily_unavailable internal_error : ErrorCode

-- The errors: with a code, without one, and the one of Failover that wraps another.
pub data Fault : Type 0 where
  coded : ErrorCode → Fault
  load_failed not_found no_active unreadable no_tokens write_failed no_alternate all_limited
        use_failed save_failed :
      Fault
  no_usable : Fault → Fault

-- Code: the code of the first AuthError in the chain.
unfoldable pub code : Fault → ErrorCode
code (coded c) = c
code (no_usable f) = code f
code load_failed = internal_error
code not_found = internal_error
code no_active = internal_error
code unreadable = internal_error
code no_tokens = internal_error
code write_failed = internal_error
code no_alternate = internal_error
code all_limited = internal_error
code use_failed = internal_error
code save_failed = internal_error

pub record Credentials : Type 0 where
  pub profile_id : String
  pub access_token : String
  pub account_id : String

pub record AuthTokens : Type 0 where
  pub id_token : String
  pub access_token : String
  pub refresh_token : String
  pub account_id : String

-- A file's fields, "" where they are missing, and whether "tokens" is there as an object; a null there
-- counts as no object.
pub record AuthFile : Type 0 where
  pub auth_mode : String
  pub has_tokens : Bool
  pub tokens : AuthTokens

-- What is at a profile's auth path.
pub data Stored : Type 0 where
  missing unreadable_file malformed : Stored
  decoded : AuthFile → Stored

pub record RefreshResponse : Type 0 where
  pub id_token : String
  pub access_token : String
  pub refresh_token : String

-- The "error" of a rejection's body: absent or of another shape, a text, or an object's code and type.
pub data Rejection : Type 0 where
  unclear : Rejection
  text : String → Rejection
  object : String → String → Rejection

pub data Reply : Type 0 where
  no_reply : Reply
  refused : ℕ → Rejection → Reply
  answered : Option RefreshResponse → Reply

-- A decoded token payload: the numeric claim "exp", in seconds, and the two places of the account.
pub record Payload : Type 0 where
  pub exp : Option ℕ
  pub account : String
  pub auth_account : String

-- `replies n` is the authority's answer to request number n; `writable` says whose file can be
-- replaced.
pub record World : Type 0 where
  pub files : String → Stored
  pub registry : Option Registry
  pub savable : Bool
  pub writable : String → Bool
  pub replies : ℕ → Reply
  pub asked : ℕ
  pub exhausted : Dict ℕ

-- Times are in nanoseconds; a negative expiry stands for 0.
abbrev pub second : ℕ
second = 1000000000

abbrev pub refresh_window : ℕ
refresh_window = 300 * second

abbrev pub hour : ℕ
hour = 3600 * second
