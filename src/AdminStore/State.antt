-- ===== src/AdminStore/State.antt =====
-- The jobs and the state of internal/adminapi/store.go and types.go.
use codex_account_pool.Prelude.{ℕ, String, Bool, true, false, ◌&&◌, Dict, if◌then◌else◌}

-- A file may hold other words than the program writes.
pub data JobType : Type 0 where
  check login : JobType
  other_type : String → JobType

pub data JobState : Type 0 where
  queued checking logging_in finalizing succeeded failed canceled : JobState
  other_state : String → JobState

pub record Job : Type 0 where
  pub id : String
  pub type : JobType
  pub provider : String
  pub profile_id : String
  pub new_profile : Bool
  pub state : JobState
  pub error_code : String
  pub verification_url : String
  pub user_code : String
  pub created_at : ℕ
  pub updated_at : ℕ

abbrev pub status_connected : String
status_connected = "connected"

pub record CheckRecord : Type 0 where
  pub status : String
  pub error_code : String
  pub checked_at : ℕ

pub record PersistedState : Type 0 where
  pub version : ℕ
  pub jobs : Dict Job
  pub checks : Dict CheckRecord

-- What is found at the store's path.
pub data File : Type 0 where
  absent unreadable malformed : File
  decoded : PersistedState → File

pub record StateStore : Type 0 where
  pub file : File
  pub state : PersistedState

pub data Error : Type 0 where
  read_failed undecodable bad_version not_found not_active already_finalizing not_saved : Error
  profile_busy login_busy : String → Error

abbrev pub state_version : ℕ
state_version = 1

abbrev pub max_retained_terminal_jobs : ℕ
max_retained_terminal_jobs = 256

unfoldable pub is_login : JobType → Bool
is_login login = true
is_login _ = false

unfoldable pub is_check : JobType → Bool
is_check check = true
is_check _ = false

unfoldable pub is_active : JobState → Bool
is_active queued = true
is_active checking = true
is_active logging_in = true
is_active finalizing = true
is_active _ = false

unfoldable pub is_terminal : JobState → Bool
is_terminal succeeded = true
is_terminal failed = true
is_terminal canceled = true
is_terminal _ = false

unfoldable pub is_queued : JobState → Bool
is_queued queued = true
is_queued _ = false

unfoldable pub is_logging_in : JobState → Bool
is_logging_in logging_in = true
is_logging_in _ = false

unfoldable pub is_finalizing : JobState → Bool
is_finalizing finalizing = true
is_finalizing _ = false

unfoldable pub is_canceled : JobState → Bool
is_canceled canceled = true
is_canceled _ = false

unfoldable pub is_succeeded : JobState → Bool
is_succeeded succeeded = true
is_succeeded _ = false

unfoldable pub public_state : JobType → JobState → JobState
public_state t s = if is_login t && is_finalizing s then logging_in else s

unfoldable pub public : Job → Job
public j = record j { state = public_state j.type j.state }
