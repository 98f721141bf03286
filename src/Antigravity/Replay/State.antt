-- ===== src/Antigravity/Replay/State.antt =====
-- The state of ReplayCache of internal/antigravity/replay.go, its limits and its times.
use Prim.Native.String.{◌++◌ as ◌<>◌}
use codex_account_pool.Prelude.{
  ℕ, ◌+◌, ◌*◌, String, Bool, not, List, [], Dict, ltb, leb, eqb, if◌then◌else◌,
}

-- createdAt, expiresAt and usedAt
pub record Times : Type 0 where
  pub created : ℕ
  pub expires : ℕ
  pub used : ℕ

pub record ReplayEntry : Type 0 where
  pub signature : String
  pub profile : String
  pub model : String
  pub session : String
  pub name : String
  pub args : String
  pub times : Times

pub record CallRecord : Type 0 where
  pub original_args : String
  pub profile : String
  pub model : String
  pub session : String
  pub name : String
  pub wire_id : String
  pub signature : String
  pub step : String
  pub position : ℕ
  pub args : String
  pub times : Times

pub record SessionRecord : Type 0 where
  pub profile : String
  pub model : String
  pub session : String
  pub times : Times

-- The sessions are written without their keys.
pub record PersistedState : Type 0 where
  pub version : ℕ
  pub entries : Dict ReplayEntry
  pub calls : Dict CallRecord
  pub sessions : List SessionRecord

pub data File : Type 0 where
  absent unreadable malformed : File
  decoded : PersistedState → File

pub data Error : Type 0 where
  read_failed undecodable unsupported_version invalid_plan not_written : Error

pub record ReplayCache : Type 0 where
  pub entries : Dict ReplayEntry
  pub calls : Dict CallRecord
  pub sessions : Dict SessionRecord
  pub max : ℕ
  pub ttl : ℕ
  pub retention : ℕ
  pub path : String
  pub file : File

abbrev pub day : ℕ
day = 86400000000000

abbrev pub continuity_state_version : ℕ
continuity_state_version = 1

unfoldable pub positive_or : ℕ → ℕ → ℕ
positive_or default n = if eqb n 0 then default else n

-- A non-positive argument is the number 0 here.
unfoldable pub new_replay_cache : ℕ → ℕ → ℕ → String → File → ReplayCache
new_replay_cache max ttl retention path file =
    let ttl' = positive_or (7 * day) ttl in
    let retention' = positive_or (30 * day) retention in
    record {
      entries = [];
      calls = [];
      sessions = [];
      max = positive_or 1024 max;
      ttl = ttl';
      retention = if ltb retention' ttl' then ttl' else retention';
      path = path;
      file = file;
    }

unfoldable pub extend_expiry : ReplayCache → ℕ → ℕ → ℕ
extend_expiry c now created =
    if ltb (created + c.retention) (now + c.ttl) then created + c.retention else now + c.ttl

unfoldable pub touched : ReplayCache → ℕ → Times → Times
touched c now t = record t { used = now; expires = extend_expiry c now t.created }

unfoldable pub created_now : ReplayCache → ℕ → Times
created_now c now = record { created = now; expires = extend_expiry c now now; used = now }

unfoldable pub is_live : ℕ → Times → Bool
is_live now t = not (leb t.expires now)

unfoldable pub session_key : String → String → String
session_key model session = (model <> "\0") <> session
