-- ===== src/AccountPool/State.antt =====
-- The state of the pool of internal/accountpool/pool.go.
use Prim.Native.String.{◌++◌ as ◌<>◌}
use codex_account_pool.Prelude.{ℕ, ◌*◌, String, Bool, [], Dict, leb, eqb, if◌then◌else◌}

pub data Error : Type 0 where
  unavailable continuity capacity canceled : Error

pub data Quota : Type 0 where
  unknown usable exhausted : Quota

-- `gate` counts the values in the channel of capacity 1.
pub record Entry : Type 0 where
  pub gate : ℕ
  pub refs : ℕ
  pub profile : String
  pub expires : ℕ

pub record QuotaObservation : Type 0 where
  pub state : Quota
  pub expires : ℕ

pub record Pool : Type 0 where
  pub heap : ℕ → Entry
  pub next : ℕ
  pub entries : Dict ℕ
  pub max : ℕ
  pub ttl : ℕ
  pub quota : Dict QuotaObservation

pub record Lease : Type 0 where
  pub key : String
  pub entry : ℕ
  pub explicit : Bool
  pub attempted : Bool
  pub provider : String
  pub model : String

-- Durations in nanoseconds.
abbrev pub minute : ℕ
minute = 60000000000

abbrev pub fresh_entry : Entry
fresh_entry = record { gate = 0; refs = 0; profile = ""; expires = 0 }

-- A non-positive argument is the number 0 here.
unfoldable pub new : ℕ → ℕ → Pool
new max ttl = record {
  heap = λ a. fresh_entry;
  next = 0;
  entries = [];
  max = if leb max 0 then 1024 else max;
  ttl = if leb ttl 0 then 30 * minute else ttl;
  quota = [];
}

unfoldable pub session_key : String → String → String
session_key provider session = (provider <> "\0") <> session

-- A write through a pointer.
abbrev pub update : (ℕ → Entry) → ℕ → Entry → ℕ → Entry
update h a e b = if eqb a b then e else h b
