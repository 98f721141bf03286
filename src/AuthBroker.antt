-- ===== src/AuthBroker.antt =====
-- internal/authbroker/broker.go and errors.go: credentials of Codex profiles, their refresh, and the
-- failover to another profile. The clock, the authority's replies, what other processes do to the
-- files while a lock is waited for, and the decoding of a token's payload are arguments.
mod State
mod Files
mod Access
pub mod Refresh
pub mod Identity
pub mod Failover
pub mod Inspection
pub mod Tests
unfoldable pub use State.*
unfoldable pub use Files.*
unfoldable pub use Access.*
