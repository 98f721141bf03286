-- ===== src/Antigravity/Replay.antt =====
-- ReplayCache of internal/antigravity/replay.go: tool calls, thought signatures and sessions, with the
-- file that they are kept in. The clock, the nil receiver apart, and whether the file can be written
-- are arguments. The three times of a record stand in a record of their own.
mod State
mod Sessions
mod Bindings
mod Records
mod Persistence
pub mod Expiry
pub mod Sweep
pub mod Affinity
pub mod Rebinding
pub mod Limits
pub mod Lifetimes
pub mod Roundtrip
pub mod Tests
unfoldable pub use State.*
unfoldable pub use Sessions.*
unfoldable pub use Bindings.*
unfoldable pub use Records.*
unfoldable pub use Persistence.*
