-- ===== src/AccountPool.antt =====
-- internal/accountpool/pool.go: the pool's state and the operations on it and on a lease. Times are
-- numbers, and the reading of the clock is an argument of each operation. Entries are shared by
-- pointer, so they live in a heap, and the map and the leases hold addresses.
mod State
mod Acquisition
mod Choice
mod Evidence
mod Switching
pub mod Oldest
pub mod Protocol
pub mod Begin
pub mod Invariant
pub mod Exclusion
pub mod Capacity
pub mod Refusal
pub mod Selection
pub mod Alternates
pub mod Quotas
pub mod Tests
unfoldable pub use State.*
unfoldable pub use Acquisition.*
unfoldable pub use Choice.*
unfoldable pub use Evidence.*
unfoldable pub use Switching.*
