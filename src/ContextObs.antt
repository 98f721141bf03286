-- ===== src/ContextObs.antt =====
-- internal/contextobs: the bounded memory of the structure of earlier requests (tracker.go), the
-- comparison of a request with its predecessor, and the reader of event streams (response.go).
mod Container
mod Types
mod Comparison
mod Memory
mod Response
pub mod Matching
pub mod Listing
pub mod Consistency
pub mod Eviction
pub mod Lineage
pub mod Stream
pub mod Tests
unfoldable pub use Container.*
unfoldable pub use Types.*
unfoldable pub use Comparison.*
unfoldable pub use Memory.*
unfoldable pub use Response.*
