-- ===== src/AdminStore.antt =====
-- internal/adminapi/store.go and the job type of types.go: the job state machine of the
-- administration API and its file. The clock, the random id of a new job and whether the file can be
-- written are arguments of the operations.
mod State
mod Saving
mod Opening
mod Creation
mod Edits
mod Queries
pub mod Pruning
pub mod Moves
pub mod Logins
pub mod Restart
pub mod Canceled
pub mod Finalization
pub mod Keys
pub mod Keyed
pub mod Tests
unfoldable pub use State.*
unfoldable pub use Saving.*
unfoldable pub use Opening.*
unfoldable pub use Creation.*
unfoldable pub use Edits.*
unfoldable pub use Queries.*
