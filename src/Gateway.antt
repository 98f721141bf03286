-- ===== src/Gateway.antt =====
-- internal/gateway/gateway.go: the proxy between Codex and its upstream.
mod State
mod Limit
mod Stream
mod Requests
mod Transport
mod Handler
pub mod Trace
unfoldable pub use State.*
unfoldable pub use Limit.*
unfoldable pub use Stream.*
unfoldable pub use Requests.*
unfoldable pub use Transport.*
unfoldable pub use Handler.*
pub mod Binding
pub mod TraceTests
pub mod Chunks
pub mod Supply
pub mod Termination
pub mod Loop
pub mod Attempts
pub mod Broker
pub mod Answers
pub mod Headers
pub mod Outgoing
pub mod Serving
pub mod Tests
