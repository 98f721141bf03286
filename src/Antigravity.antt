-- ===== src/Antigravity.antt =====
-- internal/antigravity: the parts of the Antigravity provider.
pub mod Signature
pub mod Arguments
pub mod Replay
pub mod Continuity
pub mod Accounts
pub mod Quotas
