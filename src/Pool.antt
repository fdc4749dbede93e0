-- ===== src/Pool.antt =====
-- pool/service.go: the pool service `VipnodePool`. Its store, its balance manager, the signatures
-- and what the connected hosts answer come from outside, in a `Setup` and an `Outside`.
pub mod Uri
pub mod State
pub mod Sessions
pub mod Peering
pub mod Updates
pub mod Replay
pub mod Static
pub mod Remotes
pub mod Remote
