-- ===== src/Memory.antt =====
-- pool/store/memory/memory.go: the in-memory driver of the store. A method takes the state and
-- returns its result with the new state; the mutex makes each method one step.
pub mod State
pub mod Nonces
pub mod Balances
pub mod Nodes
pub mod Peers
pub mod Valid
pub mod Driver
pub mod Book
