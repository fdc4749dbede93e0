-- ===== src/Tests.antt =====
-- Tests: runs of the model at concrete inputs, and each theorem at an input that meets its premises.
pub mod Fixtures
pub mod Databases
mod Stores
mod Balances
pub mod Pools
mod Payments
mod Updates
mod Names
mod Statuses
mod Statics
mod Connections
mod Calls
mod Drivers
mod Agents
mod Signatures
mod Deposits
pub mod Servers
mod Routes
mod Methods
mod Https
mod Amounts
mod Commanding
