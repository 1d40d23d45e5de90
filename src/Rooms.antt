-- ===== src/Rooms.antt =====
-- The services of src/token-gated-rooms, a module for each.
pub mod Store
pub mod Config
pub mod Rows
pub mod Access
pub mod Nip29
pub mod Missing
pub mod Sync
pub mod Eviction
pub mod Admins
pub mod Shard
pub mod Publish
pub mod Drift
pub mod Eligibility
pub mod Balances
pub mod Identity
mod Tests
