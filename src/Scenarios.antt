-- ===== src/Scenarios.antt =====
-- The theorems at concrete inputs.
pub mod Data
pub mod Packages
pub mod Versions
pub mod Caches
pub mod Pruning
pub mod Tasks
pub mod Worlds
pub mod Managing
pub mod Requesting
pub mod Failing
pub mod Queueing
pub mod Repositories
pub mod Listing
