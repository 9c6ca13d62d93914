-- ===== src/Jobs.antt =====
-- The research job queue (jobs/ and the job contracts of production/contracts.py).
pub mod Contracts
pub mod Lifecycle
pub mod Store
pub mod Repository
mod Rows
mod Keeps
pub mod Invariant
pub mod Calls
pub mod Queue
pub mod Backoff
pub mod Leases
pub mod Limits
pub mod Worker
pub mod Interruption
pub mod Examples
