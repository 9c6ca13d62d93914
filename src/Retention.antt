-- ===== src/Retention.antt =====
-- The deletion of pilot data and legal holds (lifecycle/).
pub mod Contracts
pub mod Store
pub mod Service
pub mod Holds
pub mod Execution
pub mod Submission
pub mod Examples
