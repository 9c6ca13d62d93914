-- ===== src/Intake.antt =====
-- Controlled intake: from extracted facts, over verification and human confirmation, to a decision
-- file (intake/).
pub mod Contracts
pub mod Comparison
pub mod Verification
pub mod Confirmation
pub mod Compiler
pub mod Lifecycle
pub mod Provenance
pub mod Violations
pub mod Compilation
pub mod Examples
