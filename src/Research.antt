-- ===== src/Research.antt =====
-- Parts of the web research (web_research/).
pub mod Lifecycle
pub mod Breaker
pub mod Outage
pub mod Runs
pub mod Ledger
pub mod Evidence
pub mod Normalization
pub mod Conflicts
pub mod Compiler
pub mod Compilation
pub mod Handoff
pub mod CaseRows
pub mod Attachment
pub mod Repository
pub mod Pages
pub mod Idempotency
pub mod Replays
pub mod Exclusion
pub mod Saved
pub mod Orchestrator
pub mod Examples
pub mod Cases
pub mod Entries
