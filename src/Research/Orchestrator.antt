-- ===== src/Research/Orchestrator.antt =====
-- web_research/orchestrator.py: `ResearchOrchestrator`.
pub mod State
pub mod Discovery
pub mod Extraction
pub mod Calls
pub mod Triples
pub mod Tables
pub mod Soundness
pub mod Searches
pub mod Extractions
pub mod Runs
pub mod Histories
pub mod Examples
