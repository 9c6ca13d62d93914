-- ===== src/Decisions.antt =====
-- Decision files: their documents, their semantic rules, their evaluation and their transitions
-- (decision_file.py and transitions.py).
pub mod Document
pub mod Semantics
pub mod Evaluation
pub mod Transitions
pub mod Approval
pub mod Workflow
pub mod History
pub mod Bindings
pub mod Examples
