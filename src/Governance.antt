-- ===== src/Governance.antt =====
-- The governance engine: models.py, adapters.py, audit.py and engine.py.
pub mod Models
pub mod Audit
pub mod Request
pub mod Engine
pub mod Outcomes
pub mod Trail
pub mod Examples
