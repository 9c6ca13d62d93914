-- ===== src/Release.antt =====
-- The verification of a release (release_verification.py and the report of production/contracts.py).
pub mod Gates
pub mod Verification
pub mod Supplied
pub mod Reports
pub mod Publication
pub mod Examples
