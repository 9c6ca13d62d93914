-- ===== src/Access.antt =====
-- Who may do what: tenancy.py, identity.py and authorization.py.
pub mod Tenancy
pub mod Identity
pub mod Authorization
pub mod Grants
pub mod Examples
