-- ===== src/Property.antt =====
-- app/modules/property: the properties of a tenant.
pub mod Service
pub mod Routes
pub mod Lookup
pub mod Induction
pub mod Invariant
pub mod Isolation
pub mod Audited
pub mod Bulk
pub mod Listing
pub mod Replacement
pub mod Lifecycle
