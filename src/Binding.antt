-- ===== src/Binding.antt =====
-- app/modules/property_connector: the bindings of a tenant's properties to review sources.
pub mod Rows
pub mod Service
pub mod Stored
pub mod Credentials
pub mod Deactivation
