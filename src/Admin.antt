-- ===== src/Admin.antt =====
-- app/modules/admin: the catalogue of connectors that the administrators keep.
pub mod Storage
pub mod Catalog
pub mod Logos
pub mod Routes
pub mod Quiet
pub mod LocalFiles
pub mod Addresses
pub mod FileMap
pub mod Names
pub mod Deletion
pub mod Accounted
pub mod Reorder
pub mod Audited
