-- ===== src/Tests.antt =====
-- A small world in which the hypotheses of the theorems hold, and tests on it.
pub mod Texts
pub mod World
pub mod Properties
pub mod Access
pub mod Secrets
pub mod Attacks
pub mod Logins
pub mod Stores
pub mod SignIns
pub mod NewAccounts
pub mod Catalogue
