-- ===== src/Security.antt =====
-- app/modules/security: the record of login attempts and the blocking of addresses.
pub mod LoginTracking
pub mod IpBlocking
pub mod Blocklist
