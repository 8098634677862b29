-- ===== src/Tenancy.antt =====
-- app/core/dependencies.py and the tenant middleware of app/core/middleware.py: who a request
-- acts for.
pub mod Context
pub mod Middleware
pub mod Scope
