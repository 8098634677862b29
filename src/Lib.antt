-- ===== src/Lib.antt =====
-- The RatingLift backend core: a multi-tenant web service in which businesses (tenants) keep their
-- properties and bind them to review sources.
--
-- A request passes TenantContextMiddleware (app/core/middleware.py), which decodes its token and
-- keeps tenant routes and admin routes apart; a guard of app/core/dependencies.py makes a
-- RequestContext of what is left on the request; the endpoint calls a service function with that
-- context and a database session, writes a row to the audit log and commits. Sign-ins are
-- recorded, and an address with too many failures is blocked.
--
-- Files and what they model:
--
-- - Common (Tests, Lists, Tables): shared names, Boolean tests, lists, and tables as lists of rows
--   with the queries and updates of the object-relational mapper.
-- - Exec (Keeps): code that changes a state and may raise, as a function from a state to a result
--   and a state; what is written before a raise stays written.
-- - Values: the JSON values of audit rows and configurations, with Python's equality.
-- - Models (Accounts, Catalog, Security, Sessions): app/db/models, and app/db/session.py: a
--   session is the committed database and the one that the open transaction sees; `with_db` is a
--   request's session from start to close, which drops what is not committed.
-- - Platform: what comes from outside the repository (UUIDs, the clock, ILIKE, Unicode text), with
--   the behaviour relied on as PlatformLaws.
-- - Audit (JsonSafe, Admin): app/modules/audit/service.py, log_action with its coercions, and
--   log_admin_action.
-- - Tenancy: Middleware is app/core/middleware.py with the token library as the record Jwt;
--   Context is app/core/dependencies.py; Scope relates the two.
-- - Property: Service is app/modules/property/service.py, Listing its searches, Bulk its bulk
--   operations, and Routes the endpoints of app/modules/property/routes.py for one property.
--   Lookup, Invariant, Induction and Replacement carry the proofs; Isolation, Audited, Lifecycle,
--   Listing and Bulk/Items have the theorems. `serve` runs any of the five routes.
-- - Binding: Rows has the payloads, the cipher of app/core/crypto.py as the record Cipher, and
--   what app/modules/property_connector/service.py does to one row; Service has its operations.
--   Stored, Credentials and Deactivation are about the bindings that workers read.
-- - Security: LoginTracking and IpBlocking are the files of app/modules/security; Blocklist has
--   the theorems.
-- - Auth: app/modules/auth/service.py and its helpers. Attempts is the recording of sign-ins;
--   BruteForce is about many of them. Sessions is the life of a login session: refresh, logout,
--   revocation and the check of an access token, with SHA-256 and fresh tokens as arguments;
--   Revocation, Rotation and StaleTokens have the theorems. Stores has what the service works on,
--   with Redis and bcrypt as records; Codes is mfa.py, password_reset.py and app/core/security.py;
--   Totp is totp.py. Accounts has who may sign in, the lock and the new session, and Login the
--   sign-in with a password and its second step; Soundness, Lockout, WrongPassword, Admission,
--   SecondStep, AppOnly, OneTimeCodes, Challenge and FirstStep have the theorems. Recovery is the
--   password reset and the e-mail verification, with ResetTokens; SecondFactor sets up channels
--   and the authenticator app; Signup makes accounts and tenants, with Tenants, Onboarding and
--   FirstSignIn.
-- - Admin: the catalogue of review sources. Storage is the abstract class of app/core/storage.py
--   and the key of a logo; Catalog is app/modules/admin/connectors/service.py without the uploads,
--   Logos the uploads and `update_connector`, and Routes the endpoints of routes.py there, which
--   `guarded` runs. Quiet, Accounted and Audited are about the logs, Reorder, Names and Deletion
--   about single operations. LocalFiles is the backend LocalFilesystemStorage and the addresses of
--   S3Storage, over an association list of files, with what pathlib makes of a key as a parameter;
--   FileMap and Addresses are about it.
-- - Tests: a small world in which the hypotheses hold, with a run of each theorem there.
--
-- An identifier is a natural number, and its text is read and shown by the platform. Times are
-- seconds since the epoch, and the clock stands still during one request; differences of times
-- stop at 0, as timestamps are never negative. The order in which a query without `order_by` finds
-- rows is the order of insertion. Database constraints that the code handles are tests of the
-- flush: the unique index on places, the foreign key to tenants, and the one binding for each pair
-- of property and source. The partial unique indexes of the catalogue are tests of the flush too.
-- Loops are structural recursions, but for the search for a free tenant name: its fuel is one more
-- than the number of tenants, and one step of it is enough, which is proved. A random text that
-- the code draws is an argument, and mails and messages are taken to be accepted by their senders.
--
-- Not modelled: the decoding of tokens, social sign-in, the list of sessions, the validators of
-- payloads, the object calls of the S3 backend, the admin listings, the bulk and audit routes of
-- properties, the routes of bindings, the response bodies, and RequestContextMiddleware. Nor are
-- wiring, configuration, migrations, seeds, mail and SMS delivery, identity providers, and the
-- worker stubs, which have no behaviour to state.
pub mod Common
pub mod Exec
pub mod Values
pub mod Models
pub mod Platform
pub mod Audit
pub mod Tenancy
pub mod Property
pub mod Binding
pub mod Security
pub mod Auth
pub mod Admin
pub mod Tests
