-- ===== src/Models.antt =====
-- app/db/models: the rows of the tables, the database, and the session that a request works in.
-- A UUID is a number: the program only compares, prints and parses them. A time is a number of
-- seconds, always in UTC.
mod Accounts
mod Catalog
mod Security
mod Sessions
unfoldable pub use Accounts.*
pub use Catalog.*
pub use Security.*
unfoldable pub use Sessions.*
