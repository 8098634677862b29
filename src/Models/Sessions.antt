-- ===== src/Models/Sessions.antt =====
-- The tables, and app/db/session.py: a request works in a session, sees its own writes, and loses
-- what it has not committed when the session closes.
use ratinglift_backend_core.Common.{⊤, List}
use ratinglift_backend_core.Exec.{Result, ok, Exec}
use ratinglift_backend_core.Models.Accounts.{Tenant, User, LoginSession}
use ratinglift_backend_core.Models.Catalog.{Property, Connector, PropertyConnector}
use ratinglift_backend_core.Models.Security.{LoginAttempt, IpBlocklist, AuditLog, AdminActionLog}

pub record Database : Type 0 where
  pub tenants : List Tenant
  pub users : List User
  pub login_sessions : List LoginSession
  pub login_attempts : List LoginAttempt
  pub ip_blocklist : List IpBlocklist
  pub audit_logs : List AuditLog
  pub admin_action_logs : List AdminActionLog
  pub properties : List Property
  pub connectors : List Connector
  pub property_connectors : List PropertyConnector

-- What is committed, and what the open transaction sees.
pub record DbSession : Type 0 where
  pub committed : Database
  pub current : Database

abbrev pub Db : Type 0 → Type 0
Db A = Exec DbSession A

-- `db.commit()`
abbrev pub commit : Db ⊤
commit s = (ok tt, record s { committed = s.current })

-- `db.rollback()`
abbrev pub rollback : Db ⊤
rollback s = (ok tt, record s { current = s.committed })

-- `get_db`: the session of a request, from its start to its close
unfoldable pub with_db : {A : Type 0} → Db A → Database → Result A × Database
with_db m d = let (r, s) = m (record { committed = d; current = d }) in (r, s.committed)
