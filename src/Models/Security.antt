-- ===== src/Models/Security.antt =====
-- app/db/models/login_attempt.py, ip_blocklist.py, audit_log.py and
-- admin_action_log.py.
use ratinglift_backend_core.Common.{ℕ, String, Bool, Option}
use ratinglift_backend_core.Values.{Value}

pub record LoginAttempt : Type 0 where
  pub id : ℕ
  pub email : String
  pub ip_address : Option String
  pub user_agent : Option String
  pub success : Bool
  pub reason : Option String
  pub timestamp : ℕ

pub record IpBlocklist : Type 0 where
  pub id : ℕ
  pub ip_address : String
  pub reason : Option String
  pub failed_attempts : ℕ
  pub blocked_at : ℕ
  pub expires_at : Option ℕ

pub data ActorType : Type 0 where
  user system : ActorType

pub record AuditLog : Type 0 where
  pub id : ℕ
  pub actor_id : Option ℕ
  pub actor_type : ActorType
  pub action : String
  pub entity : String
  pub entity_id : Option ℕ
  pub before_value : Value
  pub after_value : Value
  pub ip_address : Option String
  pub timestamp : ℕ

pub record AdminActionLog : Type 0 where
  pub id : ℕ
  pub admin_id : ℕ
  pub action : String
  pub target_entity : Option String
  pub target_id : Option ℕ
  pub target_tenant_id : Option ℕ
  pub before_value : Value
  pub after_value : Value
  pub ip_address : Option String
  pub user_agent : Option String
  pub request_path : Option String
  pub extra : Value
  pub timestamp : ℕ
