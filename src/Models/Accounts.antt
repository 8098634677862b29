-- ===== src/Models/Accounts.antt =====
-- app/db/models/tenant.py, user.py and login_session.py.
use ratinglift_backend_core.Common.{ℕ, String, Bool, Option, none, some, str_eq, if◌then◌else◌}

pub data PlanType : Type 0 where
  starter growth pro : PlanType

pub data TenantStatus : Type 0 where
  active suspended cancelled : TenantStatus

pub record Tenant : Type 0 where
  pub id : ℕ
  pub name : String
  pub plan : PlanType
  pub status : TenantStatus
  pub created_at : ℕ

pub data UserRole : Type 0 where
  owner manager staff super_admin finance_admin support_admin ops_admin compliance_admin : UserRole

-- `role.value`
unfoldable pub role_value : UserRole → String
role_value owner = "OWNER"
role_value manager = "MANAGER"
role_value staff = "STAFF"
role_value super_admin = "SUPER_ADMIN"
role_value finance_admin = "FINANCE_ADMIN"
role_value support_admin = "SUPPORT_ADMIN"
role_value ops_admin = "OPS_ADMIN"
role_value compliance_admin = "COMPLIANCE_ADMIN"

-- `UserRole(text)`; `none` is the `ValueError`
unfoldable pub role_of_value : String → Option UserRole
role_of_value s =
    if str_eq s "OWNER"
    then some owner
    else if str_eq s "MANAGER"
    then some manager
    else if str_eq s "STAFF"
    then some staff
    else if str_eq s "SUPER_ADMIN"
    then some super_admin
    else if str_eq s "FINANCE_ADMIN"
    then some finance_admin
    else if str_eq s "SUPPORT_ADMIN"
    then some support_admin
    else if str_eq s "OPS_ADMIN"
    then some ops_admin
    else if str_eq s "COMPLIANCE_ADMIN"
    then some compliance_admin
    else none

pub record User : Type 0 where
  pub id : ℕ
  pub tenant_id : Option ℕ
  pub email : String
  pub full_name : Option String
  pub profile_picture_url : Option String
  pub password_hash : String
  pub auth_provider : String
  pub oauth_subject : Option String
  pub role : UserRole
  pub is_active : Bool
  pub is_admin : Bool
  pub email_verified : Bool
  pub locked_until : Option ℕ
  pub mfa_enabled : Bool
  pub mfa_email : Option String
  pub mfa_phone : Option String
  pub mfa_email_verified : Bool
  pub mfa_phone_verified : Bool
  pub totp_secret : Option String
  pub totp_verified : Bool
  pub failed_login_attempts : ℕ
  pub created_at : ℕ

pub record LoginSession : Type 0 where
  pub id : ℕ
  pub user_id : ℕ
  pub jti : Option String
  pub refresh_token_hash : Option String
  pub refresh_expires_at : Option ℕ
  pub ip_address : Option String
  pub device_info : Option String
  pub location : Option String
  pub created_at : ℕ
  pub last_used_at : Option ℕ
  pub expires_at : ℕ
  pub revoked : Bool
