-- ===== src/Auth/Signup.antt =====
-- New accounts in app/modules/auth/service.py: `signup` with its tenant, and `create_admin`. Python's
-- operations on texts are a record; what is drawn at random is an argument.
use ratinglift_backend_core.Common.{
  ℕ, ◌+◌, zero, suc, String, Bool, true, false, Option, none, some, List, [], ◌∷◌, ◌++◌, map,
  length, ◌<>◌, str_eq, truthy, is_some, if◌then◌else◌, first,
}
use ratinglift_backend_core.Exec.{http, value_error, ok, err, pure, raise_if, or_raise, ◌>>=◌, ◌>>◌}
use ratinglift_backend_core.Platform.{Platform}
use ratinglift_backend_core.Values.{null, str, dict, field, end}
use ratinglift_backend_core.Models.{
  User, UserRole, role_value, role_of_value, Tenant, starter, active, AuditLog, user as by_user, Db,
  commit,
}
use ratinglift_backend_core.Auth.Attempts.{record_audit_login_attempt}
use ratinglift_backend_core.Auth.Sessions.{Settings, NewTokens, AuthResponse}
use ratinglift_backend_core.Auth.Stores.{Redis, Bcrypt, Auth, on_db}
use ratinglift_backend_core.Auth.Codes.{get_password_hash}
use ratinglift_backend_core.Auth.Accounts.{
  Credentials, is_admin_role, get_user_by_email, create_session, auth_response, user_id_of,
}
use ratinglift_backend_core.Auth.Recovery.{send_email_verification}

pub record TextOps : Type 0 where
  -- `text.split("@", 1)[0]` and `text.replace(old, new)`
  pub before_at : String → String
  pub replace : String → String → String → String
  -- `text[:n]` and `str(n)`
  pub prefix : ℕ → String → String
  pub decimal : ℕ → String

-- what a signup is given; its device is in the credentials, whose `secret` is the password
pub record NewAccount : Type 0 where
  pub credentials : Credentials
  pub full_name : Option String
  pub tenant_name : Option String
  pub role : String

abbrev pub is_named : String → Tenant → Bool
is_named name t = str_eq t.name name

-- the columns of a `User(…)` that the code leaves to their defaults, with those that it gives
unfoldable pub new_user :
    ℕ → Option ℕ → String → Option String → String → UserRole → Bool → ℕ → User
new_user id tenant_id email full_name password_hash role is_admin now = record {
  id = id;
  tenant_id = tenant_id;
  email = email;
  full_name = full_name;
  profile_picture_url = none;
  password_hash = password_hash;
  auth_provider = "password";
  oauth_subject = none;
  role = role;
  is_active = true;
  is_admin = is_admin;
  email_verified = false;
  locked_until = none;
  mfa_enabled = false;
  mfa_email = none;
  mfa_phone = none;
  mfa_email_verified = false;
  mfa_phone_verified = false;
  totp_secret = none;
  totp_verified = false;
  failed_login_attempts = 0;
  created_at = now;
}

module _ (texts : TextOps) where
  unfoldable pub tenant_name_from_email : String → String
  tenant_name_from_email email =
      let base = texts.prefix 30 (texts.replace "_" "-" (texts.before_at email)) in
      (if truthy (some base) then base else "tenant") <> "-tenant"

  -- The loop that looks for a free name, on fuel.
  unfoldable pub free_name : ℕ → String → String → ℕ → List Tenant → Option String
  free_name zero requested_name candidate suffix rows = none
  free_name (suc n) requested_name candidate suffix rows =
      let rest =
        free_name n requested_name (requested_name <> "-" <> texts.decimal (suffix + 1))
          (suffix + 1) rows in
      if is_some (first (is_named candidate) rows) then rest else some candidate

module _ (os : Platform) (texts : TextOps) where
  unfoldable pub requested_name : Option String → String → String
  requested_name tenant_name email =
      let name : String = elim tenant_name [
        | none ↦ tenant_name_from_email texts email
        | some n ↦ if truthy (some n) then n else tenant_name_from_email texts email
      ] in
      texts.replace " " "-" (os.lower (os.strip name))

  unfoldable pub new_tenant : String → List Tenant → Tenant
  new_tenant name rows = record {
    id = os.new_uuid (map (λ (t : Tenant). t.id) rows);
    name = name;
    plan = starter;
    status = active;
    created_at = os.now;
  }

  -- Running out of fuel is an error of its own, which does not happen.
  abbrev add_tenant : Option String → Db Tenant
  add_tenant none s = (err (value_error "fuel"), s)
  add_tenant (some name) s =
      let tenant = new_tenant name s.current.tenants in
      (
        ok tenant,
        record s { current = record s.current { tenants = s.current.tenants ++ tenant ∷ [] } },
      )

  unfoldable pub get_or_create_tenant : Option String → String → Db Tenant
  get_or_create_tenant tenant_name email s =
      let name = requested_name tenant_name email in
      elim (first (is_named name) s.current.tenants) [
        | some tenant ↦ (ok tenant, s)
        | none ↦
            add_tenant
              (free_name texts (suc (length s.current.tenants)) name name 1 s.current.tenants) s
      ]

module _ (os : Platform) where
  -- `db.add(user)` and the flush, which gives it an identifier
  unfoldable pub add_user : Option ℕ → String → Option String → String → UserRole → Bool → Db User
  add_user tenant_id email full_name password_hash role is_admin s =
      let user =
        new_user (os.new_uuid (map user_id_of s.current.users)) tenant_id email full_name
          password_hash role is_admin os.now in
      (ok user, record s { current = record s.current { users = s.current.users ++ user ∷ [] } })

  unfoldable pub admin_entry : User → User → List AuditLog → AuditLog
  admin_entry actor admin_user rows = record {
    id = os.new_uuid (map (λ (r : AuditLog). r.id) rows);
    actor_id = some actor.id;
    actor_type = by_user;
    action = "admin_created";
    entity = "user";
    entity_id = some admin_user.id;
    before_value = null;
    after_value = dict (
        field "email" (str admin_user.email) (field "role" (str (role_value admin_user.role)) end));
    ip_address = none;
    timestamp = os.now;
  }

  -- `role in ADMIN_ROLES`
  abbrev admin_role : String → Option UserRole
  admin_role word = elim (role_of_value word) [
    | none ↦ none
    | some role ↦ if is_admin_role role then some role else none
  ]

  unfoldable pub create_admin : Bcrypt → User → String → String → Option String → String → Db User
  create_admin bcrypt actor email password full_name role = do
    admin ← or_raise (admin_role role) (http 400 "Invalid admin role")
    existing ← get_user_by_email os (os.lower email)
    raise_if (is_some existing) (http 409 "Email already exists")
    admin_user ←
        add_user none (os.lower email) full_name (get_password_hash bcrypt password) admin true
    λ s. (
      ok tt,
      record s {
        current = record s.current {
          audit_logs =
              s.current.audit_logs ++ admin_entry actor admin_user s.current.audit_logs ∷ [];
        };
      },
    )
    commit
    pure admin_user

module _ (os : Platform) (texts : TextOps) {S : Type 0} (redis : Redis S) (settings : Settings)
    (bcrypt : Bcrypt) where
  -- `signup`; the mail with the confirmation is a side matter whose errors the code drops
  unfoldable pub signup : NewTokens → String → NewAccount → Auth S AuthResponse
  signup fresh mail_token account = do
    let c : Credentials = account.credentials
    existing ← on_db (get_user_by_email os c.email)
    raise_if (is_some existing) (http 409 "Email already exists")
    tenant ← on_db (get_or_create_tenant os texts account.tenant_name c.email)
    role ← or_raise (role_of_value account.role) (value_error "is not a valid UserRole")
    user ← on_db (
        add_user os (some tenant.id) (os.lower c.email) account.full_name
          (get_password_hash bcrypt c.secret) role false)
    on_db (create_session os settings fresh c user false)
    on_db (record_audit_login_attempt os c.email true c.ip_address (some user.id) none none)
    send_email_verification os redis settings mail_token user
    on_db commit
    pure (auth_response os settings fresh user false)
