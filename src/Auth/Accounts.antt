-- ===== src/Auth/Accounts.antt =====
-- A user's account in app/modules/auth/service.py: who may sign in, the lock after failures, and the
-- session that a success creates.
use ratinglift_backend_core.Common.{
  ⊤, ℕ, ◌+◌, ◌*◌, String, Bool, true, false, not, ◌&&◌, Option, none, some, List, [], ◌∷◌, ◌++◌,
  map, ltb, leb, str_eq, truthy, if◌then◌else◌, first, save,
}
use ratinglift_backend_core.Exec.{http, ok, err, pure, raise_if, ◌>>=◌, ◌>>◌}
use ratinglift_backend_core.Platform.{Platform}
use ratinglift_backend_core.Values.{null, str, dict, field, end}
use ratinglift_backend_core.Models.{
  User, UserRole, super_admin, finance_admin, support_admin, ops_admin, compliance_admin,
  LoginSession, system, AuditLog, Db, commit,
}
use ratinglift_backend_core.Auth.Attempts.{record_audit_login_attempt}
use ratinglift_backend_core.Auth.Sessions.{
  Settings, NewTokens, AuthResponse, session_id_of, expiry_minutes, access_claims,
}

-- what a sign-in is given
pub record Credentials : Type 0 where
  pub email : String
  pub secret : String
  pub ip_address : Option String
  pub device_info : Option String
  pub location : Option String
  pub admin_only : Bool

-- the random texts that a sign-in may draw
pub record Draws : Type 0 where
  pub tokens : NewTokens
  pub otp : String

-- the `AuthResponse`: signed in, or asked for the second factor
pub data LoginResult : Type 0 where
  signed_in : AuthResponse → LoginResult
  mfa_required : String → LoginResult

abbrev pub user_id_of : User → ℕ
user_id_of u = u.id

abbrev pub save_user : User → Db ⊤
save_user row s =
    (ok tt, record s { current = record s.current { users = save user_id_of row s.current.users } })

-- `user.role.value in ADMIN_ROLES`
unfoldable pub is_admin_role : UserRole → Bool
is_admin_role super_admin = true
is_admin_role finance_admin = true
is_admin_role support_admin = true
is_admin_role ops_admin = true
is_admin_role compliance_admin = true
is_admin_role _ = false

abbrev pub opt_id : Option User → Option ℕ
opt_id none = none
opt_id (some u) = some u.id

abbrev pub or_unknown : Option String → String
or_unknown none = "unknown"
or_unknown (some s) = if truthy (some s) then s else "unknown"

abbrev pub locked_detail : String
locked_detail = "Account temporarily locked due to failed login attempts."

unfoldable pub assert_user_can_login : User → Bool → Db ⊤
assert_user_can_login user admin_only = do
  raise_if (not user.is_active) (http 403 "User is inactive")
  raise_if (admin_only && not user.is_admin) (http 403 "Admin access required")
  raise_if (admin_only && not (is_admin_role user.role)) (http 403 "Invalid admin role")

unfoldable pub reset_user : User → User
reset_user user = record user { failed_login_attempts = 0; locked_until = none }

module _ (os : Platform) where
  unfoldable pub get_user_by_email : String → Db (Option User)
  get_user_by_email email s =
      (ok (first (λ (u : User). str_eq u.email (os.lower email)) s.current.users), s)

  -- `_assert_not_locked` on a user, who comes back as afterwards: an expired lock is cleared.
  unfoldable pub unlock : User → Db User
  unlock user s = elim user.locked_until [
    | none ↦ (ok user, s)
    | some until ↦
        if ltb os.now until
        then (err (http 423 locked_detail), s)
        else (let user' : User = record user { locked_until = none; failed_login_attempts = 0 } in
            let (r, s') = save_user user' s in (ok user', s'))
  ]

  unfoldable pub assert_not_locked : Option User → Db (Option User)
  assert_not_locked none = pure none
  assert_not_locked (some user) = do user' ← unlock user; pure (some user')

  -- the `AuditLog(…)` of a lockout
  unfoldable pub locked_entry : User → ℕ → List AuditLog → AuditLog
  locked_entry user until rows = record {
    id = os.new_uuid (map (λ (r : AuditLog). r.id) rows);
    actor_id = some user.id;
    actor_type = system;
    action = "account_locked";
    entity = "user";
    entity_id = some user.id;
    before_value = null;
    after_value = dict (field "until" (str (os.isoformat until)) end);
    ip_address = none;
    timestamp = os.now;
  }

  unfoldable pub failed_user : Settings → User → User
  failed_user settings user =
      let n = user.failed_login_attempts + 1 in
      if leb settings.account_lockout_threshold n
      then record user {
        failed_login_attempts = n;
        locked_until = some (os.now + settings.account_lockout_minutes * 60);
      }
      else record user { failed_login_attempts = n }

  unfoldable pub register_failure_and_maybe_lock : Settings → User → Db ⊤
  register_failure_and_maybe_lock settings user s =
      let until = os.now + settings.account_lockout_minutes * 60 in
      let (r, s') = save_user (failed_user settings user) s in
      if leb settings.account_lockout_threshold (user.failed_login_attempts + 1)
      then (
        ok tt,
        record s' {
          current = record s'.current {
            audit_logs =
                s'.current.audit_logs ++ locked_entry user until s'.current.audit_logs ∷ [];
          };
        },
      )
      else (ok tt, s')

  -- The session row: jti and refresh token are fresh, so the unique index on jti is not violated.
  unfoldable pub new_session :
      Settings → NewTokens → Credentials → User → Bool → List LoginSession → LoginSession
  new_session settings fresh c user admin_token rows = record {
    id = os.new_uuid (map session_id_of rows);
    user_id = user.id;
    jti = some fresh.jti;
    refresh_token_hash = some (settings.hash_refresh_token fresh.refresh);
    refresh_expires_at = some (os.now + settings.refresh_token_expiry_minutes * 60);
    ip_address = c.ip_address;
    device_info = c.device_info;
    location = c.location;
    created_at = os.now;
    last_used_at = some os.now;
    expires_at = os.now + expiry_minutes os settings admin_token * 60;
    revoked = false;
  }

  unfoldable pub create_session : Settings → NewTokens → Credentials → User → Bool → Db ⊤
  create_session settings fresh c user admin_token s = (
    ok tt,
    record s {
      current = record s.current {
        login_sessions =
            s.current.login_sessions
            ++ new_session settings fresh c user admin_token s.current.login_sessions ∷ [];
      };
    },
  )

  -- `_build_auth_response`, with the token of `_build_access_token`
  unfoldable pub auth_response : Settings → NewTokens → User → Bool → AuthResponse
  auth_response settings fresh user admin_token = record {
    access_claims = access_claims os user fresh.jti;
    admin_token = admin_token;
    refresh_token = fresh.refresh;
    expires_in = expiry_minutes os settings admin_token * 60;
    account = user;
  }

  -- what `login_with_password` and `verify_mfa_login` do once the user is known
  unfoldable pub sign_in : Settings → Draws → Credentials → User → String → Db LoginResult
  sign_in settings draws c user email = do
    let user' = reset_user user
    save_user user'
    create_session settings draws.tokens c user' c.admin_only
    record_audit_login_attempt os email true c.ip_address (some user'.id) none none
    commit
    pure (signed_in (auth_response settings draws.tokens user' c.admin_only))
