-- ===== src/Auth/Sessions.antt =====
-- The life of a login session in app/modules/auth/service.py: rotation of the refresh token, logout,
-- revocation, and the check of an access token. A token comes in decoded; what `jwt.encode` signs
-- is returned as claims.
use ratinglift_backend_core.Common.{
  ⊤, ℕ, String, Bool, true, false, not, ◌&&◌, ◌+◌, ◌*◌, Option, none, some, List, [], ◌∷◌, ◌++◌,
  map, leb, ◌==◌, str_eq, opt_eq, or_text, truthy, if◌then◌else◌, first, save,
}
use ratinglift_backend_core.Exec.{
  http, value_error, ok, pure, gets, or_raise, raise_if, ◌>>=◌, ◌>>◌,
}
use ratinglift_backend_core.Platform.{Platform}
use ratinglift_backend_core.Values.{null}
use ratinglift_backend_core.Models.{
  User, LoginSession, role_value, AuditLog, user as by_user, Db, commit,
}
use ratinglift_backend_core.Tenancy.Context.{Claims}

-- what the service reads of app/core/config.py, and SHA-256
pub record Settings : Type 0 where
  pub access_token_expiry_minutes : ℕ
  pub admin_access_token_expiry_minutes : ℕ
  pub refresh_token_expiry_minutes : ℕ
  pub mfa_otp_ttl_seconds : ℕ
  pub login_rate_limit_attempts : ℕ
  pub login_rate_limit_window_seconds : ℕ
  pub account_lockout_threshold : ℕ
  pub account_lockout_minutes : ℕ
  pub password_reset_ttl_minutes : ℕ
  pub email_verification_ttl_minutes : ℕ
  pub hash_refresh_token : String → String

-- `new_jti()` and `new_refresh_token()`
pub record NewTokens : Type 0 where
  pub jti : String
  pub refresh : String

-- the token with its secret, and what else the answer carries
pub record AuthResponse : Type 0 where
  pub access_claims : Claims
  pub admin_token : Bool
  pub refresh_token : String
  pub expires_in : ℕ
  pub account : User

abbrev pub session_id_of : LoginSession → ℕ
session_id_of r = r.id

abbrev pub has_jti : String → LoginSession → Bool
has_jti j r = opt_eq str_eq r.jti (some j)

abbrev pub has_hash : String → LoginSession → Bool
has_hash h r = opt_eq str_eq r.refresh_token_hash (some h)

abbrev pub of_user : ℕ → (LoginSession → Bool) → LoginSession → Bool
of_user u p r = (r.user_id == u) && p r

abbrev pub save_session : LoginSession → Db ⊤
save_session row s = (
  ok tt,
  record s {
    current = record s.current { login_sessions = save session_id_of row s.current.login_sessions };
  },
)

abbrev pub has_passed : Option ℕ → ℕ → Bool
has_passed none now = false
has_passed (some t) now = leb t now

module _ (os : Platform) where
  -- an `AuditLog(…)` that the service adds itself, without values
  unfoldable pub add_audit : User → String → String → ℕ → Db ⊤
  add_audit user action entity entity_id s = (
    ok tt,
    record s {
      current = record s.current {
        audit_logs =
            s.current.audit_logs
            ++ record {
              id = os.new_uuid (map (λ (r : AuditLog). r.id) s.current.audit_logs);
              actor_id = some user.id;
              actor_type = by_user;
              action = action;
              entity = entity;
              entity_id = some entity_id;
              before_value = null;
              after_value = null;
              ip_address = none;
              timestamp = os.now;
            }
              ∷ [];
      };
    },
  )

  -- the end that `logout` and `revoke_session` share
  unfoldable pub revoke : User → String → LoginSession → Db ⊤
  revoke user action session = do
    save_session (record session { revoked = true })
    add_audit user action "login_session" session.id
    commit

  unfoldable pub revoke_session : User → String → Db ⊤
  revoke_session user session_id = do
    sid ← or_raise (os.parse_uuid session_id) (http 400 "Invalid session id")
    rows ← gets (λ s. s.current.login_sessions)
    session ←
        or_raise (first (λ (r : LoginSession). (r.id == sid) && (r.user_id == user.id)) rows)
          (http 404 "Session not found")
    revoke user "session_revoked" session

  -- the session by the token's jti, or else by the refresh token
  unfoldable pub session_to_leave :
      Settings → User → Option String → Option String → List LoginSession → Option LoginSession
  session_to_leave settings user jti refresh_token rows =
      let by_refresh : Option LoginSession = elim refresh_token [
        | none ↦ none
        | some t ↦
            if truthy (some t)
            then first (of_user user.id (has_hash (settings.hash_refresh_token t))) rows
            else none
      ] in
      elim jti [
        | none ↦ by_refresh
        | some j ↦
            if truthy (some j)
            then elim (first (of_user user.id (has_jti j)) rows) [
              | none ↦ by_refresh
              | some r ↦ some r
            ]
            else by_refresh
      ]

  abbrev leave : User → Option LoginSession → Db ⊤
  leave user none = pure tt
  leave user (some session) = revoke user "logout" session

  unfoldable pub logout : Settings → User → Option String → Option String → Db ⊤
  logout settings user jti refresh_token s =
      leave user (session_to_leave settings user jti refresh_token s.current.login_sessions) s

  unfoldable pub expiry_minutes : Settings → Bool → ℕ
  expiry_minutes settings admin_token =
      if admin_token
      then settings.admin_access_token_expiry_minutes
      else settings.access_token_expiry_minutes

  -- the payload of `_build_access_token`
  unfoldable pub access_claims : User → String → Claims
  access_claims user jti = record {
    user_id = some (os.show_uuid user.id);
    tenant_id = elim user.tenant_id [ none ↦ none | some t ↦ some (os.show_uuid t) ];
    role = some (role_value user.role);
    is_admin = user.is_admin;
    jti = some jti;
  }

  -- the session with new tokens
  unfoldable pub rotated : Settings → NewTokens → Bool → Option String → LoginSession → LoginSession
  rotated settings fresh admin_token ip_address session = record session {
    refresh_token_hash = some (settings.hash_refresh_token fresh.refresh);
    refresh_expires_at = some (os.now + settings.refresh_token_expiry_minutes * 60);
    jti = some fresh.jti;
    last_used_at = some os.now;
    expires_at = os.now + expiry_minutes settings admin_token * 60;
    ip_address = or_text ip_address session.ip_address;
  }

  unfoldable pub refresh_access_token :
      Settings → NewTokens → String → Option String → Db AuthResponse
  refresh_access_token settings fresh refresh_token ip_address = do
    rows ← gets (λ s. s.current.login_sessions)
    users ← gets (λ s. s.current.users)
    session ←
        or_raise (first (has_hash (settings.hash_refresh_token refresh_token)) rows)
          (http 401 "Invalid refresh token")
    raise_if session.revoked (http 401 "Invalid refresh token")
    raise_if (has_passed session.refresh_expires_at os.now) (http 401 "Refresh token expired")
    user ←
        or_raise (first (λ (u : User). u.id == session.user_id) users)
          (http 401 "User not available")
    raise_if (not user.is_active) (http 401 "User not available")
    save_session (rotated settings fresh user.is_admin ip_address session)
    commit
    pure (record {
      access_claims = access_claims user fresh.jti;
      admin_token = user.is_admin;
      refresh_token = fresh.refresh;
      expires_in = expiry_minutes settings user.is_admin * 60;
      account = user;
    })

  -- whether the session of the token is revoked
  unfoldable pub is_revoked : Option String → List LoginSession → Bool
  is_revoked none rows = false
  is_revoked (some j) rows =
      if truthy (some j)
      then elim (first (has_jti j) rows) [ none ↦ false | some session ↦ session.revoked ]
      else false

  -- `get_current_user`, from the decoded payload on
  unfoldable pub get_current_user : Claims → Db User
  get_current_user payload = do
    user_id ←
        or_raise (if truthy payload.user_id then payload.user_id else none)
          (http 401 "Invalid authentication token")
    uid ← or_raise (os.parse_uuid user_id) (value_error "badly formed hexadecimal UUID string")
    users ← gets (λ s. s.current.users)
    rows ← gets (λ s. s.current.login_sessions)
    user ← or_raise (first (λ (u : User). u.id == uid) users) (http 401 "User not found")
    raise_if (is_revoked payload.jti rows) (http 401 "Session revoked")
    pure user
