-- ===== src/Tests/Logins.antt =====
-- The theorems on login sessions, at a user with one session.
use ratinglift_backend_core.Common.{
  ◌*◌, true, false, ◌≡◌, ◌⊎◌, refl, none, some, [], ◌∷◌, arith, first, save, eq_iff,
}
use ratinglift_backend_core.Exec.{ok, err, http}
use ratinglift_backend_core.Models.{User, LoginSession, Database, DbSession, owner}
use ratinglift_backend_core.Tenancy.Context.{Claims}
use ratinglift_backend_core.Auth.Sessions.{
  Settings, NewTokens, AuthResponse, expiry_minutes, access_claims, is_revoked, get_current_user,
  logout, revoke_session, session_id_of, refresh_access_token,
}
use ratinglift_backend_core.Auth.Revocation.{
  sessions_of, revoked_now, logout-get_current_user, revoke_session-isolated,
}
use ratinglift_backend_core.Auth.StaleTokens.{refresh-get_current_user}
use ratinglift_backend_core.Auth.Rotation.{refresh_access_token-refresh_access_token}
use ratinglift_backend_core.Tests.Texts.{read_bars}
use ratinglift_backend_core.Tests.World.{os, db}

abbrev pub settings : Settings
settings = record {
  access_token_expiry_minutes = 15;
  admin_access_token_expiry_minutes = 5;
  refresh_token_expiry_minutes = 60;
  mfa_otp_ttl_seconds = 300;
  login_rate_limit_attempts = 5;
  login_rate_limit_window_seconds = 60;
  account_lockout_threshold = 10;
  account_lockout_minutes = 15;
  password_reset_ttl_minutes = 30;
  email_verification_ttl_minutes = 1440;
  hash_refresh_token = λ t. t;
}

abbrev pub anna : User
anna = record {
  id = 1;
  tenant_id = some 2;
  email = "a@b.c";
  full_name = none;
  profile_picture_url = none;
  password_hash = "";
  auth_provider = "password";
  oauth_subject = none;
  role = owner;
  is_active = true;
  is_admin = false;
  email_verified = true;
  locked_until = none;
  mfa_enabled = false;
  mfa_email = none;
  mfa_phone = none;
  mfa_email_verified = false;
  mfa_phone_verified = false;
  totp_secret = none;
  totp_verified = false;
  failed_login_attempts = 0;
  created_at = 1;
}

abbrev pub login : LoginSession
login = record {
  id = 9;
  user_id = 1;
  jti = some "jti";
  refresh_token_hash = some "refresh";
  refresh_expires_at = some 6000;
  ip_address = none;
  device_info = none;
  location = none;
  created_at = 1;
  last_used_at = none;
  expires_at = 5900;
  revoked = false;
}

abbrev home : Database
home = record db { users = anna ∷ []; login_sessions = login ∷ [] }

abbrev signed_in : DbSession
signed_in = record { committed = home; current = home }

abbrev token : Claims
token = record {
  user_id = some "x";
  tenant_id = some "xx";
  role = some "OWNER";
  is_admin = false;
  jti = some "jti";
}

abbrev second : NewTokens
second = record { jti = "jti 2"; refresh = "refresh 2" }

abbrev third : NewTokens
third = record { jti = "jti 3"; refresh = "refresh 3" }

token_accepted : (get_current_user os token signed_in).0 ≡ ok anna
unfolding get_current_user is_revoked read_bars first
token_accepted = refl

refreshes :
    (refresh_access_token os settings second "refresh" none signed_in).0
    ≡ ok (record {
      access_claims = access_claims os anna "jti 2";
      admin_token = false;
      refresh_token = "refresh 2";
      expires_in = expiry_minutes os settings false * 60;
      account = anna;
    })
unfolding refresh_access_token first
refreshes = refl

logout-get_current_user_example :
    let after = (logout os settings anna (some "jti") none signed_in).1 in
    ((get_current_user os token after).0 ≡ err (http 401 "Session revoked"))
    × (refresh_access_token os settings second "refresh" none after
        ≡ (err (http 401 "Invalid refresh token"), after))
    × (after.committed ≡ after.current)
unfolding first
logout-get_current_user_example =
    logout-get_current_user os settings second token "jti" "refresh" none none anna login signed_in
      token_accepted refl refl refl refl refl

refresh_access_token-refresh_access_token_example :
    let after = (refresh_access_token os settings second "refresh" none signed_in).1 in
    (refresh_access_token os settings third "refresh" none after
      ≡ (err (http 401 "Invalid refresh token"), after))
    × (next : AuthResponse) × ((refresh_access_token os settings third "refresh 2" none after).0
        ≡ ok next)
    × (next.account ≡ anna)
unfolding first
refresh_access_token-refresh_access_token_example =
    refresh_access_token-refresh_access_token os settings second third "refresh" none none login
      signed_in _ refl (λ h. refl, tt) (refl, tt) (omega arith) refreshes

revoke_session-isolated_example :
    let (r, after) = revoke_session os anna "xxxxxxxxx" signed_in in
    (sessions_of os 5 after ≡ sessions_of os 5 signed_in)
    × (((r ≡ err (http 400 "Invalid session id")) × (after ≡ signed_in))
        ⊎ ((r ≡ err (http 404 "Session not found")) × (after ≡ signed_in))
        ⊎ ((row : LoginSession) × (r ≡ ok tt)
            × (os.parse_uuid "xxxxxxxxx" ≡ some row.id)
            × (row.user_id ≡ anna.id)
            × (after.committed.login_sessions
                ≡ save session_id_of (revoked_now row) signed_in.current.login_sessions)))
revoke_session-isolated_example =
    revoke_session-isolated os anna "xxxxxxxxx" 5 signed_in (tt, tt) (λ e. ground arith)

refresh-get_current_user_example :
    let refreshed = (refresh_access_token os settings second "refresh" none signed_in).1 in
    let after = (logout os settings anna (some "jti 2") none refreshed).1 in
    (get_current_user os token after).0 ≡ ok anna
unfolding first
refresh-get_current_user_example =
    refresh-get_current_user os settings second token "jti" "refresh" none anna login signed_in _
      token_accepted refl refl (λ h. refl, tt) (λ e. absurd (cc ((eq_iff "jti 2" "jti").1 e)))
      refreshes
