-- ===== src/Auth/Login.antt =====
-- Signing in with a password in app/modules/auth/service.py: the rate limit, the count of failures, the
-- second factor. The mails and messages of a second factor are taken to be accepted by their senders.
use ratinglift_backend_core.Common.{
  ⊤, String, Bool, true, false, not, ◌&&◌, Option, none, some, List, [], ◌∷◌, ◌++◌, ltb, ◌==◌, ◌<>◌,
  truthy, if◌then◌else◌,
}
use ratinglift_backend_core.Exec.{http, ok, err, pure, raise, or_raise, raise_if, ◌>>=◌, ◌>>◌}
use ratinglift_backend_core.Platform.{Platform}
use ratinglift_backend_core.Models.{User, Db, commit}
use ratinglift_backend_core.Security.IpBlocking.{ensure_ip_allowed}
use ratinglift_backend_core.Auth.Attempts.{record_audit_login_attempt}
use ratinglift_backend_core.Auth.Sessions.{Settings}
use ratinglift_backend_core.Auth.Stores.{Redis, Bcrypt, Message, Auth, on_db}
use ratinglift_backend_core.Auth.Codes.{
  login_purpose, verify_password, store_otp, verify_stored_otp,
}
use ratinglift_backend_core.Auth.Totp.{Pyotp, verify_code}
use ratinglift_backend_core.Auth.Accounts.{
  Credentials, Draws, LoginResult, mfa_required, opt_id, or_unknown, assert_user_can_login,
  get_user_by_email, unlock, assert_not_locked, register_failure_and_maybe_lock, sign_in,
}

abbrev pub password_fits : Bcrypt → String → Option User → Option User
password_fits bcrypt password none = none
password_fits bcrypt password (some user) =
    if verify_password bcrypt password user.password_hash then some user else none

-- what a channel is sent, if it is configured and verified
abbrev pub to_channel : Bool → Option String → Bool → String → List Message
to_channel by_sms none verified otp = []
to_channel by_sms (some address) verified otp =
    if truthy (some address) && verified
    then record { by_sms = by_sms; destination = address; secret = otp; purpose = login_purpose }
      ∷ []
    else []

abbrev pub or_account : List Message → User → String → List Message
or_account [] user otp =
    record { by_sms = false; destination = user.email; secret = otp; purpose = login_purpose } ∷ []
or_account (m ∷ ms) user otp = m ∷ ms

-- `_dispatch_login_otp`: every verified channel, or else the account's own address
unfoldable pub login_messages : User → String → List Message
login_messages user otp =
    or_account
      (to_channel false user.mfa_email user.mfa_email_verified otp
        ++ to_channel true user.mfa_phone user.mfa_phone_verified otp)
      user otp

unfoldable pub by_app : Platform → Pyotp → User → String → Bool
by_app os totp user code = elim user.totp_secret [
  | none ↦ false
  | some secret ↦ user.totp_verified && (truthy (some secret) && verify_code os totp secret code)
]

module _ (os : Platform) {S : Type 0} (redis : Redis S) (settings : Settings) where
  unfoldable pub check_login_rate_limit : String → String → Auth S ⊤
  check_login_rate_limit scope identifier s =
      let key = "auth:rate-limit:" <> scope <> ":" <> identifier in
      let (attempts, store) = redis.incr key os.now s.redis in
      let store' =
        if attempts == 1
        then redis.expire key settings.login_rate_limit_window_seconds os.now store
        else store in
      (
        if ltb settings.login_rate_limit_attempts attempts
            then err (http 429 "Too many login attempts. Please retry later.")
            else ok tt,
        record s { redis = store' },
      )

  abbrev pub register_failure : Option User → Db ⊤
  register_failure none = pure tt
  register_failure (some user) = register_failure_and_maybe_lock os settings user

  -- `_track_failed_login`; the counter in Redis is read nowhere
  unfoldable pub track_failed_login : Option User → String → Auth S ⊤
  track_failed_login user email = do
    on_db (register_failure user)
    λ s.
        let key = "auth:failed-login:" <> os.lower email in
        let (attempts, store) = redis.incr key os.now s.redis in
        (
          ok tt,
          record s { redis = if attempts == 1 then redis.expire key 86400 os.now store else store },
        )

  -- the end of a sign-in with a wrong password or code
  unfoldable pub refuse_login :
      Option User → String → String → Credentials → String → String → Auth S LoginResult
  refuse_login user tracked email c reason detail = do
    track_failed_login user tracked
    on_db (record_audit_login_attempt os email false c.ip_address (opt_id user) (some reason) none)
    on_db commit
    raise (http 401 detail)

  -- the code that is sent, unless the authenticator app is the source of truth
  unfoldable pub challenge : Draws → User → Auth S String
  challenge draws user =
      if user.totp_verified
      then pure "Enter the 6-digit code from your authenticator app at /api/v1/auth/mfa/verify."
      else do
        store_otp os redis user.id settings.mfa_otp_ttl_seconds login_purpose draws.otp
        λ s. (ok tt, record s { outbox = s.outbox ++ login_messages user draws.otp })
        pure "OTP sent to your verified channels. Verify at /api/v1/auth/mfa/verify."

  unfoldable pub issue_challenge : Draws → Credentials → User → String → Auth S LoginResult
  issue_challenge draws c user email = do
    text ← challenge draws user
    on_db (
        record_audit_login_attempt os email false c.ip_address (some user.id)
          (some "mfa_challenge_issued") none)
    on_db commit
    pure (mfa_required text)

  -- `login_with_password`, once the password is known to be right
  unfoldable pub admit : Draws → Credentials → String → User → Auth S LoginResult
  admit draws c email user = do
    on_db (assert_user_can_login user c.admin_only)
    if user.mfa_enabled
        then issue_challenge draws c user email
        else on_db (sign_in os settings draws c user email)

  abbrev pub decide : Draws → Credentials → String → Option User → Option User → Auth S LoginResult
  decide draws c email user (some fits) = admit draws c email fits
  decide draws c email user none =
      refuse_login user email email c "invalid_credentials" "Invalid credentials"

  unfoldable pub login_with_password : Bcrypt → Draws → Credentials → Auth S LoginResult
  login_with_password bcrypt draws c = do
    on_db (ensure_ip_allowed os c.ip_address)
    let email = os.lower c.email
    check_login_rate_limit (if c.admin_only then "admin" else "user")
        (email <> ":" <> or_unknown c.ip_address)
    found ← on_db (get_user_by_email os email)
    user ← on_db (assert_not_locked os found)
    decide draws c email user (password_fits bcrypt c.secret user)

  -- TOTP first, then the code that was sent
  unfoldable pub code_accepted : Pyotp → User → String → Auth S Bool
  code_accepted totp user code =
      if by_app os totp user code
      then pure true
      else verify_stored_otp os redis user.id code login_purpose

  unfoldable pub verify_mfa_login : Pyotp → Draws → Credentials → Auth S LoginResult
  verify_mfa_login totp draws c = do
    found ← on_db (get_user_by_email os (os.lower c.email))
    known ← or_raise found (http 404 "User not found")
    user ← on_db (unlock os known)
    on_db (assert_user_can_login user c.admin_only)
    raise_if (not user.mfa_enabled) (http 400 "MFA is not enabled")
    accepted ← code_accepted totp user c.secret
    if accepted
        then on_db (sign_in os settings draws c user user.email)
        else refuse_login (some user) c.email (os.lower c.email) c "invalid_otp" "Invalid OTP"
