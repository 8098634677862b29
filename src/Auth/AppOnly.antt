-- ===== src/Auth/AppOnly.antt =====
-- What the second step of a sign-in does not ask for: `verify_mfa_login` of app/modules/auth/service.py.
use ratinglift_backend_core.Common.{
  String, Bool, true, not, ◌&&◌, ◌||◌, ◌≡◌, refl, ap, ◌∙◌, Option, none, some, arith, if◌then◌else◌,
}
use ratinglift_backend_core.Exec.{http, ok, raise_if, or_raise, ◌>>=◌, ◌>>◌, bind_ok}
use ratinglift_backend_core.Platform.{Platform}
use ratinglift_backend_core.Models.{User, DbSession}
use ratinglift_backend_core.Auth.Sessions.{Settings}
use ratinglift_backend_core.Auth.Stores.{Redis, Stores, Auth, on_db}
use ratinglift_backend_core.Auth.Totp.{Pyotp}
use ratinglift_backend_core.Auth.Accounts.{
  Credentials, Draws, LoginResult, signed_in, get_user_by_email, unlock, assert_user_can_login,
  is_admin_role, reset_user, auth_response, sign_in,
}
use ratinglift_backend_core.Auth.Login.{refuse_login, by_app, code_accepted, verify_mfa_login}
use ratinglift_backend_core.Auth.Soundness.{account_of}
use ratinglift_backend_core.Auth.Admission.{signed, may_login}

module _ (os : Platform) {S : Type 0} (redis : Redis S) (settings : Settings) (totp : Pyotp) where
  unlock_free :
      (user : User) (s : DbSession) → user.locked_until ≡ none → unlock os user s ≡ (ok user, s)
  unfolding unlock
  unlock_free user s free = ground arith

  app_code :
      (user : User) (code : String) (s : Stores S)
      → by_app os totp user code ≡ true
      → code_accepted os redis settings totp user code s ≡ (ok true, s)
  unfolding code_accepted
  app_code user code s right = rw (right) refl

  -- A code of the authenticator app signs in by itself: for an active account that is not locked and has a
  -- verified app, the second step answers with tokens whatever Redis holds, so no first step with the
  -- password need have been taken, and whatever the table of blocked addresses says.
  pub app-verify_mfa_login :
      (draws : Draws) (c : Credentials) (user : User) (s : Stores S)
      → account_of os c s.db ≡ some user
      → user.is_active ≡ true
      → user.locked_until ≡ none
      → user.mfa_enabled ≡ true
      → (not c.admin_only || (user.is_admin && is_admin_role user.role)) ≡ true
      → by_app os totp user c.secret ≡ true
      → (verify_mfa_login os redis settings totp draws c s).0
        ≡ ok (signed_in (auth_response os settings draws.tokens (reset_user user) c.admin_only))
  unfolding verify_mfa_login get_user_by_email
  app-verify_mfa_login draws c user s found active free factor entitled right =
      let end : User → Bool → Auth S LoginResult = λ user accepted.
        if accepted
        then on_db (sign_in os settings draws c user user.email)
        else refuse_login os redis settings (some user) c.email (os.lower c.email) c "invalid_otp"
            "Invalid OTP" in
      let coded : User → Auth S LoginResult =
        λ user. code_accepted os redis settings totp user c.secret >>= end user in
      let factored : User → Auth S LoginResult =
        λ user. raise_if (not user.mfa_enabled) (http 400 "MFA is not enabled") >> coded user in
      let entered : User → Auth S LoginResult =
        λ user. on_db (assert_user_can_login user c.admin_only) >> factored user in
      let opened : User → Auth S LoginResult = λ known. on_db (unlock os known) >>= entered in
      let known : Option User → Auth S LoginResult =
        λ found. or_raise found (http 404 "User not found") >>= opened in
      let login = may_login os settings user c.admin_only s.db active entitled in
      let thaw = unlock_free user s.db free in
      let app = app_code user c.secret s right in
      let (answered, users, sessions) = signed os settings draws c user user.email s.db in
      ap (λ o. (known o s).0) found
      ∙ ap (λ p. p.0)
          (bind_ok (on_db (unlock os user)) entered s user (ap (λ p. p.0) thaw)
            (ap (λ p. record s { db = p.1 }) thaw))
      ∙ ap (λ p. p.0)
          (bind_ok (on_db (assert_user_can_login user c.admin_only)) (λ _. factored user) s tt
            (ap (λ p. p.0) login) (ap (λ p. record s { db = p.1 }) login))
      ∙ ap (λ b. ((raise_if (not b) (http 400 "MFA is not enabled") >> coded user) s).0) factor
      ∙ ap (λ p. p.0)
          (bind_ok (code_accepted os redis settings totp user c.secret) (end user) s true
            (ap (λ p. p.0) app) (ap (λ p. p.1) app))
      ∙ answered
