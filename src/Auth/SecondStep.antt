-- ===== src/Auth/SecondStep.antt =====
-- What the second step of a sign-in asks for: `verify_mfa_login` of app/modules/auth/service.py.
use ratinglift_backend_core.Common.{
  ⊤, String, Bool, true, false, not, ◌&&◌, ◌||◌, Bool-cases, Option-cases, ◌≡◌, ◌⊎◌, refl, ap, ◌∙◌,
  Option, none, some, arith, inl, inr, str_eq, eq_iff, if◌then◌else◌,
}
use ratinglift_backend_core.Exec.{Error, http, ok, Exec, raise_if, or_raise, ◌>>=◌, ◌>>◌, bind_inv}
use ratinglift_backend_core.Platform.{Platform}
use ratinglift_backend_core.Models.{User, DbSession}
use ratinglift_backend_core.Auth.Sessions.{Settings, AuthResponse, has_passed}
use ratinglift_backend_core.Auth.Stores.{Redis, Bcrypt, Stores, Auth, on_db}
use ratinglift_backend_core.Auth.Codes.{login_purpose, otp_key, verify_stored_otp}
use ratinglift_backend_core.Auth.Totp.{Pyotp}
use ratinglift_backend_core.Auth.Accounts.{
  Credentials, Draws, LoginResult, signed_in, get_user_by_email, unlock, assert_user_can_login,
  is_admin_role, sign_in,
}
use ratinglift_backend_core.Auth.Login.{refuse_login, by_app, code_accepted, verify_mfa_login}
use ratinglift_backend_core.Auth.Soundness.{account_of, entitled_of, refuse-ne-ok}
use ratinglift_backend_core.Auth.Lockout.{thawed}

-- What lets a user past the second step.
pub record MayFinish (os : Platform) (totp : Pyotp) {S : Type 0} (redis : Redis S) (c : Credentials)
    (user : User) (store : S) : Type 0 where
  pub active : user.is_active ≡ true
  pub second_factor : user.mfa_enabled ≡ true
  pub unlocked : (user.locked_until ≡ none) ⊎ (has_passed user.locked_until os.now ≡ true)
  pub entitled : (not c.admin_only || (user.is_admin && is_admin_role user.role)) ≡ true
  pub code :
      (by_app os totp user c.secret ≡ true)
      ⊎ (redis.get (otp_key os redis user.id login_purpose) os.now store ≡ some c.secret)

raised_inv :
    {S A : Type 0} (b : Bool) (e : Error) (f : ⊤ → Exec S A) (s : S) (r : A)
    → ((raise_if b e >>= f) s).0 ≡ ok r
    → (b ≡ false) × ((f tt s).0 ≡ ok r)
raised_inv true e f s r h = absurd (cc h)
raised_inv false e f s r h = (refl, h)

some_inv :
    {S A B : Type 0} (o : Option B) (e : Error) (f : B → Exec S A) (s : S) (r : A)
    → ((or_raise o e >>= f) s).0 ≡ ok r
    → (b : B) × (o ≡ some b) × ((f b s).0 ≡ ok r)
some_inv none e f s r h = absurd (cc h)
some_inv (some b) e f s r h = (b, refl, h)

module _ (os : Platform) {S : Type 0} (redis : Redis S) (settings : Settings) (bcrypt : Bcrypt)
    (totp : Pyotp) where
  unlock_thaws :
      (user user' : User) (s : DbSession)
      → (unlock os user s).0 ≡ ok user'
      → ((user.locked_until ≡ none) ⊎ (has_passed user.locked_until os.now ≡ true))
        × (user' ≡ thawed user)
  unfolding unlock
  unlock_thaws user user' s h = elim (Option-cases user.locked_until) [
    | inl free ↦ (inl free, ground arith)
    | inr (t, held) ↦ (inr (ground arith), ground arith)
  ]

  accepted_code :
      (user : User) (code : String) (s : Stores S)
      → (code_accepted os redis settings totp user code s).0 ≡ ok true
      → (by_app os totp user code ≡ true)
        ⊎ (redis.get (otp_key os redis user.id login_purpose) os.now s.redis ≡ some code)
  unfolding code_accepted verify_stored_otp
  accepted_code user code s h = elim (Bool-cases (by_app os totp user code)) [
    | inl app ↦ inl app
    | inr sent ↦
        elim (Option-cases (redis.get (otp_key os redis user.id login_purpose) os.now s.redis)) [
          | inl gone ↦ absurd (ground arith)
          | inr (otp, there) ↦ elim (Bool-cases (str_eq otp code)) [
            | inl right ↦
                let same : otp ≡ code = (eq_iff otp code).0 right in inr (there ∙ ap some same)
            | inr wrong ↦ absurd (ground arith)
          ]
        ]
  ]

  finish : Draws → Credentials → User → Bool → Auth S LoginResult
  finish draws c user accepted =
      if accepted
      then on_db (sign_in os settings draws c user user.email)
      else refuse_login os redis settings (some user) c.email (os.lower c.email) c "invalid_otp"
          "Invalid OTP"

  finish_inv :
      (draws : Draws) (c : Credentials) (user : User) (accepted : Bool) (s : Stores S)
      (answer : AuthResponse)
      → (finish draws c user accepted s).0 ≡ ok (signed_in answer)
      → accepted ≡ true
  unfolding finish
  finish_inv draws c user true s answer h = refl
  finish_inv draws c user false s answer h = absurd (
      refuse-ne-ok os redis settings bcrypt (some user) c.email (os.lower c.email) c "invalid_otp"
        "Invalid OTP" s (signed_in answer) h)

  -- what was found of the account once its lock had been looked at
  may_finish :
      (c : Credentials) (user user' : User) (store : S)
      → (user.locked_until ≡ none) ⊎ (has_passed user.locked_until os.now ≡ true)
      → user' ≡ thawed user
      → user'.is_active ≡ true
      → user'.mfa_enabled ≡ true
      → (not c.admin_only || (user'.is_admin && is_admin_role user'.role)) ≡ true
      → (by_app os totp user' c.secret ≡ true)
        ⊎ (redis.get (otp_key os redis user'.id login_purpose) os.now store ≡ some c.secret)
      → MayFinish os totp redis c user store
  unfolding by_app
  may_finish c user user' store unlocked thaws active factor entitled code =
      elim (Option-cases user.locked_until) [
        | inl free ↦
            let same : user' ≡ user = thaws ∙ ground arith in
            record {
              active = rw (same) at active;
              second_factor = rw (same) at factor;
              unlocked = unlocked;
              entitled = rw (same) at entitled;
              code = rw (same) at code;
            }
        | inr (t, held) ↦
            let same : user' ≡ record user { locked_until = none; failed_login_attempts = 0 } =
              thaws ∙ ground arith in
            record {
              active = rw (same) at active;
              second_factor = rw (same) at factor;
              unlocked = unlocked;
              entitled = rw (same) at entitled;
              code = rw (same) at code;
            }
      ]

  -- A second step that a caller gets back has been earned: the account has the address that was given,
  -- is active, not locked, has a second factor and, for the administration, is an administrator, and the
  -- code is the authenticator app's or the one that Redis holds for its sign-in.
  pub verify_mfa_login-IsEarned :
      (draws : Draws) (c : Credentials) (s : Stores S) (answer : AuthResponse)
      → (verify_mfa_login os redis settings totp draws c s).0 ≡ ok (signed_in answer)
      → (user : User) × (account_of os c s.db ≡ some user) × MayFinish os totp redis c user s.redis
  unfolding verify_mfa_login get_user_by_email finish
  verify_mfa_login-IsEarned draws c s answer h =
      let end : User → Bool → Auth S LoginResult = λ user accepted. finish draws c user accepted in
      let coded : User → Auth S LoginResult =
        λ user. code_accepted os redis settings totp user c.secret >>= end user in
      let factored : User → Auth S LoginResult =
        λ user. raise_if (not user.mfa_enabled) (http 400 "MFA is not enabled") >> coded user in
      let entered : User → Auth S LoginResult =
        λ user. on_db (assert_user_can_login user c.admin_only) >> factored user in
      let opened : User → Auth S LoginResult = λ known. on_db (unlock os known) >>= entered in
      let known : Option User → Auth S LoginResult =
        λ found. or_raise found (http 404 "User not found") >>= opened in
      let (found, e1, h1) =
        bind_inv (on_db (get_user_by_email os (os.lower c.email))) known s (signed_in answer) h in
      let (user, e2, h2) =
        some_inv found (http 404 "User not found") opened s (signed_in answer) h1 in
      let (user', e3, h3) = bind_inv (on_db (unlock os user)) entered s (signed_in answer) h2 in
      let (unlocked, thaws) = unlock_thaws user user' s.db e3 in
      let s3 : Stores S = (on_db (unlock os user) s).1 in
      let (u, e4, h4) =
        bind_inv (on_db (assert_user_can_login user' c.admin_only)) (λ _. factored user') s3
          (signed_in answer) h3 in
      let (active, entitled) = entitled_of user' c.admin_only s3.db e4 in
      let s4 : Stores S = (on_db (assert_user_can_login user' c.admin_only) s3).1 in
      let (asked, h5) =
        raised_inv (not user'.mfa_enabled) (http 400 "MFA is not enabled") (λ _. coded user') s4
          (signed_in answer) h4 in
      let (accepted, e6, h6) =
        bind_inv (code_accepted os redis settings totp user' c.secret) (end user') s4
          (signed_in answer) h5 in
      let right =
        finish_inv draws c user' accepted (code_accepted os redis settings totp user' c.secret s4).1
          answer h6 in
      let code = accepted_code user' c.secret s4 (e6 ∙ ap ok right) in
      (
        user,
        cc e1 ∙ e2,
        may_finish c user user' s.redis unlocked thaws active (ground arith) entitled code,
      )
