-- ===== src/Tests/SignIns.antt =====
-- The theorems on signing in, at accounts with one password.
use ratinglift_backend_core.Common.{
  true, false, ◌≡◌, refl, inl, none, some, arith, first, ◌+◌, ◌*◌, leb, ltb, if◌then◌else◌, ◌≤◌,
  ◌⊎◌, String, List, All, length, ◌++◌,
}
use ratinglift_backend_core.Exec.{ok, err, http}
use ratinglift_backend_core.Models.{User}
use ratinglift_backend_core.Security.IpBlocking.{ensure_ip_allowed, is_ip_blocked}
use ratinglift_backend_core.Security.Blocklist.{at}
use ratinglift_backend_core.Auth.Sessions.{get_current_user}
use ratinglift_backend_core.Auth.Codes.{login_purpose, verify_password, verify_stored_otp}
use ratinglift_backend_core.Auth.Accounts.{signed_in, mfa_required, reset_user, auth_response}
use ratinglift_backend_core.Auth.Login.{check_login_rate_limit, login_with_password}
use ratinglift_backend_core.Auth.Soundness.{account_of, MaySignIn, login_with_password-IsEarned}
use ratinglift_backend_core.Auth.Lockout.{IsRefused, opened, locked-login_with_password}
use ratinglift_backend_core.Auth.WrongPassword.{rate_limit, wrong-login_with_password, lockout}
use ratinglift_backend_core.Auth.Admission.{login_with_password-get_current_user}
use ratinglift_backend_core.Auth.Stores.{Message}
use ratinglift_backend_core.Auth.Challenge.{IsTo}
use ratinglift_backend_core.Auth.FirstStep.{login_with_password-verify_stored_otp}
use ratinglift_backend_core.Tests.Texts.{show_bars, read_bars, seal}
use ratinglift_backend_core.Tests.World.{os}
use ratinglift_backend_core.Tests.Logins.{settings}
use ratinglift_backend_core.Tests.Stores.{
  redis, redis_laws, bcrypt, ben, dan, locked, stores_of, by, draws,
}

ben_right : verify_password bcrypt "secret" ben.password_hash ≡ true
unfolding verify_password seal
ben_right = refl

ben_wrong : verify_password bcrypt "guess" ben.password_hash ≡ false
unfolding verify_password seal
ben_wrong = refl

ben_found : account_of os (by "b@b.c" "secret") (stores_of ben).db ≡ some ben
unfolding first
ben_found = refl

ben_may : MaySignIn os bcrypt (by "b@b.c" "secret") ben
ben_may = record {
  password = ben_right;
  active = refl;
  no_second_factor = refl;
  unlocked = inl refl;
  entitled = refl;
}

anywhere : (user : User) → (ensure_ip_allowed os none (stores_of user).db).0 ≡ ok tt
unfolding ensure_ip_allowed is_ip_blocked
anywhere user = refl

first_try :
    (user : User)
    → (rate_limit os redis settings bcrypt (by "b@b.c" "secret") (stores_of user)).0 ≡ ok tt
unfolding check_login_rate_limit
first_try user = refl

first_guess :
    (user : User)
    → (rate_limit os redis settings bcrypt (by "b@b.c" "guess") (stores_of user)).0 ≡ ok tt
unfolding check_login_rate_limit
first_guess user = refl

login_with_password-get_current_user_example :
    let (r, s') =
      login_with_password os redis settings bcrypt draws (by "b@b.c" "secret") (stores_of ben) in
    let answer = auth_response os settings draws.tokens (reset_user ben) false in
    (r ≡ ok (signed_in answer))
    × ((get_current_user os answer.access_claims (opened s'.db.committed)).0 ≡ ok (reset_user ben))
unfolding first show_bars read_bars
login_with_password-get_current_user_example =
    login_with_password-get_current_user os redis settings bcrypt draws (by "b@b.c" "secret") ben
      (stores_of ben) refl refl ben_may (anywhere ben) (first_try ben) refl refl refl

login_with_password-IsEarned_example :
    (user : User) × (account_of os (by "b@b.c" "secret") (stores_of ben).db ≡ some user)
    × MaySignIn os bcrypt (by "b@b.c" "secret") user
    × (auth_response os settings draws.tokens (reset_user ben) false
        ≡ auth_response os settings draws.tokens (reset_user user) false)
login_with_password-IsEarned_example =
    login_with_password-IsEarned os redis settings bcrypt draws (by "b@b.c" "secret")
      (stores_of ben) (auth_response os settings draws.tokens (reset_user ben) false)
      login_with_password-get_current_user_example.0

locked-login_with_password_example :
    IsRefused
      (login_with_password os redis settings bcrypt draws (by "b@b.c" "secret"))
      (stores_of locked)
unfolding first
locked-login_with_password_example =
    locked-login_with_password os redis settings bcrypt draws (by "b@b.c" "secret") locked 9000
      (stores_of locked) refl refl refl

wrong-login_with_password_example :
    let (r, s') =
      login_with_password os redis settings bcrypt draws (by "b@b.c" "guess") (stores_of ben) in
    (r ≡ err (http 401 "Invalid credentials"))
    × (account_of os (by "b@b.c" "guess") (opened s'.db.committed)
        ≡ some (record ben {
          failed_login_attempts = ben.failed_login_attempts + 1;
          locked_until =
              if leb settings.account_lockout_threshold (ben.failed_login_attempts + 1)
              then some (os.now + settings.account_lockout_minutes * 60)
              else none;
        }))
unfolding first
wrong-login_with_password_example =
    wrong-login_with_password os redis settings bcrypt draws (by "b@b.c" "guess") ben
      (stores_of ben) refl (anywhere ben) (first_guess ben) (inl refl) ben_wrong

lockout_example :
    let s' =
      (login_with_password os redis settings bcrypt draws (by "b@b.c" "guess") (stores_of dan)).1 in
    IsRefused
      (login_with_password (at 5800 os) redis settings bcrypt draws (by "b@b.c" "secret"))
      (record s' { db = opened s'.db.committed; redis = s'.redis })
unfolding first
lockout_example =
    lockout os redis settings bcrypt draws draws (by "b@b.c" "guess") (by "b@b.c" "secret") dan
      (stores_of dan) 5800
      (login_with_password os redis settings bcrypt draws (by "b@b.c" "guess")
        (stores_of dan)).1.redis
      refl (anywhere dan) (first_guess dan) (inl refl) ben_wrong (omega arith) refl (omega arith)

-- with a verified phone
abbrev dora : User
dora = record ben { mfa_enabled = true; mfa_phone = some "+15550100"; mfa_phone_verified = true }

login_with_password-verify_stored_otp_example :
    let s = stores_of dora in
    let (r, s') = login_with_password os redis settings bcrypt draws (by "b@b.c" "secret") s in
    ((text : String) × (r ≡ ok (mfa_required text)))
    × (s'.db.committed.login_sessions ≡ s.db.current.login_sessions)
    × (((dora.totp_verified ≡ true)
          × (s'.redis ≡ (rate_limit os redis settings bcrypt (by "b@b.c" "secret") s).1.redis)
          × (s'.outbox ≡ s.outbox))
        ⊎ ((dora.totp_verified ≡ false)
            × ((verify_stored_otp (at 5100 os) redis dora.id draws.otp login_purpose s').0
                ≡ ok (ltb 5100 (os.now + settings.mfa_otp_ttl_seconds)))
            × ((sent : List Message) × (s'.outbox ≡ s.outbox ++ sent)
                × (1 ≤ length sent)
                × (length sent ≤ 2)
                × All (IsTo dora draws.otp) sent)))
unfolding first
login_with_password-verify_stored_otp_example =
    login_with_password-verify_stored_otp os redis redis_laws settings bcrypt draws
      (by "b@b.c" "secret") dora 5100 (stores_of dora) refl ben_right refl refl (inl refl) refl
      (anywhere dora) (first_try dora)
