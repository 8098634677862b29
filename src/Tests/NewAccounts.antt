-- ===== src/Tests/NewAccounts.antt =====
-- The theorems on recovery, second factors and signups, at one account each.
use ratinglift_backend_core.Common.{
  ◌+◌, ◌*◌, true, false, ◌&&◌, ◌≡◌, ◌⊎◌, refl, none, some, [], ◌∷◌, ◌++◌, first, ltb, str_eq,
}
use ratinglift_backend_core.Exec.{ok, err, http}
use ratinglift_backend_core.Models.{User, role_of_value, owner, Tenant}
use ratinglift_backend_core.Security.IpBlocking.{ensure_ip_allowed, is_ip_blocked}
use ratinglift_backend_core.Security.Blocklist.{at}
use ratinglift_backend_core.Auth.Sessions.{has_jti, get_current_user, access_claims}
use ratinglift_backend_core.Auth.Codes.{
  login_purpose, verify_password, issue_token, store_otp, verify_stored_otp,
}
use ratinglift_backend_core.Auth.Totp.{verify_code}
use ratinglift_backend_core.Audit.{log_action}
use ratinglift_backend_core.Security.LoginTracking.{record_login_attempt}
use ratinglift_backend_core.Auth.Attempts.{record_audit_login_attempt}
use ratinglift_backend_core.Auth.Accounts.{
  Draws, get_user_by_email, create_session, new_session, signed_in, reset_user, auth_response,
}
use ratinglift_backend_core.Auth.Login.{
  by_app, check_login_rate_limit, login_with_password, verify_mfa_login,
}
use ratinglift_backend_core.Auth.Recovery.{
  send_email_verification, request_password_reset, reset_password,
}
use ratinglift_backend_core.Auth.Soundness.{account_of}
use ratinglift_backend_core.Auth.Lockout.{opened}
use ratinglift_backend_core.Auth.WrongPassword.{rate_limit}
use ratinglift_backend_core.Auth.ResetTokens.{
  by_email, next_request, live_sessions, request_password_reset-reset_password,
}
use ratinglift_backend_core.Auth.OneTimeCodes.{store_otp-verify_stored_otp}
use ratinglift_backend_core.Auth.SecondStep.{MayFinish, verify_mfa_login-IsEarned}
use ratinglift_backend_core.Auth.AppOnly.{app-verify_mfa_login}
use ratinglift_backend_core.Auth.Signup.{
  TextOps, NewAccount, is_named, requested_name, get_or_create_tenant, add_user, signup,
}
use ratinglift_backend_core.Auth.Tenants.{get_or_create_tenant_lem}
use ratinglift_backend_core.Auth.FirstSignIn.{
  IsAccount, IsFresh, asked, returning, signup_lem, signup-login_with_password,
}
use ratinglift_backend_core.Tests.Texts.{show_bars, read_bars}
use ratinglift_backend_core.Tests.World.{os, laws}
use ratinglift_backend_core.Tests.Logins.{settings}
use ratinglift_backend_core.Tests.Stores.{
  redis, redis_laws, bcrypt, bcrypt_laws, totp, ben, cleo, stores_of, by, draws,
}

request_password_reset-reset_password_example :
    let asked =
      next_request (request_password_reset os redis settings "token" "b@b.c" (stores_of ben)).1 in
    let (r, s') = reset_password (at 6000 os) redis bcrypt "token" "better" asked in
    ((ltb 6000 (5000 + 30 * 60) ≡ true)
      × (r ≡ ok tt)
      × (u : User) × (by_email os "b@b.c" (opened s'.db.committed) ≡ some u)
      × (verify_password bcrypt "better" u.password_hash ≡ true)
      × (u.locked_until ≡ none)
      × (u.failed_login_attempts ≡ 0)
      × (live_sessions 1 s'.db.committed.login_sessions ≡ [])
      × ((reset_password (at 6001 os) redis bcrypt "token" "other" (next_request s')).0
          ≡ err (http 400 "Invalid or expired token")))
    ⊎ ((ltb 6000 (5000 + 30 * 60) ≡ false)
        × (r ≡ err (http 400 "Invalid or expired token"))
        × (s'.db.committed ≡ asked.db.committed))
unfolding first show_bars read_bars
request_password_reset-reset_password_example =
    request_password_reset-reset_password os redis redis_laws bcrypt bcrypt_laws settings "token"
      "b@b.c" "better" "other" ben (stores_of ben) 6000 6001 refl refl refl refl

store_otp-verify_stored_otp_example :
    let stored = (store_otp os redis 1 300 login_purpose "000000" (stores_of ben)).1 in
    let (r, s') = verify_stored_otp (at 5100 os) redis 1 "000000" login_purpose stored in
    let good = ltb 5100 (5000 + 300) && str_eq "000000" "000000" in
    (r ≡ ok good)
    × (((good ≡ true)
          × ((verify_stored_otp (at 5101 os) redis 1 "000000" login_purpose s').0 ≡ ok false))
        ⊎ ((good ≡ false) × (s' ≡ stored)))
store_otp-verify_stored_otp_example =
    store_otp-verify_stored_otp os redis redis_laws 1 300 5100 5101 login_purpose "000000" "000000"
      "000000" (stores_of ben)

cleo_code : by_app os totp cleo "123456" ≡ true
unfolding by_app verify_code
cleo_code = refl

app-verify_mfa_login_example :
    (verify_mfa_login os redis settings totp draws (by "c@b.c" "123456") (stores_of cleo)).0
    ≡ ok (signed_in (auth_response os settings draws.tokens (reset_user cleo) false))
unfolding first
app-verify_mfa_login_example =
    app-verify_mfa_login os redis settings totp draws (by "c@b.c" "123456") cleo (stores_of cleo)
      refl refl refl refl refl cleo_code

verify_mfa_login-IsEarned_example :
    (user : User) × (account_of os (by "c@b.c" "123456") (stores_of cleo).db ≡ some user)
    × MayFinish os totp redis (by "c@b.c" "123456") user (stores_of cleo).redis
verify_mfa_login-IsEarned_example =
    verify_mfa_login-IsEarned os redis settings bcrypt totp draws (by "c@b.c" "123456")
      (stores_of cleo) (auth_response os settings draws.tokens (reset_user cleo) false)
      app-verify_mfa_login_example

abbrev texts : TextOps
texts = record { before_at = λ s. s; replace = λ a b s. s; prefix = λ n s. s; decimal = show_bars }

-- someone who asks to be the owner of a tenant that is there
abbrev eve : NewAccount
eve = record {
  credentials = by "e@b.c" "secret";
  full_name = none;
  tenant_name = some "two";
  role = "OWNER";
}

get_or_create_tenant_lem_example :
    let s = (stores_of ben).db in
    let (r, s') = get_or_create_tenant os texts (some "two") "e@b.c" s in
    let name = requested_name os texts (some "two") "e@b.c" in
    ((t : Tenant) × (first (is_named name) s.current.tenants ≡ some t) × (r ≡ ok t) × (s' ≡ s))
    ⊎ ((t : Tenant) × (first (is_named name) s.current.tenants ≡ none)
        × (r ≡ ok t)
        × (t.name ≡ name)
        × (s' ≡ record s { current = record s.current { tenants = s.current.tenants ++ t ∷ [] } }))
get_or_create_tenant_lem_example =
    get_or_create_tenant_lem os texts (some "two") "e@b.c" (stores_of ben).db

owner_known : role_of_value "OWNER" ≡ some owner
unfolding role_of_value
owner_known = refl

signup_lem_example :
    let s = stores_of ben in
    let (r, s') = signup os texts redis settings bcrypt draws.tokens "mail" eve s in
    let name = requested_name os texts (some "two") "e@b.c" in
    let rows = s.db.current.tenants in
    (tenant : Tenant) × (user : User) × IsAccount os laws texts redis settings bcrypt eve tenant
      owner user
    × (r ≡ ok (auth_response os settings draws.tokens user false))
    × (s'.db.committed.users ≡ s.db.current.users ++ user ∷ [])
    × (((first (is_named name) rows ≡ some tenant) × (s'.db.committed.tenants ≡ rows))
        ⊎ ((first (is_named name) rows ≡ none)
            × (tenant.name ≡ name)
            × IsFresh tenant rows
            × (s'.db.committed.tenants ≡ rows ++ tenant ∷ [])))
unfolding first
signup_lem_example =
    signup_lem os laws texts redis settings bcrypt draws.tokens "mail" eve owner (stores_of ben)
      refl owner_known

abbrev next_draws : Draws
next_draws = record { tokens = record { jti = "jti 3"; refresh = "refresh 3" }; otp = "000000" }

let_in :
    (rate_limit
      (at 5100 os)
      redis
      settings
      bcrypt
      (returning os laws texts redis settings bcrypt bcrypt_laws eve none)
      (asked os laws texts redis settings bcrypt bcrypt_laws draws.tokens "mail" eve
        (stores_of ben))).0
    ≡ ok tt
unfolding check_login_rate_limit signup get_user_by_email get_or_create_tenant requested_name
    add_user create_session record_audit_login_attempt record_login_attempt log_action
    send_email_verification issue_token first role_of_value
let_in = refl

fresh_jti :
    first
      (has_jti "jti 3")
      (asked os laws texts redis settings bcrypt bcrypt_laws draws.tokens "mail" eve
        (stores_of ben)).db.current.login_sessions
    ≡ none
unfolding signup get_user_by_email get_or_create_tenant requested_name add_user create_session
    new_session record_audit_login_attempt record_login_attempt log_action send_email_verification
    issue_token first role_of_value
fresh_jti = refl

anywhere :
    (ensure_ip_allowed
      (at 5100 os)
      none
      (asked os laws texts redis settings bcrypt bcrypt_laws draws.tokens "mail" eve
        (stores_of ben)).db).0
    ≡ ok tt
unfolding ensure_ip_allowed is_ip_blocked
anywhere = refl

signup-login_with_password_example :
    let later = at 5100 os in
    let (r, s') =
      login_with_password later redis settings bcrypt next_draws
        (returning os laws texts redis settings bcrypt bcrypt_laws eve none)
        (asked os laws texts redis settings bcrypt bcrypt_laws draws.tokens "mail" eve
          (stores_of ben)) in
    (user : User) × (user.email ≡ "e@b.c")
    × (user.role ≡ owner)
    × (r ≡ ok (signed_in (auth_response later settings next_draws.tokens user false)))
    × ((get_current_user later
          (access_claims later user next_draws.tokens.jti)
          (opened s'.db.committed)).0
        ≡ ok user)
unfolding first show_bars read_bars
signup-login_with_password_example =
    signup-login_with_password os laws texts redis settings bcrypt bcrypt_laws draws.tokens "mail"
      eve owner (stores_of ben) next_draws none 5100 refl owner_known refl anywhere let_in fresh_jti
      refl refl
