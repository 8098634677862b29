-- ===== src/Auth/Recovery.antt =====
-- Mails that carry a token, and what the token then does: the password reset and the e-mail
-- verification of app/modules/auth/service.py. A sender that raises is ignored by the code, so a mail
-- counts as sent; the token that is drawn is an argument.
use ratinglift_backend_core.Common.{
  ⊤, ℕ, ◌*◌, String, true, false, not, ◌&&◌, Option, none, some, List, [], ◌∷◌, ◌==◌, truthy,
  if◌then◌else◌, first,
}
use ratinglift_backend_core.Exec.{http, value_error, ok, pure, gets, or_raise, ◌>>=◌, ◌>>◌}
use ratinglift_backend_core.Platform.{Platform}
use ratinglift_backend_core.Models.{User, LoginSession, Db, commit}
use ratinglift_backend_core.Auth.Sessions.{Settings, add_audit}
use ratinglift_backend_core.Auth.Stores.{Redis, Bcrypt, Auth, on_db, send}
use ratinglift_backend_core.Auth.Codes.{
  password_reset_prefix, email_verify_prefix, get_password_hash, issue_token, consume_token,
}
use ratinglift_backend_core.Auth.Accounts.{save_user, get_user_by_email}

abbrev pub reset_subject : String
reset_subject = "Reset your password"

abbrev pub confirm_subject : String
confirm_subject = "Confirm your email"

-- `.update({LoginSession.revoked: True})` on the sessions of a user that are not revoked
unfoldable pub revoke_all : ℕ → List LoginSession → List LoginSession
revoke_all u [] = []
revoke_all u (r ∷ rows) =
    (if (r.user_id == u) && not r.revoked then record r { revoked = true } else r)
    ∷ revoke_all u rows

abbrev pub revoke_sessions_of : ℕ → Db ⊤
revoke_sessions_of u s = (
  ok tt,
  record s {
    current = record s.current { login_sessions = revoke_all u s.current.login_sessions };
  },
)

-- the account with a new password
unfoldable pub with_password : Bcrypt → String → User → User
with_password bcrypt new_password user = record user {
  password_hash = get_password_hash bcrypt new_password;
  failed_login_attempts = 0;
  locked_until = none;
}

-- the text that a token stood for, if there is one and it is not empty
abbrev pub real : Option String → Option String
real none = none
real (some v) = if truthy (some v) then some v else none

module _ (os : Platform) {S : Type 0} (redis : Redis S) where
  -- the user that a token stands for
  unfoldable pub user_of_token : String → String → Auth S User
  user_of_token prefix token = do
    value ← consume_token os redis prefix token
    user_id_str ← or_raise (real value) (http 400 "Invalid or expired token")
    uid ← or_raise (os.parse_uuid user_id_str) (value_error "badly formed hexadecimal UUID string")
    users ← gets (λ s. s.db.current.users)
    or_raise (first (λ (u : User). u.id == uid) users) (http 404 "User not found")

  unfoldable pub verify_email_token : String → Auth S User
  verify_email_token token = do
    user ← user_of_token email_verify_prefix token
    let user' : User = record user { email_verified = true }
    on_db (save_user user')
    on_db (add_audit os user' "email_verified" "user" user.id)
    on_db commit
    pure user'

  -- what a valid token does
  unfoldable pub reset_account : Bcrypt → String → User → Db ⊤
  reset_account bcrypt new_password user = do
    save_user (with_password bcrypt new_password user)
    revoke_sessions_of user.id
    add_audit os user "password_reset" "user" user.id
    commit

  unfoldable pub reset_password : Bcrypt → String → String → Auth S ⊤
  reset_password bcrypt token new_password = do
    user ← user_of_token password_reset_prefix token
    on_db (reset_account bcrypt new_password user)

module _ (os : Platform) {S : Type 0} (redis : Redis S) (settings : Settings) where
  unfoldable pub send_email_verification : String → User → Auth S String
  send_email_verification token user = do
    issue_token os redis email_verify_prefix token user.id
        (settings.email_verification_ttl_minutes * 60)
    send (record {
      by_sms = false;
      destination = user.email;
      secret = token;
      purpose = confirm_subject;
    })
    pure token

  unfoldable pub request_email_verification : String → User → Auth S ⊤
  request_email_verification token user =
      if user.email_verified then pure tt else (send_email_verification token user >> pure tt)

  -- the mail, the audit row and the commit for a known account
  unfoldable pub send_reset : String → User → Auth S ⊤
  send_reset token user = do
    issue_token os redis password_reset_prefix token user.id
        (settings.password_reset_ttl_minutes * 60)
    send (record {
      by_sms = false;
      destination = user.email;
      secret = token;
      purpose = reset_subject;
    })
    on_db (add_audit os user "password_reset_requested" "user" user.id)
    on_db commit

  abbrev reset_for : String → Option User → Auth S ⊤
  reset_for token none = pure tt
  reset_for token (some user) = send_reset token user

  unfoldable pub request_password_reset : String → String → Auth S ⊤
  request_password_reset token email = do
    found ← on_db (get_user_by_email os (os.lower email))
    reset_for token found
