-- ===== src/Auth/SecondFactor.antt =====
-- Setting up the second factor in app/modules/auth/service.py: the channels that codes are sent to, and
-- the authenticator app. The code and the secret that are drawn are arguments.
use ratinglift_backend_core.Common.{
  ⊤, String, Bool, true, false, not, ◌||◌, Option, none, some, [], ◌∷◌, ◌++◌, map, str_eq, truthy,
  if◌then◌else◌,
}
use ratinglift_backend_core.Exec.{http, ok, pure, raise_if, or_raise, ◌>>=◌, ◌>>◌}
use ratinglift_backend_core.Platform.{Platform}
use ratinglift_backend_core.Values.{Value, null, str, dict, field, end}
use ratinglift_backend_core.Models.{User, AuditLog, user as by_user, Db, commit}
use ratinglift_backend_core.Auth.Sessions.{Settings}
use ratinglift_backend_core.Auth.Stores.{Redis, Auth, on_db, send}
use ratinglift_backend_core.Auth.Codes.{
  channel_email_purpose, channel_phone_purpose, store_otp, verify_stored_otp,
}
use ratinglift_backend_core.Auth.Accounts.{save_user}
use ratinglift_backend_core.Auth.Totp.{Pyotp, provisioning_uri, verify_code}

pub record MfaStatus : Type 0 where
  pub mfa_enabled : Bool
  pub email : Option String
  pub email_verified : Bool
  pub phone : Option String
  pub phone_verified : Bool

unfoldable pub get_mfa_status : User → MfaStatus
get_mfa_status user = record {
  mfa_enabled = user.mfa_enabled;
  email = user.mfa_email;
  email_verified = user.mfa_email_verified;
  phone = user.mfa_phone;
  phone_verified = user.mfa_phone_verified;
}

pub data Channel : Type 0 where
  by_email by_phone : Channel

-- "email" and "phone"; any other word is unsupported
unfoldable pub channel_of : String → Option Channel
channel_of word =
    if str_eq word "email"
    then some by_email
    else if str_eq word "phone"
    then some by_phone
    else none

unfoldable pub purpose_of : Channel → String
purpose_of by_email = channel_email_purpose
purpose_of by_phone = channel_phone_purpose

unfoldable pub address_of : Channel → User → Option String
address_of by_email user = user.mfa_email
address_of by_phone user = user.mfa_phone

unfoldable pub mark_verified : Channel → User → User
mark_verified by_email user = record user { mfa_email_verified = true }
mark_verified by_phone user = record user { mfa_phone_verified = true }

abbrev pub is_phone : Channel → Bool
is_phone by_email = false
is_phone by_phone = true

module _ (os : Platform) where
  -- the account with the channel, which is not verified
  unfoldable pub with_channel : Channel → String → User → User
  with_channel by_email destination user = record user {
    mfa_email = some (os.lower destination);
    mfa_email_verified = false;
  }
  with_channel by_phone destination user = record user {
    mfa_phone = some destination;
    mfa_phone_verified = false;
  }

  -- an `AuditLog(…)` on the user that carries a value
  unfoldable pub add_user_audit : User → String → Value → Db ⊤
  add_user_audit user action after s = (
    ok tt,
    record s {
      current = record s.current {
        audit_logs =
            s.current.audit_logs
            ++ record {
              id = os.new_uuid (map (λ (r : AuditLog). r.id) s.current.audit_logs);
              actor_id = some user.id;
              actor_type = by_user;
              action = action;
              entity = "user";
              entity_id = some user.id;
              before_value = null;
              after_value = after;
              ip_address = none;
              timestamp = os.now;
            }
              ∷ [];
      };
    },
  )

  -- the end of every change of the second factor: the account, the audit row, the commit
  unfoldable pub change_user : User → String → Value → Db ⊤
  change_user user action after = do save_user user; add_user_audit user action after; commit

  unfoldable pub enable_mfa : User → Db ⊤
  enable_mfa user = do
    raise_if (not (user.mfa_email_verified || user.mfa_phone_verified))
        (http 400 "Verify at least one channel (email or phone) before enabling MFA.")
    change_user (record user { mfa_enabled = true }) "mfa_enabled" null

  unfoldable pub disable_mfa : User → Db ⊤
  disable_mfa user = change_user (record user { mfa_enabled = false }) "mfa_disabled" null

  -- `setup_totp`: the secret that was drawn, and the address for the authenticator app
  unfoldable pub setup_totp : Pyotp → String → User → Db (String × String)
  setup_totp totp secret user = do
    change_user (record user { totp_secret = some secret; totp_verified = false }) "totp_setup" null
    pure (secret, provisioning_uri os totp user.email secret)

  unfoldable pub verify_totp : Pyotp → User → String → Db ⊤
  verify_totp totp user code = do
    secret ←
        or_raise (if truthy user.totp_secret then user.totp_secret else none)
          (http 400 "TOTP not initialized")
    raise_if (not (verify_code os totp secret code)) (http 401 "Invalid TOTP code")
    change_user (record user { totp_verified = true }) "totp_verified" null

module _ (os : Platform) {S : Type 0} (redis : Redis S) (settings : Settings) where
  unfoldable pub add_mfa_channel : String → User → String → String → Auth S String
  add_mfa_channel otp user channel destination = do
    let address : String = os.strip destination
    raise_if (not (truthy (some address))) (http 400 "Destination required")
    ch ← or_raise (channel_of channel) (http 400 "Unsupported channel")
    let user' : User = with_channel os ch address user
    on_db (save_user user')
    store_otp os redis user.id settings.mfa_otp_ttl_seconds (purpose_of ch) otp
    send (record {
      by_sms = is_phone ch;
      destination = address;
      secret = otp;
      purpose = purpose_of ch;
    })
    on_db (
        add_user_audit os user' "mfa_channel_added"
          (dict (field "channel" (str channel) (field "destination" (str address) end))))
    on_db commit
    pure (purpose_of ch)

  unfoldable pub verify_mfa_channel : User → String → String → Auth S ⊤
  verify_mfa_channel user channel otp = do
    ch ← or_raise (channel_of channel) (http 400 "Unsupported channel")
    raise_if (not (truthy (address_of ch user))) (
        http 400
          (if is_phone ch then "No phone channel configured" else "No email channel configured"))
    fits ← verify_stored_otp os redis user.id otp (purpose_of ch)
    raise_if (not fits) (http 401 "Invalid or expired OTP")
    on_db (
        change_user os (mark_verified ch user) "mfa_channel_verified"
          (dict (field "channel" (str channel) end)))
