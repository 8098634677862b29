-- ===== src/Auth/Codes.antt =====
-- What lives in Redis for a while: the single-use tokens of app/modules/auth/password_reset.py and the
-- one-time codes of app/modules/auth/mfa.py; and the passwords of app/core/security.py. Random
-- texts are arguments.
use ratinglift_backend_core.Common.{
  ⊤, ℕ, String, Bool, true, false, Option, none, some, ◌<>◌, str_eq, truthy, if◌then◌else◌,
}
use ratinglift_backend_core.Exec.{ok}
use ratinglift_backend_core.Platform.{Platform}
use ratinglift_backend_core.Auth.Stores.{Redis, Bcrypt, Auth}

abbrev pub password_reset_prefix : String
password_reset_prefix = "auth:pwreset"

abbrev pub email_verify_prefix : String
email_verify_prefix = "auth:email-verify"

abbrev pub login_purpose : String
login_purpose = "login"

abbrev pub channel_email_purpose : String
channel_email_purpose = "channel:email"

abbrev pub channel_phone_purpose : String
channel_phone_purpose = "channel:phone"

unfoldable pub token_key : String → String → String
token_key prefix token = prefix <> ":" <> token

module _ (bcrypt : Bcrypt) where
  unfoldable pub get_password_hash : String → String
  get_password_hash password = bcrypt.hashpw (bcrypt.first_bytes password)

  abbrev checked : Option Bool → Bool
  checked none = false
  checked (some b) = b

  unfoldable pub verify_password : String → String → Bool
  verify_password plain hashed =
      if truthy (some hashed)
      then checked (bcrypt.checkpw (bcrypt.first_bytes plain) hashed)
      else false

module _ (os : Platform) {S : Type 0} (redis : Redis S) where
  -- `issue_token`, with the token that was drawn
  unfoldable pub issue_token : String → String → ℕ → ℕ → Auth S ⊤
  issue_token prefix token user_id ttl_seconds s = (
    ok tt,
    record s {
      redis =
          redis.setex (token_key prefix token) ttl_seconds (os.show_uuid user_id) os.now s.redis;
    },
  )

  unfoldable pub consume_token : String → String → Auth S (Option String)
  consume_token prefix token s = elim (redis.get (token_key prefix token) os.now s.redis) [
    | none ↦ (ok none, s)
    | some value ↦
        (ok (some value), record s { redis = redis.delete (token_key prefix token) s.redis })
  ]

  unfoldable pub peek_token : String → String → Auth S (Option String)
  peek_token prefix token s = (ok (redis.get (token_key prefix token) os.now s.redis), s)

  unfoldable pub otp_key : ℕ → String → String
  otp_key user_id purpose = "auth:mfa:otp:" <> purpose <> ":" <> os.show_uuid user_id

  -- `generate_and_store_otp`, with the code that was drawn
  unfoldable pub store_otp : ℕ → ℕ → String → String → Auth S ⊤
  store_otp user_id ttl_seconds purpose otp s = (
    ok tt,
    record s { redis = redis.setex (otp_key user_id purpose) ttl_seconds otp os.now s.redis },
  )

  unfoldable pub verify_stored_otp : ℕ → String → String → Auth S Bool
  verify_stored_otp user_id otp purpose s =
      elim (redis.get (otp_key user_id purpose) os.now s.redis) [
        | none ↦ (ok false, s)
        | some stored ↦
            if str_eq stored otp
            then (ok true, record s { redis = redis.delete (otp_key user_id purpose) s.redis })
            else (ok false, s)
      ]
