-- ===== src/Auth/Totp.antt =====
-- app/modules/auth/totp.py. `pyotp` and the operations on texts that Python brings are a record.
use Prim.Native.String.{count}
use ratinglift_backend_core.Common.{
  String, Bool, false, not, ◌||◌, Option, none, some, ◌==◌, truthy, if◌then◌else◌,
}
use ratinglift_backend_core.Platform.{Platform}

pub record Pyotp : Type 0 where
  -- `text.replace(" ", "")` and `text.isdigit()`
  pub without_spaces : String → String
  pub isdigit : String → Bool
  -- `TOTP(secret).verify(code, valid_window=1)`, which may raise
  pub verify : String → String → Option Bool
  -- `TOTP(secret).provisioning_uri(name=…, issuer_name=…)`
  pub provisioning_uri : String → String → String → String

abbrev pub default_issuer : String
default_issuer = "RatingLift"

abbrev pub or_false : Option Bool → Bool
or_false none = false
or_false (some b) = b

module _ (os : Platform) (totp : Pyotp) where
  unfoldable pub provisioning_uri : String → String → String
  provisioning_uri user_email secret = totp.provisioning_uri secret user_email default_issuer

  unfoldable pub verify_code : String → String → Bool
  verify_code secret code =
      let digits = totp.without_spaces (os.strip code) in
      if not (truthy (some secret)) || not (truthy (some code))
      then false
      else if not (totp.isdigit digits) || not (count digits == 6)
      then false
      else or_false (totp.verify secret digits)
