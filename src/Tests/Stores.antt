-- ===== src/Tests/Stores.antt =====
-- Redis, bcrypt, pyotp and the accounts of the tests.
use ratinglift_backend_core.Common.{
  ℕ, suc, ◌+◌, String, true, false, refl, Option, none, some, [], ◌∷◌, ltb, str_eq, eq_iff,
  if◌then◌else◌,
}
use ratinglift_backend_core.Models.{User, Database}
use ratinglift_backend_core.Auth.Stores.{Redis, RedisLaws, Bcrypt, BcryptLaws, Stores}
use ratinglift_backend_core.Auth.Totp.{Pyotp}
use ratinglift_backend_core.Auth.Accounts.{Credentials, Draws}
use ratinglift_backend_core.Tests.Texts.{seal, seal-truthy}
use ratinglift_backend_core.Tests.World.{db}
use ratinglift_backend_core.Tests.Logins.{anna, login}

-- texts by key and time, and counters by key
abbrev pub Keys : Type 0
Keys = (String → ℕ → Option String) × (String → ℕ)

abbrev pub redis : Redis Keys
redis = record {
  get = λ k t s. s.0 k t;
  setex = λ k ttl v now s.
      (λ k' t. if str_eq k' k then (if ltb t (now + ttl) then some v else none) else s.0 k' t, s.1);
  delete = λ k s. (λ k' t. if str_eq k' k then none else s.0 k' t, s.1);
  incr = λ k now s. (suc (s.1 k), (s.0, λ k'. if str_eq k' k then suc (s.1 k) else s.1 k'));
  expire = λ k ttl now s. s;
}

pub redis_laws : RedisLaws redis
redis_laws = record {
  get-setex = λ k v ttl now t s. let same = (eq_iff k k).1 refl in rw (same) refl;
  get-delete = λ k t s. let same = (eq_iff k k).1 refl in rw (same) refl;
}

abbrev pub empty : Keys
empty = (λ k t. none, λ k. 0)

abbrev pub bcrypt : Bcrypt
bcrypt = record { first_bytes = λ s. s; hashpw = seal; checkpw = λ s h. some (str_eq (seal s) h) }

pub bcrypt_laws : BcryptLaws bcrypt
bcrypt_laws = record {
  checkpw-hashpw = λ s. let same = (eq_iff (seal s) (seal s)).1 refl in rw (same) refl;
  hashpw-truthy = seal-truthy;
}

abbrev pub totp : Pyotp
totp = record {
  without_spaces = λ s. s;
  isdigit = λ s. true;
  verify = λ secret code. some (str_eq code "123456");
  provisioning_uri = λ secret name issuer. name;
}

abbrev pub ben : User
ben = record anna { password_hash = "#secret"; email = "b@b.c" }

-- with an authenticator app
abbrev pub cleo : User
cleo = record anna {
  email = "c@b.c";
  mfa_enabled = true;
  totp_secret = some "seed";
  totp_verified = true;
}

-- one wrong password short of a lock
abbrev pub dan : User
dan = record ben { failed_login_attempts = 9 }

abbrev pub locked : User
locked = record ben { locked_until = some 9000 }

abbrev pub stores_of : User → Stores Keys
stores_of user =
    let home : Database = record db { users = user ∷ []; login_sessions = login ∷ [] } in
    record { db = record { committed = home; current = home }; redis = empty; outbox = [] }

abbrev pub by : String → String → Credentials
by email secret = record {
  email = email;
  secret = secret;
  ip_address = none;
  device_info = none;
  location = none;
  admin_only = false;
}

abbrev pub draws : Draws
draws = record { tokens = record { jti = "jti 2"; refresh = "refresh 2" }; otp = "000000" }
