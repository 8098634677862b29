-- ===== src/Auth/Stores.antt =====
-- What the authentication service works on: the database session, the Redis store, and the mails and
-- text messages that it sends. Redis, bcrypt and pyotp are libraries: they come in as records.
use ratinglift_backend_core.Common.{
  ⊤, ℕ, ◌+◌, String, Bool, true, ◌≡◌, Option, none, some, List, [], ◌∷◌, ◌++◌, ltb, truthy,
  if◌then◌else◌,
}
use ratinglift_backend_core.Exec.{ok, Exec}
use ratinglift_backend_core.Models.{DbSession, Db}

-- a Redis client over stores of type `S`; times to live are in seconds
pub record Redis (S : Type 0) : Type 0 where
  -- `get(key)`, at a time
  pub get : String → ℕ → S → Option String
  -- `setex(key, ttl, value)`, at a time
  pub setex : String → ℕ → String → ℕ → S → S
  pub delete : String → S → S
  -- `incr(key)`, at a time
  pub incr : String → ℕ → S → ℕ × S
  -- `expire(key, ttl)`, at a time
  pub expire : String → ℕ → ℕ → S → S

-- The documented behaviour of the commands that the proofs rely on.
pub record RedisLaws {S : Type 0} (redis : Redis S) : Type 0 where
  pub get-setex :
      (k v : String) (ttl now t : ℕ) (s : S)
      → redis.get k t (redis.setex k ttl v now s) ≡ (if ltb t (now + ttl) then some v else none)
  pub get-delete : (k : String) (t : ℕ) (s : S) → redis.get k t (redis.delete k s) ≡ none

-- `bcrypt` on the first 72 bytes; `checkpw` may raise `ValueError`
pub record Bcrypt : Type 0 where
  pub first_bytes : String → String
  pub hashpw : String → String
  pub checkpw : String → String → Option Bool

pub record BcryptLaws (bcrypt : Bcrypt) : Type 0 where
  pub checkpw-hashpw : (s : String) → bcrypt.checkpw s (bcrypt.hashpw s) ≡ some true
  pub hashpw-truthy : (s : String) → truthy (some (bcrypt.hashpw s)) ≡ true

-- a message that was sent, without its fixed wording
pub record Message : Type 0 where
  pub by_sms : Bool
  pub destination : String
  pub secret : String
  pub purpose : String

pub record Stores (S : Type 0) : Type 0 where
  pub db : DbSession
  pub redis : S
  pub outbox : List Message

abbrev pub Auth : Type 0 → Type 0 → Type 0
Auth S A = Exec (Stores S) A

module _ {S : Type 0} where
  abbrev pub on_db : {A : Type 0} → Db A → Auth S A
  on_db m s = let (r, d) = m s.db in (r, record s { db = d })

  abbrev pub on_redis : (S → S) → Auth S ⊤
  on_redis f s = (ok tt, record s { redis = f s.redis })

  abbrev pub send : Message → Auth S ⊤
  send m s = (ok tt, record s { outbox = s.outbox ++ m ∷ [] })

  -- the committed database of a request's end
  abbrev pub committed : Stores S → Stores S
  committed s = record s { db = record s.db { current = s.db.committed } }
