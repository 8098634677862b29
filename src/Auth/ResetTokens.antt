-- ===== src/Auth/ResetTokens.antt =====
-- What a token from a password-reset mail can do, and for how long (app/modules/auth/service.py and
-- app/modules/auth/password_reset.py).
use ratinglift_backend_core.Common.{
  ⊤, ℕ, ◌+◌, ◌*◌, String, Bool, true, false, not, str_eq, ◌&&◌, Bool-cases, ◌≡◌, ◌⊎◌, refl, ap, ◌∙◌,
  Option, none, some, List, [], ◌∷◌, arith, inl, inr, ltb, ◌==◌, truthy, if◌then◌else◌, first, save,
  first-save_same, first_sound, select,
}
use ratinglift_backend_core.Exec.{http, ok, err, bind_run, bind_err}
use ratinglift_backend_core.Platform.{Platform}
use ratinglift_backend_core.Models.{User, LoginSession, DbSession}
use ratinglift_backend_core.Security.Blocklist.{at}
use ratinglift_backend_core.Auth.Sessions.{Settings, add_audit}
use ratinglift_backend_core.Auth.Stores.{Redis, RedisLaws, Bcrypt, BcryptLaws, Stores, Auth, on_db}
use ratinglift_backend_core.Auth.Codes.{
  password_reset_prefix, token_key, get_password_hash, verify_password, issue_token, consume_token,
}
use ratinglift_backend_core.Auth.Accounts.{user_id_of, get_user_by_email}
use ratinglift_backend_core.Auth.Lockout.{opened}
use ratinglift_backend_core.Auth.Recovery.{
  revoke_all, with_password, real, user_of_token, send_reset, request_password_reset, reset_account,
  reset_password,
}

-- the sessions of a user that are not revoked
abbrev pub live_sessions : ℕ → List LoginSession → List LoginSession
live_sessions u rows = select (λ (r : LoginSession). (r.user_id == u) && not r.revoked) rows

live_sessions-revoke_all :
    (u : ℕ) (rows : List LoginSession) → live_sessions u (revoke_all u rows) ≡ []
unfolding revoke_all select
live_sessions-revoke_all u [] = refl
live_sessions-revoke_all u (r ∷ rows) = ground (arith, live_sessions-revoke_all u rows)

module _ (os : Platform) {S : Type 0} (redis : Redis S) where
  consume_none :
      (prefix token : String) (s : Stores S)
      → redis.get (token_key prefix token) os.now s.redis ≡ none
      → user_of_token os redis prefix token s ≡ (err (http 400 "Invalid or expired token"), s)
  unfolding user_of_token consume_token
  consume_none prefix token s gone = ground arith

  consume_some :
      (prefix token text : String) (uid : ℕ) (user : User) (s : Stores S)
      → redis.get (token_key prefix token) os.now s.redis ≡ some text
      → truthy (some text) ≡ true
      → os.parse_uuid text ≡ some uid
      → first (λ (u : User). u.id == uid) s.db.current.users ≡ some user
      → user_of_token os redis prefix token s
        ≡ (ok user, record s { redis = redis.delete (token_key prefix token) s.redis })
  unfolding user_of_token consume_token
  consume_some prefix token text uid user s there real parsed found = ground arith

module _ (os : Platform) {S : Type 0} (redis : Redis S) (laws : RedisLaws redis)
    (settings : Settings) where
  -- after the token was stored at `now`, and while other keys are set the store is as it was
  token_read :
      (prefix token : String) (user_id ttl : ℕ) (t : ℕ) (s : Stores S)
      → redis.get
          (token_key prefix token)
          t
          (issue_token os redis prefix token user_id ttl s).1.redis
        ≡ (if ltb t (os.now + ttl) then some (os.show_uuid user_id) else none)
  unfolding issue_token
  token_read prefix token user_id ttl t s =
      laws.get-setex (token_key prefix token) (os.show_uuid user_id) ttl os.now t s.redis

  -- what the mail leaves in Redis and in the committed database
  sent :
      (token : String) (user : User) (s : Stores S)
      → let s' = (send_reset os redis settings token user s).1 in
        (s'.redis
          ≡ (issue_token os redis password_reset_prefix token user.id
              (settings.password_reset_ttl_minutes * 60)
              s).1.redis)
        × (s'.db.committed.users ≡ s.db.current.users)
        × (s'.db.committed.login_sessions ≡ s.db.current.login_sessions)
  unfolding send_reset issue_token add_audit
  sent token user s = (refl, refl, refl)

  requested :
      (token email : String) (user : User) (s : Stores S)
      → first (λ (u : User). str_eq u.email (os.lower (os.lower email))) s.db.current.users
        ≡ some user
      → request_password_reset os redis settings token email s
        ≡ send_reset os redis settings token user s
  unfolding request_password_reset get_user_by_email
  requested token email user s found = rw (found) refl

reset_runs :
    (os : Platform) {S : Type 0} (redis : Redis S) (bcrypt : Bcrypt) (new_password : String)
    (user : User) (s : DbSession)
    → let (r, s') = reset_account os redis bcrypt new_password user s in
      (r ≡ ok tt)
      × (s'.committed.users
          ≡ save user_id_of (with_password bcrypt new_password user) s.current.users)
      × (s'.committed.login_sessions ≡ revoke_all user.id s.current.login_sessions)
unfolding reset_account add_audit
reset_runs os redis bcrypt new_password user s = (refl, refl, refl)

pub verify-get_password_hash :
    (bcrypt : Bcrypt)
    → BcryptLaws bcrypt
    → (password : String)
    → verify_password bcrypt password (get_password_hash bcrypt password) ≡ true
unfolding verify_password get_password_hash
verify-get_password_hash bcrypt laws password = ground (
  arith,
  laws.checkpw-hashpw (bcrypt.first_bytes password),
  laws.hashpw-truthy (bcrypt.first_bytes password),
)

module _ (os : Platform) {S : Type 0} (redis : Redis S) (bcrypt : Bcrypt) where
  reset_gone :
      (token new_password : String) (s : Stores S)
      → redis.get (token_key password_reset_prefix token) os.now s.redis ≡ none
      → reset_password os redis bcrypt token new_password s
        ≡ (err (http 400 "Invalid or expired token"), s)
  unfolding reset_password
  reset_gone token new_password s gone =
      let stop = consume_none os redis password_reset_prefix token s gone in
      bind_err (user_of_token os redis password_reset_prefix token)
        (λ u. on_db (reset_account os redis bcrypt new_password u)) s
        (http 400 "Invalid or expired token") (ap (λ p. p.0) stop) (ap (λ p. p.1) stop)

  -- the stores after a reset of this account
  abbrev reset_stores : String → String → User → Stores S → Stores S
  reset_stores token new_password user s = record s {
    redis = redis.delete (token_key password_reset_prefix token) s.redis;
    db = (reset_account os redis bcrypt new_password user s.db).1;
  }

  reset_done :
      (token new_password text : String) (uid : ℕ) (user : User) (s : Stores S)
      → redis.get (token_key password_reset_prefix token) os.now s.redis ≡ some text
      → truthy (some text) ≡ true
      → os.parse_uuid text ≡ some uid
      → first (λ (u : User). u.id == uid) s.db.current.users ≡ some user
      → reset_password os redis bcrypt token new_password s
        ≡ (ok tt, reset_stores token new_password user s)
  unfolding reset_password
  reset_done token new_password text uid user s there real parsed found =
      let run =
        consume_some os redis password_reset_prefix token text uid user s there real parsed found in
      let change : User → Auth S ⊤ = λ u. on_db (reset_account os redis bcrypt new_password u) in
      let (fine, users, sessions) = reset_runs os redis bcrypt new_password user s.db in
      bind_run (user_of_token os redis password_reset_prefix token) change s user
        (ap (λ p. p.0) run)
      ∙ ap (λ p. change user p.1) run
      ∙ ap (λ r. (r, reset_stores token new_password user s)) fine

-- the next request, at a time
abbrev pub next_request : {S : Type 0} → Stores S → Stores S
next_request s = record s { db = opened s.db.committed }

abbrev pub by_email : Platform → String → DbSession → Option User
by_email os email s =
    first (λ (u : User). str_eq u.email (os.lower (os.lower email))) s.current.users

module _ (os : Platform) {S : Type 0} (redis : Redis S) (laws : RedisLaws redis)
    (bcrypt : Bcrypt) where
  -- what a token that is still there leaves behind
  used_token :
      (token email new_password other text : String) (user : User) (s : Stores S) (again : ℕ)
      → redis.get (token_key password_reset_prefix token) os.now s.redis ≡ some text
      → truthy (some text) ≡ true
      → os.parse_uuid text ≡ some user.id
      → by_email os email s.db ≡ some user
      → first (λ (u : User). u.id == user.id) s.db.current.users ≡ some user
      → let (r, s') = reset_password os redis bcrypt token new_password s in
        (r ≡ ok tt)
        × (by_email os email (opened s'.db.committed)
            ≡ some (with_password bcrypt new_password user))
        × (live_sessions user.id s'.db.committed.login_sessions ≡ [])
        × ((reset_password (at again os) redis bcrypt token other (next_request s')).0
            ≡ err (http 400 "Invalid or expired token"))
  unfolding with_password
  used_token token email new_password other text user s again there real parsed found by_id =
      let run =
        reset_done os redis bcrypt token new_password text user.id user s there real parsed by_id in
      let (fine, users, sessions) = reset_runs os redis bcrypt new_password user s.db in
      let after : Stores S = reset_stores os redis bcrypt token new_password user s in
      let has_email : User → Bool = λ u. str_eq u.email (os.lower (os.lower email)) in
      let saved =
        first-save_same user_id_of has_email (with_password bcrypt new_password user) user
          s.db.current.users found refl (first_sound has_email s.db.current.users user found) in
      let gone =
        reset_gone (at again os) redis bcrypt token other (next_request after)
          (laws.get-delete (token_key password_reset_prefix token) again s.redis) in
      (
        ap (λ p. p.0) run,
        ap (λ p. first has_email p.1.db.committed.users) run ∙ ap (first has_email) users ∙ saved,
        ap (λ p. live_sessions user.id p.1.db.committed.login_sessions) run
            ∙ ap (live_sessions user.id) sessions
            ∙ live_sessions-revoke_all user.id s.db.current.login_sessions,
        ap (λ p. (reset_password (at again os) redis bcrypt token other (next_request p.1)).0) run
            ∙ ap (λ p. p.0) gone,
      )

module _ (os : Platform) {S : Type 0} (redis : Redis S) (laws : RedisLaws redis) (bcrypt : Bcrypt)
    (blaws : BcryptLaws bcrypt) (settings : Settings) where
  -- A reset that is asked for by an account's address, and then carried out with the token of the mail at
  -- a later time, with nothing in between. Within the token's life it succeeds and is committed: the new
  -- password fits the account, which has no lock and no failures left, none of its sessions is live, and
  -- from then on the token is refused. Afterwards the token is refused with 400 and changes nothing.
  -- UUIDs print as non-empty texts that parse back.
  pub request_password_reset-reset_password :
      (token email new_password other : String) (user : User) (s : Stores S) (later again : ℕ)
      → by_email os email s.db ≡ some user
      → first (λ (u : User). u.id == user.id) s.db.current.users ≡ some user
      → os.parse_uuid (os.show_uuid user.id) ≡ some user.id
      → truthy (some (os.show_uuid user.id)) ≡ true
      → let asked = next_request (request_password_reset os redis settings token email s).1 in
        let (r, s') = reset_password (at later os) redis bcrypt token new_password asked in
        ((ltb later (os.now + settings.password_reset_ttl_minutes * 60) ≡ true)
          × (r ≡ ok tt)
          × (u : User) × (by_email os email (opened s'.db.committed) ≡ some u)
          × (verify_password bcrypt new_password u.password_hash ≡ true)
          × (u.locked_until ≡ none)
          × (u.failed_login_attempts ≡ 0)
          × (live_sessions user.id s'.db.committed.login_sessions ≡ [])
          × ((reset_password (at again os) redis bcrypt token other (next_request s')).0
              ≡ err (http 400 "Invalid or expired token")))
        ⊎ ((ltb later (os.now + settings.password_reset_ttl_minutes * 60) ≡ false)
            × (r ≡ err (http 400 "Invalid or expired token"))
            × (s'.db.committed ≡ asked.db.committed))
  unfolding with_password
  request_password_reset-reset_password token email new_password other user s later again found
        by_id parsed shown =
      let key = token_key password_reset_prefix token in
      let life = settings.password_reset_ttl_minutes * 60 in
      let asked = next_request (request_password_reset os redis settings token email s).1 in
      let run = requested os redis laws settings token email user s found in
      let (stored, kept, kept_sessions) = sent os redis laws settings token user s in
      let read : redis.get key later asked.redis
          ≡ (if ltb later (os.now + life) then some (os.show_uuid user.id) else none) =
        ap (λ p. redis.get key later p.1.redis) run
        ∙ ap (redis.get key later) stored
        ∙ token_read os redis laws settings password_reset_prefix token user.id life later s in
      let users : asked.db.current.users ≡ s.db.current.users =
        ap (λ p. p.1.db.committed.users) run ∙ kept in
      elim (Bool-cases (ltb later (os.now + life))) [
        | inl early ↦
            let (fine, found', dead, once) =
              used_token (at later os) redis laws bcrypt token email new_password other
                (os.show_uuid user.id) user asked again (rw (early) at read) shown parsed
                (ap (first (λ (u : User). str_eq u.email (os.lower (os.lower email)))) users
                  ∙ found)
                (ap (first (λ (u : User). u.id == user.id)) users ∙ by_id) in
            inl (
              early,
              fine,
              with_password bcrypt new_password user,
              found',
              verify-get_password_hash bcrypt blaws new_password,
              refl,
              refl,
              dead,
              once,
            )
        | inr late ↦
            let gone =
              reset_gone (at later os) redis bcrypt token new_password asked (rw (late) at read) in
            inr (late, ap (λ p. p.0) gone, ap (λ p. p.1.db.committed) gone)
      ]
