-- ===== src/Auth/FirstStep.antt =====
-- The first step of a sign-in to an account with a second factor: `login_with_password` of
-- app/modules/auth/service.py, up to the answer that asks for the code.
use mathlib.Core.Path.{subst}
use ratinglift_backend_core.Common.{
  ⊤, ℕ, ◌+◌, ◌≤◌, String, Bool, true, false, not, ◌&&◌, ◌||◌, ◌≡◌, ◌⊎◌, refl, sym, ap, ◌∙◌, Option,
  none, some, List, ◌++◌, length, All, arith, inl, inr, ltb, if◌then◌else◌, Option-cases,
  Bool-cases, first,
}
use ratinglift_backend_core.Exec.{Exec, ok, pure, ◌>>=◌, ◌>>◌, bind_run, bind_ok}
use ratinglift_backend_core.Platform.{Platform}
use ratinglift_backend_core.Models.{User, DbSession, commit}
use ratinglift_backend_core.Security.IpBlocking.{ensure_ip_allowed}
use ratinglift_backend_core.Security.Blocklist.{at}
use ratinglift_backend_core.Auth.Attempts.{record_audit_login_attempt}
use ratinglift_backend_core.Auth.Sessions.{Settings, has_passed}
use ratinglift_backend_core.Auth.Stores.{Redis, RedisLaws, Bcrypt, Stores, Auth, Message, on_db}
use ratinglift_backend_core.Auth.Codes.{
  login_purpose, store_otp, verify_password, verify_stored_otp,
}
use ratinglift_backend_core.Auth.Accounts.{
  Credentials, Draws, LoginResult, mfa_required, get_user_by_email, assert_not_locked,
  assert_user_can_login, is_admin_role, sign_in,
}
use ratinglift_backend_core.Auth.Login.{
  check_login_rate_limit, challenge, issue_challenge, admit, password_fits, decide,
  login_with_password,
}
use ratinglift_backend_core.Auth.Soundness.{account_of, ensure_users, ensure_sessions, limit_db}
use ratinglift_backend_core.Auth.Lockout.{thawed, thawed_users, audited_ok}
use ratinglift_backend_core.Auth.WrongPassword.{with_email_of, rate_limit, rate_limit_same}
use ratinglift_backend_core.Auth.Admission.{may_login, unlocked_sessions, fitting}
use ratinglift_backend_core.Auth.Challenge.{IsTo, challenge-verify_stored_otp}

if_true :
    {S A : Type 0} (b : Bool) (m k : Exec S A) (s : S) → b ≡ true → (if b then m else k) s ≡ m s
if_true true m k s e = refl
if_true false m k s e = absurd (cc e)

-- An account that is let in and has a second factor.
record MayStart (os : Platform) (bcrypt : Bcrypt) (c : Credentials) (user : User) : Type 0 where
  pub password : verify_password bcrypt c.secret user.password_hash ≡ true
  pub active : user.is_active ≡ true
  pub second_factor : user.mfa_enabled ≡ true
  pub unlocked : (user.locked_until ≡ none) ⊎ (has_passed user.locked_until os.now ≡ true)
  pub entitled : (not c.admin_only || (user.is_admin && is_admin_role user.role)) ≡ true

module _ (os : Platform) {S : Type 0} (redis : Redis S) (settings : Settings)
    (bcrypt : Bcrypt) where
  rate_limit_stores :
      (c : Credentials) (s : Stores S) (d : DbSession)
      → let t = (rate_limit os redis settings bcrypt c (record s { db = d })).1 in
        (t.redis ≡ (rate_limit os redis settings bcrypt c s).1.redis) × (t.outbox ≡ s.outbox)
  unfolding check_login_rate_limit
  rate_limit_stores c s d = (refl, refl)

  -- A sign-in that gets to the password, and what it has done by then.
  reached :
      (draws : Draws) (c : Credentials) (user : User) (s : Stores S)
      → account_of os c s.db ≡ some user
      → (user.locked_until ≡ none) ⊎ (has_passed user.locked_until os.now ≡ true)
      → (ensure_ip_allowed os c.ip_address s.db).0 ≡ ok tt
      → (rate_limit os redis settings bcrypt c s).0 ≡ ok tt
      → (t : Stores S) × (login_with_password os redis settings bcrypt draws c s
          ≡ decide os redis settings draws c
              (os.lower c.email)
              (some (thawed user))
              (password_fits bcrypt c.secret (some (thawed user)))
              t)
        × (t.redis ≡ (rate_limit os redis settings bcrypt c s).1.redis)
        × (t.outbox ≡ s.outbox)
        × (t.db.current.login_sessions ≡ s.db.current.login_sessions)
  unfolding login_with_password get_user_by_email
  reached draws c user s found free allowed within =
      let email : String = os.lower c.email in
      let last : Option User → Auth S LoginResult =
        λ user. decide os redis settings draws c email user (password_fits bcrypt c.secret user) in
      let asserted : Option User → Auth S LoginResult =
        λ found. on_db (assert_not_locked os found) >>= last in
      let looked_up : Auth S LoginResult = on_db (get_user_by_email os email) >>= asserted in
      let limited : Auth S LoginResult = rate_limit os redis settings bcrypt c >> looked_up in
      let s1 : Stores S = (on_db (ensure_ip_allowed os c.ip_address) s).1 in
      let s2 : Stores S = (rate_limit os redis settings bcrypt c s1).1 in
      let same_db : s2.db ≡ s1.db = limit_db os redis settings bcrypt _ _ s1 in
      let still : first (with_email_of os c) s2.db.current.users ≡ some user =
        ap (λ (d : DbSession). first (with_email_of os c) d.current.users) same_db
        ∙ ap (first (with_email_of os c)) (ensure_users os c.ip_address s.db)
        ∙ found in
      let (fine, kept) =
        thawed_users os redis settings user s2.db (with_email_of os c) still (λ u. refl) free in
      (
        (on_db (assert_not_locked os (some user)) s2).1,
        bind_run (on_db (ensure_ip_allowed os c.ip_address)) (λ _. limited) s tt allowed
            ∙ bind_run (rate_limit os redis settings bcrypt c) (λ _. looked_up) s1 tt
                (rate_limit_same os redis settings bcrypt c s s1.db ∙ within)
            ∙ ap (λ o. asserted o s2) still
            ∙ bind_run (on_db (assert_not_locked os (some user))) last s2 (some (thawed user)) fine,
        (rate_limit_stores c s s1.db).0,
        (rate_limit_stores c s s1.db).1,
        unlocked_sessions os settings user s2.db
            ∙ ap (λ (d : DbSession). d.current.login_sessions) same_db
            ∙ ensure_sessions os c.ip_address s.db,
      )

  decide_second :
      (draws : Draws) (c : Credentials) (email : String) (user : User) (s : Stores S)
      → MayStart os bcrypt c user
      → decide os redis settings draws c email
          (some user)
          (password_fits bcrypt c.secret (some user))
          s
        ≡ issue_challenge os redis settings draws c user email s
  unfolding admit
  decide_second draws c email user s may =
      let second : Auth S LoginResult = issue_challenge os redis settings draws c user email in
      let straight : Auth S LoginResult = on_db (sign_in os settings draws c user email) in
      let enter = may_login os settings user c.admin_only s.db may.active may.entitled in
      ap (λ o. decide os redis settings draws c email (some user) o s)
        (fitting (verify_password bcrypt c.secret user.password_hash) user may.password)
      ∙ bind_ok (on_db (assert_user_can_login user c.admin_only))
          (λ _. if user.mfa_enabled then second else straight) s tt (ap (λ p. p.0) enter)
          (ap (λ p. record s { db = p.1 }) enter)
      ∙ if_true user.mfa_enabled second straight s may.second_factor

  abbrev by_app_text : String
  by_app_text = "Enter the 6-digit code from your authenticator app at /api/v1/auth/mfa/verify."

  abbrev sent_text : String
  sent_text = "OTP sent to your verified channels. Verify at /api/v1/auth/mfa/verify."

  challenged :
      (draws : Draws) (user : User) (s : Stores S)
      → ((text : String) × ((challenge os redis settings draws user s).0 ≡ ok text))
        × ((challenge os redis settings draws user s).1.db ≡ s.db)
  unfolding challenge store_otp
  challenged draws user s = elim (Bool-cases user.totp_verified) [
    | inl app ↦ ((by_app_text, ground arith), ground arith)
    | inr none_yet ↦ ((sent_text, ground arith), ground arith)
  ]

  -- A challenge is issued after what `challenge` did, and ends in a commit.
  issued :
      (draws : Draws) (c : Credentials) (user : User) (email : String) (s : Stores S)
      → let t = (challenge os redis settings draws user s).1 in
        let (r, s') = issue_challenge os redis settings draws c user email s in
        ((text : String) × (r ≡ ok (mfa_required text)))
        × (s'.redis ≡ t.redis)
        × (s'.outbox ≡ t.outbox)
        × (s'.db.committed.login_sessions ≡ s.db.current.login_sessions)
  unfolding issue_challenge
  issued draws c user email s =
      let ((text, fine), same) = challenged draws user s in
      let t : Stores S = (challenge os redis settings draws user s).1 in
      let audit : Auth S ⊤ = on_db (
        record_audit_login_attempt os email false c.ip_address (some user.id)
          (some "mfa_challenge_issued") none) in
      let last : String → Auth S LoginResult = λ text. on_db commit >> pure (mfa_required text) in
      let (logged, users, sessions) =
        audited_ok os email false c.ip_address (some user.id) (some "mfa_challenge_issued") none
          t.db in
      let run =
        bind_run (challenge os redis settings draws user) (λ text. audit >> last text) s text fine
        ∙ bind_run audit (λ _. last text) t tt logged in
      (
        (text, ap (λ p. p.0) run),
        ap (λ p. p.1.redis) run,
        ap (λ p. p.1.outbox) run,
        ap (λ p. p.1.db.committed.login_sessions) run
            ∙ sessions
            ∙ ap (λ (d : DbSession). d.current.login_sessions) same,
      )

  started_thawed :
      (c : Credentials) (user : User)
      → MayStart os bcrypt c user
      → MayStart os bcrypt c (thawed user)
  started_thawed c user may = elim (Option-cases user.locked_until) [
    | inl free ↦ let same : thawed user ≡ user = ground arith in rw (same) may
    | inr (t, held) ↦
        let same : thawed user ≡ record user { locked_until = none; failed_login_attempts = 0 } =
          ground arith in
        let bare : MayStart os bcrypt c
            (record user { locked_until = none; failed_login_attempts = 0 }) =
          record {
            password = may.password;
            active = may.active;
            second_factor = may.second_factor;
            unlocked = inl refl;
            entitled = may.entitled;
          } in
        rw (same) bare
  ]

  -- what the first step leaves for the second: nothing with an app, or else a code that was sent
  abbrev pub IsAsked : Draws → ℕ → S → List Message → Stores S → User → Type 0
  IsAsked draws later store outbox s' user =
      ((user.totp_verified ≡ true) × (s'.redis ≡ store) × (s'.outbox ≡ outbox))
      ⊎ ((user.totp_verified ≡ false)
          × ((verify_stored_otp (at later os) redis user.id draws.otp login_purpose s').0
              ≡ ok (ltb later (os.now + settings.mfa_otp_ttl_seconds)))
          × ((sent : List Message) × (s'.outbox ≡ outbox ++ sent)
              × (1 ≤ length sent)
              × (length sent ≤ 2)
              × All (IsTo user draws.otp) sent))

  IsAsked-thawed :
      (draws : Draws) (later : ℕ) (store : S) (outbox : List Message) (s' : Stores S) (user : User)
      → IsAsked draws later store outbox s' (thawed user)
      → IsAsked draws later store outbox s' user
  IsAsked-thawed draws later store outbox s' user asked = elim (Option-cases user.locked_until) [
    | inl free ↦
        let same : thawed user ≡ user = ground arith in
        subst (λ u. IsAsked draws later store outbox s' u) same asked
    | inr (t, held) ↦
        let same : thawed user ≡ record user { locked_until = none; failed_login_attempts = 0 } =
          ground arith in
        subst (λ u. IsAsked draws later store outbox s' u) same asked
  ]

  verify_redis :
      (later user_id : ℕ) (otp : String) (s t : Stores S)
      → s.redis ≡ t.redis
      → (verify_stored_otp (at later os) redis user_id otp login_purpose s).0
        ≡ (verify_stored_otp (at later os) redis user_id otp login_purpose t).0
  unfolding verify_stored_otp
  verify_redis later user_id otp s t same = ground arith

  module _ (laws : RedisLaws redis) where
    issued-IsAsked :
        (draws : Draws) (c : Credentials) (user : User) (email : String) (later : ℕ) (s : Stores S)
        → IsAsked draws later s.redis s.outbox
            (issue_challenge os redis settings draws c user email s).1
            user
    issued-IsAsked draws c user email later s =
        let (answer, store, outbox, sessions) = issued draws c user email s in
        let t : Stores S = (challenge os redis settings draws user s).1 in
        elim (challenge-verify_stored_otp os redis laws settings draws user later s) [
          | inl (app, same) ↦ inl (
            app,
            store ∙ ap (λ (x : Stores S). x.redis) same,
            outbox ∙ ap (λ (x : Stores S). x.outbox) same,
          )
          | inr (none_yet, same, good, (sent, grown, some_sent, few, to)) ↦ inr (
            none_yet,
            verify_redis later user.id draws.otp _ t store ∙ good,
            (sent, outbox ∙ grown, some_sent, few, to),
          )
        ]

module _ (os : Platform) {S : Type 0} (redis : Redis S) (laws : RedisLaws redis)
    (settings : Settings) (bcrypt : Bcrypt) where
  -- A sign-in with the right password for an active account with a second factor, which is not locked and
  -- has the role that is asked for, from an address that is not blocked and within the rate limit, is
  -- answered with a request for the code, and opens no session. For an account with a verified
  -- authenticator app nothing is sent, and Redis holds what the rate limit left. For any other, one or two
  -- messages are sent, each with the drawn code to a verified channel of the account or to the account's
  -- own address, and later that code is accepted just while its time to live has not passed.
  pub login_with_password-verify_stored_otp :
      (draws : Draws) (c : Credentials) (user : User) (later : ℕ) (s : Stores S)
      → account_of os c s.db ≡ some user
      → verify_password bcrypt c.secret user.password_hash ≡ true
      → user.is_active ≡ true
      → user.mfa_enabled ≡ true
      → (user.locked_until ≡ none) ⊎ (has_passed user.locked_until os.now ≡ true)
      → (not c.admin_only || (user.is_admin && is_admin_role user.role)) ≡ true
      → (ensure_ip_allowed os c.ip_address s.db).0 ≡ ok tt
      → (rate_limit os redis settings bcrypt c s).0 ≡ ok tt
      → let (r, s') = login_with_password os redis settings bcrypt draws c s in
        ((text : String) × (r ≡ ok (mfa_required text)))
        × (s'.db.committed.login_sessions ≡ s.db.current.login_sessions)
        × (((user.totp_verified ≡ true)
              × (s'.redis ≡ (rate_limit os redis settings bcrypt c s).1.redis)
              × (s'.outbox ≡ s.outbox))
            ⊎ ((user.totp_verified ≡ false)
                × ((verify_stored_otp (at later os) redis user.id draws.otp login_purpose s').0
                    ≡ ok (ltb later (os.now + settings.mfa_otp_ttl_seconds)))
                × ((sent : List Message) × (s'.outbox ≡ s.outbox ++ sent)
                    × (1 ≤ length sent)
                    × (length sent ≤ 2)
                    × All (IsTo user draws.otp) sent)))
  login_with_password-verify_stored_otp draws c user later s found right active factor free entitled
        allowed within =
      let (t, run, store, outbox, sessions) =
        reached os redis settings bcrypt draws c user s found free allowed within in
      let may : MayStart os bcrypt c (thawed user) =
        started_thawed os redis settings bcrypt c user (record {
          password = right;
          active = active;
          second_factor = factor;
          unlocked = free;
          entitled = entitled;
        }) in
      let email : String = os.lower c.email in
      let whole = run ∙ decide_second os redis settings bcrypt draws c email (thawed user) t may in
      let ((text, answer), redis', outbox', sessions') =
        issued os redis settings bcrypt draws c (thawed user) email t in
      let asked =
        issued-IsAsked os redis settings bcrypt laws draws c (thawed user) email later t in
      let back = sym whole in
      let asked' : IsAsked os redis settings bcrypt draws later
          (rate_limit os redis settings bcrypt c s).1.redis s.outbox
          (login_with_password os redis settings bcrypt draws c s).1 (thawed user) =
        subst
          (λ (p : S × List Message × Stores S).
            IsAsked os redis settings bcrypt draws later p.0 p.1 p.2 (thawed user))
          (λ i. (store i, outbox i, (back i).1)) asked in
      (
        (text, ap (λ p. p.0) whole ∙ answer),
        ap (λ p. p.1.db.committed.login_sessions) whole ∙ sessions' ∙ sessions,
        IsAsked-thawed os redis settings bcrypt draws later
            (rate_limit os redis settings bcrypt c s).1.redis s.outbox
            (login_with_password os redis settings bcrypt draws c s).1 user asked',
      )
