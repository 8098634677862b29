-- ===== src/Auth/Admission.antt =====
-- A sign-in that succeeds, and the first request with its access token (app/modules/auth/service.py).
use ratinglift_backend_core.Common.{
  ⊤, String, Bool, true, false, not, ◌&&◌, ◌||◌, ◌≡◌, refl, ap, ◌∙◌, Option, none, some, [], ◌∷◌,
  ◌++◌, arith, inl, inr, truthy, if◌then◌else◌, Option-cases, eq_iff, first, save, first-save_same,
  first_sound, first-append, ◌==◌,
}
use ratinglift_backend_core.Exec.{ok, Exec, pure, ◌>>=◌, ◌>>◌, bind_run, bind_ok}
use ratinglift_backend_core.Platform.{Platform}
use ratinglift_backend_core.Models.{User, LoginSession, DbSession, Db, commit}
use ratinglift_backend_core.Security.IpBlocking.{ensure_ip_allowed}
use ratinglift_backend_core.Auth.Attempts.{record_audit_login_attempt}
use ratinglift_backend_core.Auth.Sessions.{
  Settings, has_jti, is_revoked, get_current_user, access_claims,
}
use ratinglift_backend_core.Auth.Stores.{Redis, Bcrypt, Stores, Auth, on_db}
use ratinglift_backend_core.Auth.Codes.{verify_password}
use ratinglift_backend_core.Auth.Accounts.{
  Credentials, Draws, LoginResult, signed_in, get_user_by_email, unlock, assert_not_locked,
  assert_user_can_login, is_admin_role, reset_user, save_user, new_session, create_session,
  auth_response, sign_in, user_id_of,
}
use ratinglift_backend_core.Auth.Login.{
  admit, issue_challenge, password_fits, decide, login_with_password,
}
use ratinglift_backend_core.Auth.Soundness.{
  account_of, ensure_users, ensure_sessions, limit_db, MaySignIn,
}
use ratinglift_backend_core.Auth.Lockout.{opened, thawed, thawed_users, audited_ok}
use ratinglift_backend_core.Auth.WrongPassword.{with_email_of, rate_limit, rate_limit_same}

module _ (os : Platform) (settings : Settings) where
  pub signed :
      (draws : Draws) (c : Credentials) (user : User) (email : String) (s : DbSession)
      → let (r, s') = sign_in os settings draws c user email s in
        (r ≡ ok (signed_in (auth_response os settings draws.tokens (reset_user user) c.admin_only)))
        × (s'.committed.users ≡ save user_id_of (reset_user user) s.current.users)
        × (s'.committed.login_sessions
            ≡ s.current.login_sessions
              ++ new_session os settings draws.tokens c
                  (reset_user user)
                  c.admin_only
                  s.current.login_sessions
                ∷ [])
  unfolding sign_in create_session
  signed draws c user email s =
      let user' : User = reset_user user in
      let s1 : DbSession =
        (create_session os settings draws.tokens c user' c.admin_only (save_user user' s).1).1 in
      let audit : Db ⊤ =
        record_audit_login_attempt os email true c.ip_address (some user'.id) none none in
      let last : Db LoginResult =
        commit >> pure (signed_in (auth_response os settings draws.tokens user' c.admin_only)) in
      let (fine, users, sessions) =
        audited_ok os email true c.ip_address (some user'.id) none none s1 in
      let run = bind_run audit (λ _. last) s1 tt fine in
      (
        ap (λ p. p.0) run,
        ap (λ p. p.1.committed.users) run ∙ users,
        ap (λ p. p.1.committed.login_sessions) run ∙ sessions,
      )

  pub may_login :
      (user : User) (admin_only : Bool) (s : DbSession)
      → user.is_active ≡ true
      → (not admin_only || (user.is_admin && is_admin_role user.role)) ≡ true
      → assert_user_can_login user admin_only s ≡ (ok tt, s)
  unfolding assert_user_can_login
  may_login user admin_only s active entitled = ground arith

  accepted :
      (user : User) (jti : String) (row : LoginSession) (s : DbSession)
      → first (λ (u : User). u.id == user.id) s.current.users ≡ some user
      → first (has_jti jti) s.current.login_sessions ≡ some row
      → row.revoked ≡ false
      → os.parse_uuid (os.show_uuid user.id) ≡ some user.id
      → truthy (some (os.show_uuid user.id)) ≡ true
      → (get_current_user os (access_claims os user jti) s).0 ≡ ok user
  unfolding get_current_user access_claims is_revoked
  accepted user jti row s found there live parsed shown = ground arith

  signed_accepted :
      (draws : Draws) (c : Credentials) (user : User) (email : String) (s : DbSession)
      → first (λ (u : User). u.id == user.id) s.current.users ≡ some user
      → first (has_jti draws.tokens.jti) s.current.login_sessions ≡ none
      → os.parse_uuid (os.show_uuid user.id) ≡ some user.id
      → truthy (some (os.show_uuid user.id)) ≡ true
      → (get_current_user os
          (access_claims os (reset_user user) draws.tokens.jti)
          (opened (sign_in os settings draws c user email s).1.committed)).0
        ≡ ok (reset_user user)
  unfolding new_session reset_user
  signed_accepted draws c user email s found fresh parsed shown =
      let (answered, users, sessions) = signed draws c user email s in
      let rows = s.current.login_sessions in
      let row : LoginSession =
        new_session os settings draws.tokens c (reset_user user) c.admin_only rows in
      let with_id : User → Bool = λ u. u.id == user.id in
      let same = (eq_iff draws.tokens.jti draws.tokens.jti).1 refl in
      let appended : first (has_jti draws.tokens.jti) (rows ++ row ∷ []) ≡ some row =
        first-append (has_jti draws.tokens.jti) rows row fresh ∙ ground (arith, same) in
      let saved : first with_id (save user_id_of (reset_user user) s.current.users)
          ≡ some (reset_user user) =
        first-save_same user_id_of with_id (reset_user user) user s.current.users found refl
          (first_sound with_id s.current.users user found) in
      accepted (reset_user user) draws.tokens.jti row
        (opened (sign_in os settings draws c user email s).1.committed)
        (ap (first with_id) users ∙ saved)
        (ap (first (has_jti draws.tokens.jti)) sessions ∙ appended) refl parsed shown

  thawed_id : (user : User) → (thawed user).id ≡ user.id
  thawed_id user = elim (Option-cases user.locked_until) [
    | inl free ↦ ground arith
    | inr (t, held) ↦ ground arith
  ]

  pub unlocked_sessions :
      (user : User) (s : DbSession)
      → (assert_not_locked os (some user) s).1.current.login_sessions ≡ s.current.login_sessions
  unfolding assert_not_locked unlock
  unlocked_sessions user s = ground arith

  reset-thawed : (user : User) → reset_user (thawed user) ≡ reset_user user
  unfolding reset_user
  reset-thawed user = elim (Option-cases user.locked_until) [
    | inl free ↦ ground arith
    | inr (t, held) ↦ ground arith
  ]

  thawed-MaySignIn :
      (bcrypt : Bcrypt) (c : Credentials) (user : User)
      → MaySignIn os bcrypt c user
      → MaySignIn os bcrypt c (thawed user)
  thawed-MaySignIn bcrypt c user may = elim (Option-cases user.locked_until) [
    | inl free ↦ let same : thawed user ≡ user = ground arith in rw (same) may
    | inr (t, held) ↦
        let same : thawed user ≡ record user { locked_until = none; failed_login_attempts = 0 } =
          ground arith in
        let bare : MaySignIn os bcrypt c
            (record user { locked_until = none; failed_login_attempts = 0 }) =
          record {
            password = may.password;
            active = may.active;
            no_second_factor = may.no_second_factor;
            unlocked = inl refl;
            entitled = may.entitled;
          } in
        rw (same) bare
  ]

-- A branch that is known.
if_false :
    {S A : Type 0} (b : Bool) (m k : Exec S A) (s : S) → b ≡ false → (if b then m else k) s ≡ k s
if_false true m k s e = absurd (cc e)
if_false false m k s e = refl

pub fitting : (b : Bool) (user : User) → b ≡ true → (if b then some user else none) ≡ some user
fitting true user e = refl
fitting false user e = absurd (cc e)

module _ (os : Platform) {S : Type 0} (redis : Redis S) (settings : Settings)
    (bcrypt : Bcrypt) where
  decide_right :
      (draws : Draws) (c : Credentials) (email : String) (user : User) (s : Stores S)
      → MaySignIn os bcrypt c user
      → decide os redis settings draws c email
          (some user)
          (password_fits bcrypt c.secret (some user))
          s
        ≡ on_db (sign_in os settings draws c user email) s
  unfolding admit
  decide_right draws c email user s may =
      let second : Auth S LoginResult = issue_challenge os redis settings draws c user email in
      let straight : Auth S LoginResult = on_db (sign_in os settings draws c user email) in
      let enter = may_login os settings user c.admin_only s.db may.active may.entitled in
      ap (λ o. decide os redis settings draws c email (some user) o s)
        (fitting (verify_password bcrypt c.secret user.password_hash) user may.password)
      ∙ bind_ok (on_db (assert_user_can_login user c.admin_only))
          (λ _. if user.mfa_enabled then second else straight) s tt (ap (λ p. p.0) enter)
          (ap (λ p. record s { db = p.1 }) enter)
      ∙ if_false user.mfa_enabled second straight s may.no_second_factor

  -- Who may sign in from an address that is not blocked, within the rate limit, is signed in; the sign-in
  -- is committed, and the next request with its access token is the account's, with the failures reset.
  -- The drawn jti is fresh, and UUIDs print as non-empty texts that parse back.
  pub login_with_password-get_current_user :
      (draws : Draws) (c : Credentials) (user : User) (s : Stores S)
      → account_of os c s.db ≡ some user
      → first (λ (u : User). u.id == user.id) s.db.current.users ≡ some user
      → MaySignIn os bcrypt c user
      → (ensure_ip_allowed os c.ip_address s.db).0 ≡ ok tt
      → (rate_limit os redis settings bcrypt c s).0 ≡ ok tt
      → first (has_jti draws.tokens.jti) s.db.current.login_sessions ≡ none
      → os.parse_uuid (os.show_uuid user.id) ≡ some user.id
      → truthy (some (os.show_uuid user.id)) ≡ true
      → let (r, s') = login_with_password os redis settings bcrypt draws c s in
        let answer = auth_response os settings draws.tokens (reset_user user) c.admin_only in
        (r ≡ ok (signed_in answer))
        × ((get_current_user os answer.access_claims (opened s'.db.committed)).0
            ≡ ok (reset_user user))
  unfolding login_with_password get_user_by_email auth_response new_session
  login_with_password-get_current_user draws c user s found by_id may allowed within fresh parsed
        shown =
      let email : String = os.lower c.email in
      let last : Option User → Auth S LoginResult =
        λ user. decide os redis settings draws c email user (password_fits bcrypt c.secret user) in
      let asserted : Option User → Auth S LoginResult =
        λ found. on_db (assert_not_locked os found) >>= last in
      let looked_up : Auth S LoginResult = on_db (get_user_by_email os email) >>= asserted in
      let limited : Auth S LoginResult = rate_limit os redis settings bcrypt c >> looked_up in
      let s1 : Stores S = (on_db (ensure_ip_allowed os c.ip_address) s).1 in
      let s2 : Stores S = (rate_limit os redis settings bcrypt c s1).1 in
      let same_db : s2.db ≡ s1.db = limit_db os redis settings bcrypt _ _ s1 in
      let users : s2.db.current.users ≡ s.db.current.users =
        ap (λ (d : DbSession). d.current.users) same_db ∙ ensure_users os c.ip_address s.db in
      let sessions : s2.db.current.login_sessions ≡ s.db.current.login_sessions =
        ap (λ (d : DbSession). d.current.login_sessions) same_db
        ∙ ensure_sessions os c.ip_address s.db in
      let with_id : User → Bool = λ u. u.id == user.id in
      let still : first (with_email_of os c) s2.db.current.users ≡ some user =
        ap (first (with_email_of os c)) users ∙ found in
      let (fine, kept) =
        thawed_users os redis settings user s2.db with_id (ap (first with_id) users ∙ by_id)
          (λ u. refl) may.unlocked in
      let s3 : Stores S = (on_db (assert_not_locked os (some user)) s2).1 in
      let (answered, new_users, new_sessions) =
        signed os settings draws c (thawed user) email s3.db in
      let run1 = bind_run (on_db (ensure_ip_allowed os c.ip_address)) (λ _. limited) s tt allowed in
      let run2 =
        bind_run (rate_limit os redis settings bcrypt c) (λ _. looked_up) s1 tt
          (rate_limit_same os redis settings bcrypt c s s1.db ∙ within) in
      let run3 = ap (λ o. asserted o s2) still in
      let run4 =
        bind_run (on_db (assert_not_locked os (some user))) last s2 (some (thawed user)) fine in
      let run5 =
        decide_right draws c email (thawed user) s3
          (thawed-MaySignIn os settings bcrypt c user may) in
      let run = run1 ∙ run2 ∙ run3 ∙ run4 ∙ run5 in
      let no_jti : first (has_jti draws.tokens.jti) s3.db.current.login_sessions ≡ none =
        ap (first (has_jti draws.tokens.jti)) (unlocked_sessions os settings user s2.db ∙ sessions)
        ∙ fresh in
      let id = thawed_id os settings user in
      let let_in =
        signed_accepted os settings draws c (thawed user) email s3.db (rw (id) kept) no_jti
          (rw (id) parsed) (rw (id) shown) in
      let reset = reset-thawed os settings user in
      (
        ap (λ p. p.0) run
            ∙ answered
            ∙ ap (λ u. ok (signed_in (auth_response os settings draws.tokens u c.admin_only)))
                reset,
        ap
              (λ p.
                (get_current_user os (access_claims os (reset_user user) draws.tokens.jti)
                  (opened p.1.db.committed)).0)
              run
            ∙ (rw (reset) at let_in),
      )
