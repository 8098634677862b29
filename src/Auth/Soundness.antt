-- ===== src/Auth/Soundness.antt =====
-- What a sign-in that succeeds goes to show (app/modules/auth/service.py).
use ratinglift_backend_core.Common.{
  String, Bool, true, false, not, ◌&&◌, ◌||◌, ◌≡◌, ◌≢◌, ◌⊎◌, refl, sym, ap, ◌∙◌, Option, none, some,
  List, arith, inl, inr, str_eq, if◌then◌else◌, Bool-cases, Option-cases, first, ◌<>◌,
}
use ratinglift_backend_core.Exec.{Error, http, ok, Exec, pure, raise, ◌>>=◌, ◌>>◌, bind_inv}
use ratinglift_backend_core.Platform.{Platform}
use ratinglift_backend_core.Models.{User, DbSession, Db, commit}
use ratinglift_backend_core.Security.IpBlocking.{is_ip_blocked, ensure_ip_allowed}
use ratinglift_backend_core.Auth.Attempts.{record_audit_login_attempt}
use ratinglift_backend_core.Auth.Sessions.{Settings, AuthResponse, has_passed}
use ratinglift_backend_core.Auth.Stores.{Redis, Bcrypt, Stores, Auth, on_db}
use ratinglift_backend_core.Auth.Codes.{verify_password}
use ratinglift_backend_core.Auth.Accounts.{
  Credentials, Draws, LoginResult, signed_in, mfa_required, get_user_by_email, unlock,
  assert_not_locked, assert_user_can_login, is_admin_role, reset_user, save_user, create_session,
  auth_response, sign_in, opt_id, or_unknown,
}
use ratinglift_backend_core.Auth.Login.{
  check_login_rate_limit, track_failed_login, refuse_login, challenge, issue_challenge, admit,
  password_fits, decide, login_with_password,
}

-- the user that a sign-in is for
abbrev pub account_of : Platform → Credentials → DbSession → Option User
account_of os c s =
    first (λ (u : User). str_eq u.email (os.lower (os.lower c.email))) s.current.users

pub ensure_users :
    (os : Platform) (ip : Option String) (s : DbSession)
    → (ensure_ip_allowed os ip s).1.current.users ≡ s.current.users
unfolding ensure_ip_allowed is_ip_blocked
ensure_users os none s = refl
ensure_users os (some ip) s = ground arith

pub ensure_sessions :
    (os : Platform) (ip : Option String) (s : DbSession)
    → (ensure_ip_allowed os ip s).1.current.login_sessions ≡ s.current.login_sessions
unfolding ensure_ip_allowed is_ip_blocked
ensure_sessions os none s = refl
ensure_sessions os (some ip) s = ground arith

pub ensure_committed :
    (os : Platform) (ip : Option String) (s : DbSession)
    → (ensure_ip_allowed os ip s).1.committed ≡ s.committed
unfolding ensure_ip_allowed is_ip_blocked
ensure_committed os none s = refl
ensure_committed os (some ip) s = ground arith

-- What lets a user sign in.
pub record MaySignIn (os : Platform) (bcrypt : Bcrypt) (c : Credentials) (user : User)
    : Type 0 where
  pub password : verify_password bcrypt c.secret user.password_hash ≡ true
  pub active : user.is_active ≡ true
  pub no_second_factor : user.mfa_enabled ≡ false
  pub unlocked : (user.locked_until ≡ none) ⊎ (has_passed user.locked_until os.now ≡ true)
  pub entitled : (not c.admin_only || (user.is_admin && is_admin_role user.role)) ≡ true

-- What never returns does not return after another action.
never_ok :
    {S A B : Type 0} (m : Exec S A) (k : Exec S B) (r : B)
    → ((s : S) → (k s).0 ≢ ok r)
    → (s : S) → ((m >> k) s).0 ≢ ok r
never_ok m k r never s h = let (a, ran, h') = bind_inv m (λ _. k) s r h in never (m s).1 h'

-- What returns returns after some action; and a branch that returned is one of the two.
then_inv :
    {S A B : Type 0} (m : Exec S A) (k : Exec S B) (r : B) (s : S)
    → ((m >> k) s).0 ≡ ok r
    → (s' : S) × ((k s').0 ≡ ok r)
then_inv m k r s h = let (a, ran, h') = bind_inv m (λ _. k) s r h in ((m s).1, h')

if_inv :
    {S A : Type 0} (b : Bool) (m k : Exec S A) (r : A) (s : S)
    → ((if b then m else k) s).0 ≡ ok r
    → ((b ≡ true) × ((m s).0 ≡ ok r)) ⊎ ((b ≡ false) × ((k s).0 ≡ ok r))
if_inv true m k r s h = inl (refl, h)
if_inv false m k r s h = inr (refl, h)

raise-ne-ok : {S A : Type 0} (e : Error) (r : A) (s : S) → (raise {S = S} e s).0 ≢ ok r
raise-ne-ok e r s h = cc

pub entitled_of :
    (user : User) (admin_only : Bool) (s : DbSession)
    → (assert_user_can_login user admin_only s).0 ≡ ok tt
    → (user.is_active ≡ true)
      × ((not admin_only || (user.is_admin && is_admin_role user.role)) ≡ true)
unfolding assert_user_can_login
entitled_of user admin_only s h = ground arith

module _ (os : Platform) {S : Type 0} (redis : Redis S) (settings : Settings)
    (bcrypt : Bcrypt) where
  pub refuse-ne-ok :
      (user : Option User) (tracked email : String) (c : Credentials) (reason detail : String)
      (s : Stores S) (r : LoginResult)
      → (refuse_login os redis settings user tracked email c reason detail s).0 ≢ ok r
  unfolding refuse_login
  refuse-ne-ok user tracked email c reason detail s r =
      let last : Auth S LoginResult = raise (http 401 detail) in
      let done : Auth S LoginResult = on_db commit >> last in
      let logged : Auth S LoginResult =
        on_db
          (record_audit_login_attempt os email false c.ip_address (opt_id user) (some reason) none)
        >> done in
      never_ok (track_failed_login os redis settings user tracked) logged r
        (never_ok
          (on_db (
            record_audit_login_attempt os email false c.ip_address (opt_id user) (some reason)
              none))
          done r (never_ok (on_db commit) last r (raise-ne-ok (http 401 detail) r)))
        s

  unlock_lem :
      (user user' : User) (s : DbSession)
      → (unlock os user s).0 ≡ ok user'
      → ((user.locked_until ≡ none) ⊎ (has_passed user.locked_until os.now ≡ true))
        × (user'.password_hash ≡ user.password_hash)
        × (user'.is_active ≡ user.is_active)
        × (user'.mfa_enabled ≡ user.mfa_enabled)
        × (user'.is_admin ≡ user.is_admin)
        × (user'.role ≡ user.role)
        × (reset_user user' ≡ reset_user user)
  unfolding unlock reset_user
  unlock_lem user user' s h = elim (Option-cases user.locked_until) [
    | inl free ↦ (
      inl free,
      ground arith,
      ground arith,
      ground arith,
      ground arith,
      ground arith,
      ground arith,
    )
    | inr (t, held) ↦ (
      inr (ground arith),
      ground arith,
      ground arith,
      ground arith,
      ground arith,
      ground arith,
      ground arith,
    )
  ]

  challenge-ne-ok :
      (draws : Draws) (c : Credentials) (user : User) (email : String) (s : Stores S)
      (answer : AuthResponse)
      → (issue_challenge os redis settings draws c user email s).0 ≢ ok (signed_in answer)
  unfolding issue_challenge
  challenge-ne-ok draws c user email s answer h =
      let asked : String → Auth S LoginResult = λ text. pure (mfa_required text) in
      let done : String → Auth S LoginResult = λ text. on_db commit >> asked text in
      let logged : String → Auth S LoginResult = λ text.
        on_db (
          record_audit_login_attempt os email false c.ip_address (some user.id)
            (some "mfa_challenge_issued") none)
        >> done text in
      let (text, ran, h') =
        bind_inv (challenge os redis settings draws user) logged s (signed_in answer) h in
      never_ok
        (on_db (
          record_audit_login_attempt os email false c.ip_address (some user.id)
            (some "mfa_challenge_issued") none))
        (done text) (signed_in answer)
        (never_ok (on_db commit) (asked text) (signed_in answer) (λ s' e. cc e))
        (challenge os redis settings draws user s).1 h'

  sign_in_answer :
      (draws : Draws) (c : Credentials) (user : User) (email : String) (s : DbSession)
      (answer : AuthResponse)
      → (sign_in os settings draws c user email s).0 ≡ ok (signed_in answer)
      → answer ≡ auth_response os settings draws.tokens (reset_user user) c.admin_only
  unfolding sign_in
  sign_in_answer draws c user email s answer h =
      let user' : User = reset_user user in
      let last : Db LoginResult =
        pure (signed_in (auth_response os settings draws.tokens user' c.admin_only)) in
      let done : Db LoginResult = commit >> last in
      let logged : Db LoginResult =
        record_audit_login_attempt os email true c.ip_address (some user'.id) none none >> done in
      let created : Db LoginResult =
        create_session os settings draws.tokens c user' c.admin_only >> logged in
      let (s1, h1) = then_inv (save_user user') created (signed_in answer) s h in
      let (s2, h2) =
        then_inv (create_session os settings draws.tokens c user' c.admin_only) logged
          (signed_in answer) s1 h1 in
      let (s3, h3) =
        then_inv (record_audit_login_attempt os email true c.ip_address (some user'.id) none none)
          done (signed_in answer) s2 h2 in
      cc h3

  -- whether a sign-in gets past the second factor, given who it is
  admit_inv :
      (draws : Draws) (c : Credentials) (email : String) (user : User) (s : Stores S)
      (answer : AuthResponse)
      → (admit os redis settings draws c email user s).0 ≡ ok (signed_in answer)
      → (user.is_active ≡ true)
        × ((not c.admin_only || (user.is_admin && is_admin_role user.role)) ≡ true)
        × (user.mfa_enabled ≡ false)
        × (answer ≡ auth_response os settings draws.tokens (reset_user user) c.admin_only)
  unfolding admit
  admit_inv draws c email user s answer h =
      let rest : Auth S LoginResult =
        if user.mfa_enabled
        then issue_challenge os redis settings draws c user email
        else on_db (sign_in os settings draws c user email) in
      let (u, may, h') =
        bind_inv (on_db (assert_user_can_login user c.admin_only)) (λ _. rest) s (signed_in answer)
          h in
      let s' : Stores S = (on_db (assert_user_can_login user c.admin_only) s).1 in
      let (active, entitled) = entitled_of user c.admin_only s.db may in
      elim (if_inv user.mfa_enabled (issue_challenge os redis settings draws c user email)
        (on_db (sign_in os settings draws c user email)) (signed_in answer) s' h') [
          | inl (asked, h2) ↦ absurd (challenge-ne-ok draws c user email s' answer h2)
          | inr (free, h2) ↦
              (active, entitled, free, sign_in_answer draws c user email s'.db answer h2)
        ]

  pub limit_db :
      (scope identifier : String) (s : Stores S)
      → (check_login_rate_limit os redis settings scope identifier s).1.db ≡ s.db
  unfolding check_login_rate_limit
  limit_db scope identifier s = refl

  -- a sign-in whose user has been read
  decide_inv :
      (draws : Draws) (c : Credentials) (email : String) (user : Option User) (s : Stores S)
      (answer : AuthResponse)
      → (decide os redis settings draws c email user (password_fits bcrypt c.secret user) s).0
        ≡ ok (signed_in answer)
      → (u : User) × (user ≡ some u)
        × (verify_password bcrypt c.secret u.password_hash ≡ true)
        × ((admit os redis settings draws c email u s).0 ≡ ok (signed_in answer))
  decide_inv draws c email none s answer h = absurd (
      refuse-ne-ok none email email c "invalid_credentials" "Invalid credentials" s
        (signed_in answer) h)
  decide_inv draws c email (some u) s answer h =
      elim (Bool-cases (verify_password bcrypt c.secret u.password_hash)) [
        | inl fits ↦ (u, refl, fits, rw (fits) at h)
        | inr wrong ↦ absurd (
            refuse-ne-ok (some u) email email c "invalid_credentials" "Invalid credentials" s
              (signed_in answer) (rw (wrong) at h))
      ]

  assert_inv :
      (user : Option User) (u' : User) (s : DbSession)
      → (assert_not_locked os user s).0 ≡ ok (some u')
      → (u : User) × (user ≡ some u) × ((unlock os u s).0 ≡ ok u')
  unfolding assert_not_locked
  assert_inv none u' s h = absurd (cc h)
  assert_inv (some u) u' s h =
      let found : User → Db (Option User) = λ u2. pure (some u2) in
      let (u2, ran, h') = bind_inv (unlock os u) found s (some u') h in (u, refl, ran ∙ cc h')

  -- A sign-in that a caller gets back has been earned: the account has the address that was given,
  -- its password fits, and it is active, not locked, without a second factor and, for the
  -- administration, an administrator. What comes back is that account's, with the failures reset.
  pub login_with_password-IsEarned :
      (draws : Draws) (c : Credentials) (s : Stores S) (answer : AuthResponse)
      → (login_with_password os redis settings bcrypt draws c s).0 ≡ ok (signed_in answer)
      → (user : User) × (account_of os c s.db ≡ some user)
        × MaySignIn os bcrypt c user
        × (answer ≡ auth_response os settings draws.tokens (reset_user user) c.admin_only)
  unfolding login_with_password get_user_by_email
  login_with_password-IsEarned draws c s answer h =
      let email : String = os.lower c.email in
      let scope : String = if c.admin_only then "admin" else "user" in
      let key : String = email <> ":" <> or_unknown c.ip_address in
      let last : Option User → Auth S LoginResult =
        λ user. decide os redis settings draws c email user (password_fits bcrypt c.secret user) in
      let asserted : Option User → Auth S LoginResult =
        λ found. on_db (assert_not_locked os found) >>= last in
      let looked_up : Auth S LoginResult = on_db (get_user_by_email os email) >>= asserted in
      let limited : Auth S LoginResult =
        check_login_rate_limit os redis settings scope key >> looked_up in
      let (u1, e1, h1) =
        bind_inv (on_db (ensure_ip_allowed os c.ip_address)) (λ _. limited) s (signed_in answer)
          h in
      let s1 : Stores S = (on_db (ensure_ip_allowed os c.ip_address) s).1 in
      let (u2, e2, h2) =
        bind_inv (check_login_rate_limit os redis settings scope key) (λ _. looked_up) s1
          (signed_in answer) h1 in
      let s2 : Stores S = (check_login_rate_limit os redis settings scope key s1).1 in
      let (found, e3, h3) =
        bind_inv (on_db (get_user_by_email os email)) asserted s2 (signed_in answer) h2 in
      let (user', e4, h4) =
        bind_inv (on_db (assert_not_locked os found)) last s2 (signed_in answer) h3 in
      let s4 : Stores S = (on_db (assert_not_locked os found) s2).1 in
      let (user, e5, right, h5) = decide_inv draws c email user' s4 answer h4 in
      let (u, e6, h6) = assert_inv found user s2.db (e4 ∙ ap ok e5) in
      let (unlocked, same_hash, same_active, same_mfa, same_admin, same_role, same_reset) =
        unlock_lem u user s2.db h6 in
      let (active, entitled, no_mfa, same) = admit_inv draws c email user s4 answer h5 in
      let found_first : account_of os c s2.db ≡ found = cc e3 in
      let users : s2.db.current.users ≡ s.db.current.users =
        ap (λ (d : DbSession). d.current.users) (limit_db scope key s1)
        ∙ ensure_users os c.ip_address s.db in
      let search : List User → Option User =
        first (λ (v : User). str_eq v.email (os.lower (os.lower c.email))) in
      (
        u,
        ap search (sym users) ∙ found_first ∙ e6,
        record {
          password = rw (sym same_hash) right;
          active = sym same_active ∙ active;
          no_second_factor = sym same_mfa ∙ no_mfa;
          unlocked = unlocked;
          entitled = rw (sym same_admin, sym same_role) entitled;
        },
        rw (sym same_reset) same,
      )
