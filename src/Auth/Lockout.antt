-- ===== src/Auth/Lockout.antt =====
-- The lock that wrong passwords put on an account (app/modules/auth/service.py), over two requests.
use ratinglift_backend_core.Common.{
  ⊤, ℕ, String, Bool, true, false, not, ◌&&◌, Bool-cases, ◌≡◌, ◌⊎◌, refl, sym, ap, ◌∙◌, Option,
  none, some, List, arith, inl, inr, ltb, str_eq, truthy, if◌then◌else◌, Option-cases, first, save,
  first-save_same, first_sound, ◌<>◌,
}
use ratinglift_backend_core.Exec.{
  Error, http, ok, err, Exec, pure, raise, ◌>>=◌, ◌>>◌, bind_run, bind_fail, Result-cases, is_ok,
}
use ratinglift_backend_core.Platform.{Platform}
use ratinglift_backend_core.Models.{User, Database, DbSession, commit}
use ratinglift_backend_core.Security.LoginTracking.{record_login_attempt, recent_failures_for_ip}
use ratinglift_backend_core.Security.IpBlocking.{
  ensure_ip_allowed, block_ip, register_failed_attempt_for_ip,
}
use ratinglift_backend_core.Audit.{log_action}
use ratinglift_backend_core.Auth.Attempts.{
  record_audit_login_attempt, login_entry, threshold_reason,
}
use ratinglift_backend_core.Auth.Sessions.{Settings, has_passed}
use ratinglift_backend_core.Auth.Stores.{Redis, Bcrypt, Stores, Auth, on_db}
use ratinglift_backend_core.Auth.Accounts.{
  Credentials, Draws, LoginResult, get_user_by_email, unlock, assert_not_locked, failed_user,
  register_failure_and_maybe_lock, locked_detail, or_unknown, user_id_of,
}
use ratinglift_backend_core.Auth.Login.{
  check_login_rate_limit, track_failed_login, refuse_login, password_fits, decide,
  login_with_password,
}
use ratinglift_backend_core.Auth.Soundness.{account_of, ensure_users, ensure_committed, limit_db}

-- An action that raises and leaves the committed database as it was.
abbrev pub IsRefused : {S A : Type 0} → Auth S A → Stores S → Type 0
IsRefused m s = (e : Error) × ((m s).0 ≡ err e) × ((m s).1.db.committed ≡ s.db.committed)

bind-IsRefused :
    {S A B : Type 0} (m : Auth S A) (f : A → Auth S B) (s : Stores S)
    → (m s).1.db.committed ≡ s.db.committed
    → ((a : A) → (m s).0 ≡ ok a → IsRefused (f a) (m s).1)
    → IsRefused (m >>= f) s
bind-IsRefused m f s same rest = elim (Result-cases (m s).0) [
  | inl (x, e) ↦
      let run = bind_fail m f s x e in (x, ap (λ p. p.0) run, ap (λ p. p.1.db.committed) run ∙ same)
  | inr (a, e) ↦
      let run = bind_run m f s a e in
      let (x, e', same') = rest a e in
      (x, ap (λ p. p.0) run ∙ e', ap (λ p. p.1.db.committed) run ∙ same' ∙ same)
]

-- a session on a committed database
abbrev pub opened : Database → DbSession
opened d = record { committed = d; current = d }

module _ (os : Platform) {S : Type 0} (redis : Redis S) (settings : Settings)
    (bcrypt : Bcrypt) where
  locked_refuses :
      (user : User) (until : ℕ) (s : DbSession)
      → user.locked_until ≡ some until
      → ltb os.now until ≡ true
      → assert_not_locked os (some user) s ≡ (err (http 423 locked_detail), s)
  unfolding assert_not_locked unlock
  locked_refuses user until s e early = ground arith

  -- While an account is locked, every sign-in with its address is refused and commits nothing, and
  -- this holds for the right password too.
  pub locked-login_with_password :
      (draws : Draws) (c : Credentials) (user : User) (until : ℕ) (s : Stores S)
      → account_of os c s.db ≡ some user
      → user.locked_until ≡ some until
      → ltb os.now until ≡ true
      → IsRefused (login_with_password os redis settings bcrypt draws c) s
  unfolding login_with_password get_user_by_email
  locked-login_with_password draws c user until s found e early =
      let email : String = os.lower c.email in
      let scope : String = if c.admin_only then "admin" else "user" in
      let key : String = email <> ":" <> or_unknown c.ip_address in
      let last : Option User → Auth S LoginResult =
        λ user. decide os redis settings draws c email user (password_fits bcrypt c.secret user) in
      let asserted : Option User → Auth S LoginResult =
        λ found. on_db (assert_not_locked os found) >>= last in
      let looked_up : Auth S LoginResult = on_db (get_user_by_email os email) >>= asserted in
      let limited : Auth S LoginResult =
        check_login_rate_limit os redis settings scope key >> looked_up in
      let s1 : Stores S = (on_db (ensure_ip_allowed os c.ip_address) s).1 in
      let s2 : Stores S = (check_login_rate_limit os redis settings scope key s1).1 in
      let same_db : s2.db ≡ s1.db = limit_db os redis settings bcrypt scope key s1 in
      let search : List User → Option User =
        first (λ (v : User). str_eq v.email (os.lower (os.lower c.email))) in
      let still : search s2.db.current.users ≡ some user =
        ap (λ (d : DbSession). search d.current.users) same_db
        ∙ ap search (ensure_users os c.ip_address s.db)
        ∙ found in
      let refuses : on_db (assert_not_locked os (search s2.db.current.users)) s2
          ≡ (err (http 423 locked_detail), s2) =
        ap (λ o. on_db (assert_not_locked os o) s2) still
        ∙ ap (λ p. (p.0, record s2 { db = p.1 })) (locked_refuses user until s2.db e early) in
      let third : IsRefused looked_up s2 =
        let run =
          bind_fail (on_db (assert_not_locked os (search s2.db.current.users))) last s2
            (http 423 locked_detail) (ap (λ p. p.0) refuses) in
        (
          http 423 locked_detail,
          ap (λ p. p.0) run,
          ap (λ p. p.1.db.committed) run ∙ ap (λ p. p.1.db.committed) refuses,
        ) in
      bind-IsRefused (on_db (ensure_ip_allowed os c.ip_address)) (λ _. limited) s
        (ensure_committed os c.ip_address s.db)
        (λ a e1.
          bind-IsRefused (check_login_rate_limit os redis settings scope key) (λ _. looked_up) s1
            (ap (λ (d : DbSession). d.committed) same_db) (λ a' e2. third))

ignoring :
    {S A : Type 0} (m : Exec S A) (s : S)
    → is_ok (m s).0 ≡ true
    → (m >> pure tt) s ≡ (ok tt, (m s).1)
ignoring m s h = elim (Result-cases (m s).0) [
  | inl (x, e) ↦ absurd (ground arith)
  | inr (a, e) ↦ bind_run m (λ _. pure tt) s a e
]

-- What a sign-in attempt leaves of the accounts.
module _ (os : Platform) where
  register_users :
      (ip : Option String) (threshold window : ℕ) (reason : String) (s : DbSession)
      → (register_failed_attempt_for_ip os ip threshold window reason s).1.current.users
        ≡ s.current.users
  unfolding register_failed_attempt_for_ip recent_failures_for_ip block_ip
  register_users none threshold window reason s = refl
  register_users (some ip) threshold window reason s = ground arith

  register_sessions :
      (ip : Option String) (threshold window : ℕ) (reason : String) (s : DbSession)
      → (register_failed_attempt_for_ip os ip threshold window reason s).1.current.login_sessions
        ≡ s.current.login_sessions
  unfolding register_failed_attempt_for_ip recent_failures_for_ip block_ip
  register_sessions none threshold window reason s = refl
  register_sessions (some ip) threshold window reason s = ground arith

  register_tenants :
      (ip : Option String) (threshold window : ℕ) (reason : String) (s : DbSession)
      → (register_failed_attempt_for_ip os ip threshold window reason s).1.current.tenants
        ≡ s.current.tenants
  unfolding register_failed_attempt_for_ip recent_failures_for_ip block_ip
  register_tenants none threshold window reason s = refl
  register_tenants (some ip) threshold window reason s = ground arith

  register_ok :
      (ip : Option String) (threshold window : ℕ) (reason : String) (s : DbSession)
      → is_ok (register_failed_attempt_for_ip os ip threshold window reason s).0 ≡ true
  unfolding register_failed_attempt_for_ip recent_failures_for_ip block_ip
  register_ok none threshold window reason s = refl
  register_ok (some ip) threshold window reason s = ground arith

  pub audited_ok :
      (email : String) (success : Bool) (ip : Option String) (user : Option ℕ)
      (reason agent : Option String) (s : DbSession)
      → ((record_audit_login_attempt os email success ip user reason agent s).0 ≡ ok tt)
        × ((record_audit_login_attempt os email success ip user reason agent s).1.current.users
            ≡ s.current.users)
        × ((record_audit_login_attempt os email success ip user reason agent
              s).1.current.login_sessions
            ≡ s.current.login_sessions)
  unfolding record_audit_login_attempt record_login_attempt log_action
  audited_ok email success ip user reason agent s =
      let logged : DbSession =
        (log_action os (login_entry email success ip user reason)
          (record_login_attempt os (some email) ip success reason agent s).1).1 in
      let run =
        ignoring (register_failed_attempt_for_ip os ip 20 15 threshold_reason) logged
          (register_ok ip 20 15 threshold_reason logged) in
      let sessions = register_sessions ip 20 15 threshold_reason logged in
      let users = register_users ip 20 15 threshold_reason logged in
      elim (Bool-cases (not success && truthy ip)) [
        | inl counted ↦ (
          rw (counted) (ap (λ p. p.0) run),
          rw (counted) (ap (λ p. p.1.current.users) run ∙ users),
          rw (counted) (ap (λ p. p.1.current.login_sessions) run ∙ sessions),
        )
        | inr ignored ↦ (rw (ignored) refl, rw (ignored) refl, rw (ignored) refl)
      ]

  pub audited_tenants :
      (email : String) (success : Bool) (ip : Option String) (user : Option ℕ)
      (reason agent : Option String) (s : DbSession)
      → (record_audit_login_attempt os email success ip user reason agent s).1.current.tenants
        ≡ s.current.tenants
  unfolding record_audit_login_attempt record_login_attempt log_action
  audited_tenants email success ip user reason agent s =
      let logged : DbSession =
        (log_action os (login_entry email success ip user reason)
          (record_login_attempt os (some email) ip success reason agent s).1).1 in
      let run =
        ignoring (register_failed_attempt_for_ip os ip 20 15 threshold_reason) logged
          (register_ok ip 20 15 threshold_reason logged) in
      elim (Bool-cases (not success && truthy ip)) [
        | inl counted ↦
            rw (counted) (
              ap (λ p. p.1.current.tenants) run ∙ register_tenants ip 20 15 threshold_reason logged)
        | inr ignored ↦ rw (ignored) refl
      ]

-- What an unexpired lock would be: the account as `_assert_not_locked` leaves it.
abbrev pub thawed : User → User
thawed user = elim user.locked_until [
  | none ↦ user
  | some t ↦ record user { locked_until = none; failed_login_attempts = 0 }
]

module _ (os : Platform) {S : Type 0} (redis : Redis S) (settings : Settings) where
  counted_users :
      (user : User) (s : DbSession)
      → ((register_failure_and_maybe_lock os settings user s).0 ≡ ok tt)
        × ((register_failure_and_maybe_lock os settings user s).1.current.users
            ≡ save user_id_of (failed_user os settings user) s.current.users)
  unfolding register_failure_and_maybe_lock
  counted_users user s = (ground arith, ground arith)

  track_users :
      (user : User) (tracked : String) (s : Stores S)
      → ((track_failed_login os redis settings (some user) tracked s).0 ≡ ok tt)
        × ((track_failed_login os redis settings (some user) tracked s).1.db.current.users
            ≡ save user_id_of (failed_user os settings user) s.db.current.users)
  unfolding track_failed_login
  track_users user tracked s =
      let (fine, users) = counted_users user s.db in
      (ground (arith, fine), ground (arith, fine, users))

  pub refused_users :
      (user : User) (tracked email : String) (c : Credentials) (reason detail : String)
      (s : Stores S)
      → let (r, s') = refuse_login os redis settings (some user) tracked email c reason detail s in
        (r ≡ err (http 401 detail))
        × (s'.db.committed.users
            ≡ save user_id_of (failed_user os settings user) s.db.current.users)
  unfolding refuse_login
  refused_users user tracked email c reason detail s =
      let (fine, users) = track_users user tracked s in
      let s1 : Stores S = (track_failed_login os redis settings (some user) tracked s).1 in
      let (fine', users', sessions') =
        audited_ok os email false c.ip_address (some user.id) (some reason) none s1.db in
      let audit : Auth S ⊤ = on_db (
        record_audit_login_attempt os email false c.ip_address (some user.id) (some reason) none) in
      let last : Auth S LoginResult = on_db commit >> raise (http 401 detail) in
      let run1 =
        bind_run (track_failed_login os redis settings (some user) tracked) (λ _. audit >> last) s
          tt fine in
      let run2 = bind_run audit (λ _. last) s1 tt fine' in
      let run = run1 ∙ run2 in
      (ap (λ p. p.0) run, ap (λ p. p.1.db.committed.users) run ∙ users' ∙ users)

  pub thawed_users :
      (user : User) (s : DbSession) (p : User → Bool)
      → first p s.current.users ≡ some user
      → ((u : User) → p u ≡ p (record u { locked_until = none; failed_login_attempts = 0 }))
      → (user.locked_until ≡ none) ⊎ (has_passed user.locked_until os.now ≡ true)
      → let (r, s') = assert_not_locked os (some user) s in
        (r ≡ ok (some (thawed user))) × (first p s'.current.users ≡ some (thawed user))
  unfolding assert_not_locked unlock
  thawed_users user s p found same (inl free) = (ground arith, ground arith)
  thawed_users user s p found same (inr over) = elim (Option-cases user.locked_until) [
    | inl free ↦ (ground arith, ground arith)
    | inr (t, held) ↦
        let row : User = record user { locked_until = none; failed_login_attempts = 0 } in
        let saved : first p (save user_id_of row s.current.users) ≡ some row =
          first-save_same user_id_of p row user s.current.users found refl
            (sym (same user) ∙ first_sound p s.current.users user found) in
        (ground arith, ground (arith, saved))
  ]
