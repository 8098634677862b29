-- ===== src/Auth/WrongPassword.antt =====
-- What a wrong password leads to, within a request and after it (app/modules/auth/service.py).
use ratinglift_backend_core.Common.{
  ⊤, ℕ, ◌+◌, ◌*◌, ◌≤◌, ◌<◌, String, Bool, true, false, ◌≡◌, ◌⊎◌, refl, ap, ◌∙◌, Option, none, some,
  List, arith, inl, inr, str_eq, if◌then◌else◌, Option-cases, first, save, first-save_same,
  first_sound, ◌<>◌, leb, Bool-cases,
}
use ratinglift_backend_core.Exec.{http, ok, err, ◌>>=◌, ◌>>◌, bind_run}
use ratinglift_backend_core.Platform.{Platform}
use ratinglift_backend_core.Models.{User, DbSession}
use ratinglift_backend_core.Security.IpBlocking.{ensure_ip_allowed}
use ratinglift_backend_core.Security.Blocklist.{at}
use ratinglift_backend_core.Auth.Sessions.{Settings, has_passed}
use ratinglift_backend_core.Auth.Stores.{Redis, Bcrypt, Stores, Auth, on_db}
use ratinglift_backend_core.Auth.Codes.{verify_password}
use ratinglift_backend_core.Auth.Accounts.{
  Credentials, Draws, LoginResult, get_user_by_email, assert_not_locked, failed_user, or_unknown,
  user_id_of,
}
use ratinglift_backend_core.Auth.Login.{
  check_login_rate_limit, refuse_login, password_fits, decide, login_with_password,
}
use ratinglift_backend_core.Auth.Soundness.{account_of, ensure_users, limit_db}
use ratinglift_backend_core.Auth.Lockout.{
  IsRefused, opened, locked-login_with_password, thawed, refused_users, thawed_users,
}

abbrev pub with_email_of : Platform → Credentials → User → Bool
with_email_of os c u = str_eq u.email (os.lower (os.lower c.email))

pub password_thawed : (user : User) → (thawed user).password_hash ≡ user.password_hash
password_thawed user = elim (Option-cases user.locked_until) [
  | inl free ↦ ground arith
  | inr (t, held) ↦ ground arith
]

-- The failures that count when an account's lock, if it has one, is over.
abbrev pub failures_of : Option ℕ → User → ℕ
failures_of none user = user.failed_login_attempts
failures_of (some t) user = 0

abbrev unheld : User → Option ℕ → User
unheld user held = elim held [
  | none ↦ user
  | some t ↦ record user { locked_until = none; failed_login_attempts = 0 }
]

module _ (os : Platform) {S : Type 0} (redis : Redis S) (settings : Settings)
    (bcrypt : Bcrypt) where
  -- the rate limit, as a sign-in asks it
  abbrev pub rate_limit : Credentials → Auth S ⊤
  rate_limit c =
      check_login_rate_limit os redis settings (if c.admin_only then "admin" else "user")
        (os.lower c.email <> ":" <> or_unknown c.ip_address)

  pub rate_limit_same :
      (c : Credentials) (s : Stores S) (d : DbSession)
      → (rate_limit c (record s { db = d })).0 ≡ (rate_limit c s).0
  unfolding check_login_rate_limit
  rate_limit_same c s d = refl

  failed_same :
      (user : User)
      → ((failed_user os settings user).id ≡ user.id)
        × ((failed_user os settings user).email ≡ user.email)
  unfolding failed_user
  failed_same user = (ground arith, ground arith)

  failed_locks :
      (user : User)
      → settings.account_lockout_threshold ≤ user.failed_login_attempts + 1
      → (failed_user os settings user).locked_until
        ≡ some (os.now + settings.account_lockout_minutes * 60)
  unfolding failed_user
  failed_locks user many = ground arith

  decide_wrong :
      (draws : Draws) (c : Credentials) (email : String) (user : User) (s : Stores S)
      → verify_password bcrypt c.secret user.password_hash ≡ false
      → decide os redis settings draws c email
          (some user)
          (password_fits bcrypt c.secret (some user))
          s
        ≡ refuse_login os redis settings
            (some user)
            email
            email
            c
            "invalid_credentials"
            "Invalid credentials"
            s
  decide_wrong draws c email user s wrong = rw (wrong) refl

  -- a sign-in with a wrong password, up to what its failure makes of the account
  wrong_committed :
      (draws : Draws) (c : Credentials) (user : User) (s : Stores S)
      → account_of os c s.db ≡ some user
      → (ensure_ip_allowed os c.ip_address s.db).0 ≡ ok tt
      → (rate_limit c s).0 ≡ ok tt
      → (user.locked_until ≡ none) ⊎ (has_passed user.locked_until os.now ≡ true)
      → verify_password bcrypt c.secret user.password_hash ≡ false
      → let (r, s') = login_with_password os redis settings bcrypt draws c s in
        (r ≡ err (http 401 "Invalid credentials"))
        × (account_of os c (opened s'.db.committed) ≡ some (failed_user os settings (thawed user)))
  unfolding login_with_password get_user_by_email
  wrong_committed draws c user s found allowed within free wrong =
      let email : String = os.lower c.email in
      let last : Option User → Auth S LoginResult =
        λ user. decide os redis settings draws c email user (password_fits bcrypt c.secret user) in
      let asserted : Option User → Auth S LoginResult =
        λ found. on_db (assert_not_locked os found) >>= last in
      let looked_up : Auth S LoginResult = on_db (get_user_by_email os email) >>= asserted in
      let limited : Auth S LoginResult = rate_limit c >> looked_up in
      let s1 : Stores S = (on_db (ensure_ip_allowed os c.ip_address) s).1 in
      let s2 : Stores S = (rate_limit c s1).1 in
      let same_db : s2.db ≡ s1.db = limit_db os redis settings bcrypt _ _ s1 in
      let search : List User → Option User = first (with_email_of os c) in
      let still : search s2.db.current.users ≡ some user =
        ap (λ (d : DbSession). search d.current.users) same_db
        ∙ ap search (ensure_users os c.ip_address s.db)
        ∙ found in
      let (fine, kept) =
        thawed_users os redis settings user s2.db (with_email_of os c) still (λ u. refl) free in
      let s3 : Stores S = (on_db (assert_not_locked os (some user)) s2).1 in
      let (refused, failed) =
        refused_users os redis settings (thawed user) email email c "invalid_credentials"
          "Invalid credentials" s3 in
      let counted : search
            (save user_id_of (failed_user os settings (thawed user)) s3.db.current.users)
          ≡ some (failed_user os settings (thawed user)) =
        let (same_id, same_email) = failed_same (thawed user) in
        first-save_same user_id_of (with_email_of os c) (failed_user os settings (thawed user))
          (thawed user) s3.db.current.users kept same_id
          (ap (λ e. str_eq e (os.lower (os.lower c.email))) same_email
            ∙ first_sound (with_email_of os c) s3.db.current.users (thawed user) kept) in
      let run1 = bind_run (on_db (ensure_ip_allowed os c.ip_address)) (λ _. limited) s tt allowed in
      let run2 =
        bind_run (rate_limit c) (λ _. looked_up) s1 tt (rate_limit_same c s s1.db ∙ within) in
      let run3 = ap (λ o. asserted o s2) still in
      let run4 =
        bind_run (on_db (assert_not_locked os (some user))) last s2 (some (thawed user)) fine in
      let run5 =
        decide_wrong draws c email (thawed user) s3
          (ap (verify_password bcrypt c.secret) (password_thawed user) ∙ wrong) in
      let run = run1 ∙ run2 ∙ run3 ∙ run4 ∙ run5 in
      (
        ap (λ p. p.0) run ∙ refused,
        ap (λ p. search p.1.db.committed.users) run ∙ ap search failed ∙ counted,
      )

  -- the account after a failure, when so many count already
  abbrev after_failure : User → ℕ → User
  after_failure user before = record user {
    failed_login_attempts = before + 1;
    locked_until =
        if leb settings.account_lockout_threshold (before + 1)
        then some (os.now + settings.account_lockout_minutes * 60)
        else none;
  }

  failed_lem :
      (user : User) (held : Option ℕ)
      → user.locked_until ≡ held
      → failed_user os settings (unheld user held) ≡ after_failure user (failures_of held user)
  unfolding failed_user
  failed_lem user none free =
      elim (Bool-cases (leb settings.account_lockout_threshold (user.failed_login_attempts + 1))) [
        | inl many ↦ ground arith
        | inr few ↦
            let kept : failed_user os settings user
                ≡ record user { failed_login_attempts = user.failed_login_attempts + 1 } =
              ground arith in
            kept
            ∙ (λ i. record user {
              failed_login_attempts = user.failed_login_attempts + 1;
              locked_until = free i;
            })
            ∙ ground arith
      ]
  failed_lem user (some t) held = elim (Bool-cases (leb settings.account_lockout_threshold 1)) [
    | inl many ↦ ground arith
    | inr few ↦ ground arith
  ]

  -- A sign-in with a wrong password, for an account that is not locked, from an address that is not
  -- blocked and within the rate limit, is refused with 401. The failure is committed: the next request
  -- finds the account as it was, but with one failure more, counted from 0 if a lock had expired, and
  -- locked from now on for the given minutes if that count reaches the threshold, or else not locked.
  pub wrong-login_with_password :
      (draws : Draws) (c : Credentials) (user : User) (s : Stores S)
      → account_of os c s.db ≡ some user
      → (ensure_ip_allowed os c.ip_address s.db).0 ≡ ok tt
      → (rate_limit c s).0 ≡ ok tt
      → (user.locked_until ≡ none) ⊎ (has_passed user.locked_until os.now ≡ true)
      → verify_password bcrypt c.secret user.password_hash ≡ false
      → let (r, s') = login_with_password os redis settings bcrypt draws c s in
        let failures = failures_of user.locked_until user + 1 in
        (r ≡ err (http 401 "Invalid credentials"))
        × (account_of os c (opened s'.db.committed)
            ≡ some (record user {
              failed_login_attempts = failures;
              locked_until =
                  if leb settings.account_lockout_threshold failures
                  then some (os.now + settings.account_lockout_minutes * 60)
                  else none;
            }))
  wrong-login_with_password draws c user s found allowed within free wrong =
      let (refused, failed) = wrong_committed draws c user s found allowed within free wrong in
      (refused, failed ∙ ap some (failed_lem user user.locked_until refl))

  -- The wrong password that reaches the threshold locks the account: whoever signs in with its address
  -- before the lock's end, whatever the password, from wherever, and whatever Redis holds by then, is
  -- refused, and nothing is committed.
  pub lockout :
      (draws later_draws : Draws) (c later_c : Credentials) (user : User) (s : Stores S) (later : ℕ)
      (store : S)
      → account_of os c s.db ≡ some user
      → (ensure_ip_allowed os c.ip_address s.db).0 ≡ ok tt
      → (rate_limit c s).0 ≡ ok tt
      → (user.locked_until ≡ none) ⊎ (has_passed user.locked_until os.now ≡ true)
      → verify_password bcrypt c.secret user.password_hash ≡ false
      → settings.account_lockout_threshold ≤ (thawed user).failed_login_attempts + 1
      → os.lower later_c.email ≡ os.lower c.email
      → later < os.now + settings.account_lockout_minutes * 60
      → let s' = (login_with_password os redis settings bcrypt draws c s).1 in
        IsRefused
          (login_with_password (at later os) redis settings bcrypt later_draws later_c)
          (record s' { db = opened s'.db.committed; redis = store })
  lockout draws later_draws c later_c user s later store found allowed within free wrong many same
        early =
      let s' = (login_with_password os redis settings bcrypt draws c s).1 in
      let (refused, failed) = wrong_committed draws c user s found allowed within free wrong in
      let search =
        λ (e : String). first (λ (u : User). str_eq u.email (os.lower e)) s'.db.committed.users in
      locked-login_with_password (at later os) redis settings bcrypt later_draws later_c
        (failed_user os settings (thawed user)) (os.now + settings.account_lockout_minutes * 60)
        (record s' { db = opened s'.db.committed; redis = store }) (ap search same ∙ failed)
        (failed_locks (thawed user) many) (ground arith)
