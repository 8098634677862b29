-- ===== src/Auth/BruteForce.antt =====
-- Guessing passwords from one address: `_record_audit_login_attempt` of app/modules/auth/service.py
-- with `register_failed_attempt_for_ip` and `ensure_ip_allowed` of app/modules/security/ip_blocking.py.
use ratinglift_backend_core.Common.{
  ⊤, ℕ, suc, String, Bool, true, false, ◌+◌, ◌-◌, ◌≤◌, ◌≡◌, refl, ap, ◌∙◌, inl, inr, Option, some,
  List, [], ◌∷◌, map, length, length-append_one, arith, ltb, eq_iff, truthy, if◌then◌else◌, All,
  select, count, select-append, Bool-cases, ◌<◌, ◌⊎◌, ◌<>◌,
}
use ratinglift_backend_core.Exec.{Exec, Result-cases, ok, err, http, ◌>>=◌, ◌>>◌, pure, bind_fail}
use ratinglift_backend_core.Platform.{Platform}
use ratinglift_backend_core.Models.{User, LoginAttempt, DbSession, Db}
use ratinglift_backend_core.Audit.{log_action}
use ratinglift_backend_core.Security.LoginTracking.{
  normal_email, record_login_attempt, since, failed_for_ip, failures_of, recent_failures_for_ip,
}
use ratinglift_backend_core.Security.IpBlocking.{
  is_ip_blocked, ensure_ip_allowed, blocked_detail, block_ip, register_failed_attempt_for_ip,
}
use ratinglift_backend_core.Security.Blocklist.{at, register_blocks}
use ratinglift_backend_core.Auth.Attempts.{
  record_audit_login_attempt, login_entry, threshold_reason,
}
use ratinglift_backend_core.Auth.Sessions.{Settings}
use ratinglift_backend_core.Auth.Stores.{Redis, Bcrypt, Stores, Auth, on_db}
use ratinglift_backend_core.Auth.Accounts.{
  Credentials, Draws, LoginResult, get_user_by_email, assert_not_locked, or_unknown,
}
use ratinglift_backend_core.Auth.Login.{
  check_login_rate_limit, password_fits, decide, login_with_password,
}
use ratinglift_backend_core.Auth.Soundness.{ensure_committed}

-- A failed sign-in from the address, and its time.
pub record Failure : Type 0 where
  pub time : ℕ
  pub email : String
  pub user : Option ℕ
  pub reason : Option String
  pub user_agent : Option String

ignores_result : {S A : Type 0} (m : Exec S A) (s : S) → ((m >> pure tt) s).1 ≡ (m s).1
ignores_result m s = elim (Result-cases (m s).0) [
  | inl (x, e) ↦ rw (e, ◌>>◌, ◌>>=◌) refl
  | inr (a, e) ↦ rw (e, ◌>>◌, ◌>>=◌) refl
]

module _ (os : Platform) (ip : String) where
  abbrev pub fail : Failure → Db ⊤
  fail f =
      record_audit_login_attempt (at f.time os) f.email false (some ip) f.user f.reason f.user_agent

  -- the state after these failures
  unfoldable pub after : List Failure → DbSession → DbSession
  after [] s = s
  after (f ∷ fs) s = after fs (fail f s).1

  -- before the entry for the address is looked at
  abbrev recorded : Failure → DbSession → DbSession
  recorded f s =
      (log_action (at f.time os) (login_entry f.email false (some ip) f.user f.reason)
        (record_login_attempt (at f.time os) (some f.email) (some ip) false f.reason f.user_agent
          s).1).1

  recorded_count :
      (t : ℕ) (f : Failure) (s : DbSession)
      → t - 900 ≤ f.time
      → failures_of (at t os) ip 15 (recorded f s) ≡ suc (failures_of (at t os) ip 15 s)
  unfolding failures_of record_login_attempt log_action since normal_email
  recorded_count t f s recent =
      let same = (eq_iff ip ip).1 refl in
      let row : LoginAttempt = record {
        id = os.new_uuid (map (λ (a : LoginAttempt). a.id) s.current.login_attempts);
        email = os.lower f.email;
        ip_address = some ip;
        user_agent = f.user_agent;
        success = false;
        reason = f.reason;
        timestamp = f.time;
      } in
      let added = select-append (failed_for_ip ip (t - 900)) s.current.login_attempts row in
      let one_more =
        length-append_one (select (failed_for_ip ip (t - 900)) s.current.login_attempts) row in
      let passes : failed_for_ip ip (t - 900) row ≡ true = ground arith in
      rw (added, passes) one_more

  fail_runs :
      (f : Failure) (s : DbSession)
      → truthy (some ip) ≡ true
      → (fail f s).1
        ≡ (register_failed_attempt_for_ip
            (at f.time os)
            (some ip)
            20
            15
            threshold_reason
            (recorded f s)).1
  unfolding record_audit_login_attempt record_login_attempt log_action
  fail_runs f s real =
      let end =
        ignores_result
          (register_failed_attempt_for_ip (at f.time os) (some ip) 20 15 threshold_reason)
          (recorded f s) in
      rw (real) end

  register_attempts :
      (t : ℕ) (reason : String) (s : DbSession)
      → truthy (some ip) ≡ true
      → (register_failed_attempt_for_ip (at t os) (some ip) 20 15 reason s).1.current.login_attempts
        ≡ s.current.login_attempts
  unfolding register_failed_attempt_for_ip recent_failures_for_ip block_ip
  register_attempts t reason s real = ground arith

  fail_count :
      (t : ℕ) (f : Failure) (s : DbSession)
      → truthy (some ip) ≡ true
      → t - 900 ≤ f.time
      → failures_of (at t os) ip 15 (fail f s).1 ≡ suc (failures_of (at t os) ip 15 s)
  unfolding failures_of since
  fail_count t f s real recent =
      ap (λ s'. failures_of (at t os) ip 15 s') (fail_runs f s real)
      ∙ ap (λ rows. count (failed_for_ip ip (t - 900)) rows)
          (register_attempts f.time threshold_reason (recorded f s) real)
      ∙ recorded_count t f s recent

  after_count :
      (t : ℕ) (fs : List Failure) (s : DbSession)
      → truthy (some ip) ≡ true
      → All (λ (f : Failure). t - 900 ≤ f.time) fs
      → length fs ≤ failures_of (at t os) ip 15 (after fs s)
  unfolding after
  after_count t fs s real recent = ground (arith, go fs s recent)
    where
      go :
          (fs : List Failure) (s : DbSession)
          → All (λ (f : Failure). t - 900 ≤ f.time) fs
          → length fs + failures_of (at t os) ip 15 s ≤ failures_of (at t os) ip 15 (after fs s)
      go [] s h = ground arith
      go (f ∷ fs) s (r, h) = ground (arith, go fs (fail f s).1 h, fail_count t f s real r)

  ensure_of :
      (t : ℕ) (s : DbSession) (b : Bool)
      → (is_ip_blocked (at t os) (some ip) s).0 ≡ ok b
      → (ensure_ip_allowed (at t os) (some ip) s).0
        ≡ (if b then err (http 403 blocked_detail) else ok tt)
  unfolding ensure_ip_allowed
  ensure_of t s true e = rw (e, ensure_ip_allowed, ◌>>=◌) refl
  ensure_of t s false e = rw (e, ensure_ip_allowed, ◌>>=◌) refl

  -- what the guard makes of later sign-ins from the address
  allowed_again :
      (fs : List Failure) (last : Failure) (later : ℕ) (s : DbSession)
      → truthy (some ip) ≡ true
      → All (λ (f : Failure). last.time - 900 ≤ f.time) fs
      → 19 ≤ length fs
      → (ensure_ip_allowed (at later os) (some ip) (fail last (after fs s)).1).0
        ≡ (if ltb later (last.time + 3600) then err (http 403 blocked_detail) else ok tt)
  allowed_again fs last later s real recent many =
      let s' = after fs s in
      let before = after_count last.time fs s real recent in
      let one_more = recorded_count last.time last s' (ground arith) in
      let blocks =
        register_blocks (at last.time os) ip threshold_reason 20 15 later (recorded last s') real
          (ground arith) in
      ensure_of later (fail last s').1 (ltb later (last.time + 3600))
        (ap (λ x. (is_ip_blocked (at later os) (some ip) x).0) (fail_runs last s' real) ∙ blocks)

module _ (os : Platform) {S : Type 0} (redis : Redis S) (settings : Settings)
    (bcrypt : Bcrypt) where
  -- A sign-in that the guard turns away comes to nothing else.
  turned_away :
      (draws : Draws) (c : Credentials) (s : Stores S)
      → (ensure_ip_allowed os c.ip_address s.db).0 ≡ err (http 403 blocked_detail)
      → let (r, s') = login_with_password os redis settings bcrypt draws c s in
        (r ≡ err (http 403 blocked_detail))
        × (s'.db.committed ≡ s.db.committed)
        × (s'.redis ≡ s.redis)
  unfolding login_with_password
  turned_away draws c s refused =
      let email : String = os.lower c.email in
      let last : Option User → Auth S LoginResult =
        λ user. decide os redis settings draws c email user (password_fits bcrypt c.secret user) in
      let asserted : Option User → Auth S LoginResult =
        λ found. on_db (assert_not_locked os found) >>= last in
      let looked_up : Auth S LoginResult = on_db (get_user_by_email os email) >>= asserted in
      let limited : Auth S LoginResult =
        check_login_rate_limit os redis settings (if c.admin_only then "admin" else "user")
          (email <> ":" <> or_unknown c.ip_address)
        >> looked_up in
      let run =
        bind_fail (on_db (ensure_ip_allowed os c.ip_address)) (λ _. limited) s
          (http 403 blocked_detail) refused in
      (
        ap (λ p. p.0) run,
        ap (λ p. p.1.db.committed) run ∙ ensure_committed os c.ip_address s.db,
        ap (λ p. p.1.redis) run,
      )

module _ (os : Platform) (ip : String) {S : Type 0} (redis : Redis S) (settings : Settings)
    (bcrypt : Bcrypt) where
  -- Once twenty failed sign-ins from an address have been recorded, the last of them at a time `t` and the
  -- others at most fifteen minutes before it, every later sign-in with a password from that address is
  -- refused with 403, whatever the credentials, until an hour has passed since `t`; it commits nothing and
  -- does not count in Redis. From then on the guard lets the address through. It does not matter which
  -- accounts were tried, why the sign-ins failed, or what the tables held before. The address is not empty.
  pub fail-login_with_password :
      (fs : List Failure) (last : Failure) (later : ℕ) (s : DbSession) (draws : Draws)
      (c : Credentials) (stores : Stores S)
      → truthy (some ip) ≡ true
      → All (λ (f : Failure). last.time - 900 ≤ f.time) fs
      → 19 ≤ length fs
      → let d = (fail os ip last (after os ip fs s)).1 in
        let (r, s') =
          login_with_password
            (at later os)
            redis
            settings
            bcrypt
            draws
            (record c { ip_address = some ip })
            (record stores { db = d }) in
        ((later < last.time + 3600)
          × (r ≡ err (http 403 blocked_detail))
          × (s'.db.committed ≡ d.committed)
          × (s'.redis ≡ stores.redis))
        ⊎ ((last.time + 3600 ≤ later) × ((ensure_ip_allowed (at later os) (some ip) d).0 ≡ ok tt))
  fail-login_with_password fs last later s draws c stores real recent many =
      let d : DbSession = (fail os ip last (after os ip fs s)).1 in
      let guard = allowed_again os ip fs last later s real recent many in
      elim (Bool-cases (ltb later (last.time + 3600))) [
        | inl early ↦
            let (refused, same, uncounted) =
              turned_away (at later os) redis settings bcrypt draws
                (record c { ip_address = some ip }) (record stores { db = d })
                (rw (early) at guard) in
            inl (ground arith, refused, same, uncounted)
        | inr over ↦ inr (ground arith, rw (over) at guard)
      ]
