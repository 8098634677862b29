-- ===== src/Tests/Attacks.antt =====
-- The theorems on blocked addresses, at twenty failures.
use ratinglift_backend_core.Common.{
  ℕ, ◌+◌, ◌<◌, ◌≤◌, false, ◌≡◌, ◌⊎◌, refl, none, some, List, [], ◌∷◌, ◌++◌, arith, ltb,
}
use ratinglift_backend_core.Exec.{ok, err, http}
use ratinglift_backend_core.Models.{DbSession}
use ratinglift_backend_core.Security.LoginTracking.{failures_of}
use ratinglift_backend_core.Security.IpBlocking.{
  is_ip_blocked, ensure_ip_allowed, blocked_detail, unblock_ip, register_failed_attempt_for_ip,
}
use ratinglift_backend_core.Security.Blocklist.{
  at, HasUniqueIps, register-is_ip_blocked, unblock_ip-ensure_ip_allowed,
}
use ratinglift_backend_core.Auth.BruteForce.{Failure, fail, after, fail-login_with_password}
use ratinglift_backend_core.Auth.Login.{login_with_password}
use ratinglift_backend_core.Tests.World.{os, session}
use ratinglift_backend_core.Tests.Logins.{settings}
use ratinglift_backend_core.Tests.Stores.{redis, bcrypt, ben, stores_of, by, draws}

abbrev guess : ℕ → Failure
guess t = record {
  time = t;
  email = "a@b.c";
  user = none;
  reason = some "invalid_credentials";
  user_agent = none;
}

abbrev five : List Failure
five = guess 4400 ∷ guess 4500 ∷ guess 4600 ∷ guess 4700 ∷ guess 4800 ∷ []

abbrev guesses : List Failure
guesses = five ++ five ++ five ++ five

-- an address that is blocked for good
abbrev blocked : DbSession
blocked = record session {
  current = record session.current {
    ip_blocklist =
        record {
          id = 1;
          ip_address = "1.2.3.4";
          reason = none;
          failed_attempts = 20;
          blocked_at = 1;
          expires_at = none;
        }
        ∷ [];
  };
}

register-is_ip_blocked_example :
    let registered = register_failed_attempt_for_ip os (some "1.2.3.4") 0 15 "reason" session in
    ((failures_of os "1.2.3.4" 15 session < 0) × (registered ≡ (ok false, session)))
    ⊎ ((0 ≤ failures_of os "1.2.3.4" 15 session)
        × ((is_ip_blocked (at 6000 os) (some "1.2.3.4") registered.1).0
            ≡ ok (ltb 6000 (os.now + 3600))))
register-is_ip_blocked_example = register-is_ip_blocked os "1.2.3.4" "reason" 0 15 6000 session refl

unblock_ip-ensure_ip_allowed_example :
    let unblocked = (unblock_ip os "1.2.3.4" blocked).1 in
    (ensure_ip_allowed os (some "1.2.3.4") unblocked ≡ (ok tt, unblocked))
    × HasUniqueIps unblocked.current.ip_blocklist
unblock_ip-ensure_ip_allowed_example = unblock_ip-ensure_ip_allowed os "1.2.3.4" blocked (tt, tt)

-- A minute later a sign-in from the address is refused.
fail-login_with_password_example :
    let d = (fail os "1.2.3.4" (guess 5000) (after os "1.2.3.4" guesses session)).1 in
    let (r, s') =
      login_with_password
        (at 5060 os)
        redis
        settings
        bcrypt
        draws
        (record (by "b@b.c" "secret") { ip_address = some "1.2.3.4" })
        (record (stores_of ben) { db = d }) in
    ((5060 < 5000 + 3600)
      × (r ≡ err (http 403 blocked_detail))
      × (s'.db.committed ≡ d.committed)
      × (s'.redis ≡ (stores_of ben).redis))
    ⊎ ((5000 + 3600 ≤ 5060) × ((ensure_ip_allowed (at 5060 os) (some "1.2.3.4") d).0 ≡ ok tt))
fail-login_with_password_example =
    fail-login_with_password os "1.2.3.4" redis settings bcrypt guesses (guess 5000) 5060 session
      draws (by "b@b.c" "secret") (stores_of ben) refl (ground arith) (omega arith)
