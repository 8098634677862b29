-- ===== src/Security/LoginTracking.antt =====
-- app/modules/security/login_tracking.py. Times are seconds since the epoch.
use ratinglift_backend_core.Common.{
  ℕ, String, Bool, not, ◌&&◌, ◌-◌, ◌*◌, Option, none, some, [], ◌∷◌, ◌++◌, map, leb, str_eq, opt_eq,
  truthy, if◌then◌else◌, count,
}
use ratinglift_backend_core.Exec.{ok}
use ratinglift_backend_core.Platform.{Platform}
use ratinglift_backend_core.Models.{LoginAttempt, DbSession, Db}

abbrev pub failed_for_email : String → ℕ → LoginAttempt → Bool
failed_for_email email from a = str_eq a.email email && (not a.success && leb from a.timestamp)

abbrev pub failed_for_ip : String → ℕ → LoginAttempt → Bool
failed_for_ip ip from a =
    opt_eq str_eq a.ip_address (some ip) && (not a.success && leb from a.timestamp)

module _ (os : Platform) where
  -- `email or ""` in lower case
  unfoldable pub normal_email : Option String → String
  normal_email none = os.lower ""
  normal_email (some e) = os.lower e

  -- The row joins the open transaction, with the database's clock as its time.
  unfoldable pub record_login_attempt :
      Option String → Option String → Bool → Option String → Option String → Db LoginAttempt
  record_login_attempt email ip success reason user_agent s =
      let attempt : LoginAttempt = record {
        id = os.new_uuid (map (λ (a : LoginAttempt). a.id) s.current.login_attempts);
        email = normal_email email;
        ip_address = ip;
        user_agent = user_agent;
        success = success;
        reason = reason;
        timestamp = os.now;
      } in
      (
        ok attempt,
        record s {
          current = record s.current { login_attempts = s.current.login_attempts ++ attempt ∷ [] };
        },
      )

  unfoldable pub since : ℕ → ℕ
  since window_minutes = os.now - window_minutes * 60

  unfoldable pub recent_failures_for_email : Option String → ℕ → Db ℕ
  recent_failures_for_email email window_minutes s = (
    ok (
        count (failed_for_email (normal_email email) (since window_minutes))
          s.current.login_attempts),
    s,
  )

  -- the count alone, where the address is not empty
  unfoldable pub failures_of : String → ℕ → DbSession → ℕ
  failures_of ip window_minutes s =
      count (failed_for_ip ip (since window_minutes)) s.current.login_attempts

  unfoldable pub recent_failures_for_ip : String → ℕ → Db ℕ
  unfolding failures_of
  recent_failures_for_ip ip window_minutes s =
      if truthy (some ip) then (ok (failures_of ip window_minutes s), s) else (ok 0, s)
