-- ===== src/Security/IpBlocking.antt =====
-- app/modules/security/ip_blocking.py. `flush` is always true in the program.
use ratinglift_backend_core.Common.{
  ⊤, ℕ, String, Bool, true, false, not, ◌+◌, Option, none, some, List, [], ◌∷◌, ◌++◌, map, ltb, leb,
  ◌==◌, str_eq, or_text, truthy, if◌then◌else◌, first, save, delete_row,
}
use ratinglift_backend_core.Exec.{http, ok, pure, raise_if, ◌>>=◌, ◌>>◌}
use ratinglift_backend_core.Platform.{Platform}
use ratinglift_backend_core.Models.{IpBlocklist, DbSession, Db}
use ratinglift_backend_core.Security.LoginTracking.{recent_failures_for_ip}

abbrev pub default_failure_threshold : ℕ
default_failure_threshold = 20

abbrev pub block_duration_seconds : ℕ
block_duration_seconds = 3600

abbrev pub blocked_detail : String
blocked_detail =
    "Your IP address has been temporarily blocked due to repeated failed sign-in attempts. Please wait and try again later, or contact support if you believe this is a mistake."

abbrev pub has_ip : String → IpBlocklist → Bool
has_ip ip row = str_eq row.ip_address ip

abbrev pub with_blocklist : (List IpBlocklist → List IpBlocklist) → DbSession → DbSession
with_blocklist f s = record s {
  current = record s.current { ip_blocklist = f s.current.ip_blocklist };
}

abbrev pub block_id : IpBlocklist → ℕ
block_id row = row.id

abbrev pub max : ℕ → ℕ → ℕ
max a b = if ltb a b then b else a

module _ (os : Platform) where
  unfoldable pub has_expired : IpBlocklist → Bool
  has_expired row = elim row.expires_at [ none ↦ false | some t ↦ leb t os.now ]

  -- An expired row is deleted on the way.
  unfoldable pub is_ip_blocked : Option String → Db Bool
  is_ip_blocked none s = (ok false, s)
  is_ip_blocked (some ip) s =
      if not (truthy (some ip))
      then (ok false, s)
      else elim (first (has_ip ip) s.current.ip_blocklist) [
        | none ↦ (ok false, s)
        | some row ↦
            if has_expired row
            then (ok false, with_blocklist (delete_row block_id row.id) s)
            else (ok true, s)
      ]

  unfoldable pub ensure_ip_allowed : Option String → Db ⊤
  ensure_ip_allowed ip = do blocked ← is_ip_blocked ip; raise_if blocked (http 403 blocked_detail)

  -- the end of a block of so many seconds; 0 is no end
  unfoldable pub expiry : ℕ → Option ℕ
  expiry duration_seconds = if duration_seconds == 0 then none else some (os.now + duration_seconds)

  unfoldable pub extended : Option String → ℕ → ℕ → IpBlocklist → IpBlocklist
  extended reason failed_attempts duration_seconds row = record row {
    reason = or_text reason row.reason;
    failed_attempts = max row.failed_attempts failed_attempts;
    blocked_at = os.now;
    expires_at = expiry duration_seconds;
  }

  unfoldable pub new_block : String → Option String → ℕ → ℕ → List IpBlocklist → IpBlocklist
  new_block ip reason failed_attempts duration_seconds rows = record {
    id = os.new_uuid (map block_id rows);
    ip_address = ip;
    reason = reason;
    failed_attempts = failed_attempts;
    blocked_at = os.now;
    expires_at = expiry duration_seconds;
  }

  unfoldable pub block_ip : String → Option String → ℕ → ℕ → Db IpBlocklist
  block_ip ip reason failed_attempts duration_seconds s =
      elim (first (has_ip ip) s.current.ip_blocklist) [
        | some old ↦
            let row = extended reason failed_attempts duration_seconds old in
            (ok row, with_blocklist (save block_id row) s)
        | none ↦
            let row = new_block ip reason failed_attempts duration_seconds s.current.ip_blocklist in
            (ok row, with_blocklist (λ rows. rows ++ row ∷ []) s)
      ]

  unfoldable pub unblock_ip : String → Db Bool
  unblock_ip ip s = elim (first (has_ip ip) s.current.ip_blocklist) [
    | none ↦ (ok false, s)
    | some row ↦ (ok true, with_blocklist (delete_row block_id row.id) s)
  ]

  unfoldable pub register_failed_attempt_for_ip : Option String → ℕ → ℕ → String → Db Bool
  register_failed_attempt_for_ip none threshold window_minutes reason = pure false
  register_failed_attempt_for_ip (some ip) threshold window_minutes reason =
      if not (truthy (some ip)) then pure false else do
        failures ← recent_failures_for_ip os ip window_minutes
        if ltb failures threshold
            then pure false
            else do block_ip ip (some reason) failures block_duration_seconds; pure true
