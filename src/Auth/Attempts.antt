-- ===== src/Auth/Attempts.antt =====
-- `AuthService._record_audit_login_attempt` of app/modules/auth/service.py. The user comes in as
-- its identifier, which is all that the code reads of it.
use ratinglift_backend_core.Common.{
  ⊤, ℕ, String, Bool, not, ◌&&◌, Option, none, some, truthy, is_some, if◌then◌else◌,
}
use ratinglift_backend_core.Exec.{pure, ◌>>◌}
use ratinglift_backend_core.Platform.{Platform}
use ratinglift_backend_core.Values.{null, bool, str, dict, field, end, opt_str}
use ratinglift_backend_core.Models.{Db}
use ratinglift_backend_core.Audit.{UuidLike, id, word, Entry, log_action}
use ratinglift_backend_core.Security.LoginTracking.{record_login_attempt}
use ratinglift_backend_core.Security.IpBlocking.{
  default_failure_threshold, register_failed_attempt_for_ip,
}

abbrev pub user_ref : Option ℕ → Option UuidLike
user_ref none = none
user_ref (some u) = some (id u)

abbrev pub window_minutes : ℕ
window_minutes = 15

abbrev pub threshold_reason : String
threshold_reason = "failed_login_threshold_exceeded"

-- the row of the general audit log
unfoldable pub login_entry : String → Bool → Option String → Option ℕ → Option String → Entry
login_entry email success ip_address user reason = record {
  actor_id = user_ref user;
  actor_type = some (word (if is_some user then "user" else "system"));
  action = if success then "login_success" else "login_failure";
  entity = "auth";
  entity_id = user_ref user;
  before_value = null;
  after_value = dict (
      field "email" (str email)
        (field "success" (bool success) (field "reason" (opt_str reason) end)));
  ip_address = ip_address;
  request_ip = none;
}

module _ (os : Platform) where
  unfoldable pub record_audit_login_attempt :
      String → Bool → Option String → Option ℕ → Option String → Option String → Db ⊤
  record_audit_login_attempt email success ip_address user reason user_agent = do
    record_login_attempt os (some email) ip_address success reason user_agent
    log_action os (login_entry email success ip_address user reason)
    if not success && truthy ip_address
        then register_failed_attempt_for_ip os ip_address default_failure_threshold window_minutes
            threshold_reason
          >> pure tt
        else pure tt
