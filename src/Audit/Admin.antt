-- ===== src/Audit/Admin.antt =====
-- `log_admin_action` of app/modules/audit/service.py: one row of `admin_action_logs`, mirrored in
-- `audit_logs`. The mirror is always asked for in the program.
use ratinglift_backend_core.Common.{
  ⊤, ℕ, String, Option, none, some, List, [], ◌∷◌, ◌++◌, map, ◌<>◌, truthy, if◌then◌else◌,
}
use ratinglift_backend_core.Exec.{value_error, ok, or_raise, ◌>>=◌, ◌>>◌}
use ratinglift_backend_core.Platform.{Platform}
use ratinglift_backend_core.Values.{Value}
use ratinglift_backend_core.Models.{AdminActionLog, Db}
use ratinglift_backend_core.Audit.{UuidLike, id, word, Entry, coerce_uuid, json_safe, log_action}

-- what the middleware puts on `request.state`
pub record RequestState : Type 0 where
  pub ip_address : Option String
  pub user_agent : Option String
  pub request_path : Option String

pub record AdminEntry : Type 0 where
  pub admin_id : Option UuidLike
  pub action : String
  pub target_entity : Option String
  pub target_id : Option UuidLike
  pub target_tenant_id : Option UuidLike
  pub before_value : Value
  pub after_value : Value
  pub extra : Value

abbrev pub or_admin : Option String → String
or_admin none = "admin"
or_admin (some s) = if truthy (some s) then s else "admin"

module _ (os : Platform) where
  unfoldable pub admin_row : RequestState → AdminEntry → ℕ → List AdminActionLog → AdminActionLog
  admin_row request e admin rows = record {
    id = os.new_uuid (map (λ (r : AdminActionLog). r.id) rows);
    admin_id = admin;
    action = e.action;
    target_entity = e.target_entity;
    target_id = coerce_uuid os e.target_id;
    target_tenant_id = coerce_uuid os e.target_tenant_id;
    before_value = json_safe os e.before_value;
    after_value = json_safe os e.after_value;
    ip_address = request.ip_address;
    user_agent = request.user_agent;
    request_path = request.request_path;
    extra = json_safe os e.extra;
    timestamp = os.now;
  }

  -- the entry for the general log
  unfoldable pub mirror : RequestState → AdminEntry → ℕ → Entry
  mirror request e admin = record {
    actor_id = some (id admin);
    actor_type = some (word "user");
    action = "admin." <> e.action;
    entity = or_admin e.target_entity;
    entity_id = e.target_id;
    before_value = e.before_value;
    after_value = e.after_value;
    ip_address = request.ip_address;
    request_ip = none;
  }

  unfoldable pub log_admin_action : RequestState → AdminEntry → Db ⊤
  log_admin_action request e = do
    admin ←
        or_raise (coerce_uuid os e.admin_id)
          (value_error "log_admin_action requires a valid admin_id (UUID)")
    λ s. (
      ok tt,
      record s {
        current = record s.current {
          admin_action_logs =
              s.current.admin_action_logs
              ++ admin_row request e admin s.current.admin_action_logs ∷ [];
        };
      },
    )
    log_action os (mirror request e admin)
