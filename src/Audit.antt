-- ===== src/Audit.antt =====
-- app/modules/audit/service.py: one row of `audit_logs` for each action of a user or the system.
pub mod JsonSafe
pub mod Admin
use ratinglift_backend_core.Common.{
  ⊤, ℕ, String, Bool, true, false, ◌||◌, Option, none, some, List, [], ◌∷◌, ◌++◌, map, str_eq,
  or_else, if◌then◌else◌,
}
use ratinglift_backend_core.Exec.{ok}
use ratinglift_backend_core.Platform.{Platform}
use ratinglift_backend_core.Values.{
  Value, Items, Fields, str, uuid, datetime, seq, dict, nil, cons, end, field,
}
use ratinglift_backend_core.Models.{AuditLog, ActorType, user, system, DbSession, Db}

-- `str | UUID`, as identifiers are handed around
pub data UuidLike : Type 0 where
  id : ℕ → UuidLike
  text : String → UuidLike

-- an `ActorType`, or a free-form word for one
pub data ActorLike : Type 0 where
  actor : ActorType → ActorLike
  word : String → ActorLike

-- the arguments of `log_action`; `request_ip` is `request.state.ip_address` of the request, if given
pub record Entry : Type 0 where
  pub actor_id : Option UuidLike
  pub actor_type : Option ActorLike
  pub action : String
  pub entity : String
  pub entity_id : Option UuidLike
  pub before_value : Value
  pub after_value : Value
  pub ip_address : Option String
  pub request_ip : Option String

module _ (os : Platform) where
  unfoldable pub coerce_uuid : Option UuidLike → Option ℕ
  coerce_uuid none = none
  coerce_uuid (some (id u)) = some u
  coerce_uuid (some (text s)) = os.parse_uuid s

  unfoldable pub coerce_actor_type : Option ActorLike → ActorType
  coerce_actor_type none = system
  coerce_actor_type (some (actor a)) = a
  coerce_actor_type (some (word s)) =
      let w = os.lower (os.strip s) in
      if str_eq w "system" || str_eq w "service" || str_eq w "worker" then system else user

  unfoldable mutual
    -- UUIDs and times become text; the rest is JSON already.
    pub json_safe : Value → Value
    json_safe (uuid u) = str (os.show_uuid u)
    json_safe (datetime t) = str (os.isoformat t)
    json_safe (seq xs) = seq (json_safe_items xs)
    json_safe (dict fs) = dict (json_safe_fields fs)
    json_safe v = v

    pub json_safe_items : Items → Items
    json_safe_items nil = nil
    json_safe_items (cons x xs) = cons (json_safe x) (json_safe_items xs)

    pub json_safe_fields : Fields → Fields
    json_safe_fields end = end
    json_safe_fields (field k v fs) = field k (json_safe v) (json_safe_fields fs)

  unfoldable pub audit_row : Entry → List AuditLog → AuditLog
  unfolding coerce_uuid coerce_actor_type
  audit_row e logs = record {
    id = os.new_uuid (map (λ (r : AuditLog). r.id) logs);
    actor_id = coerce_uuid e.actor_id;
    actor_type = coerce_actor_type e.actor_type;
    action = e.action;
    entity = e.entity;
    entity_id = coerce_uuid e.entity_id;
    before_value = json_safe e.before_value;
    after_value = json_safe e.after_value;
    ip_address = or_else e.ip_address e.request_ip;
    timestamp = os.now;
  }

  -- The row joins the open transaction; committing is the caller's.
  unfoldable pub log_action : Entry → Db ⊤
  log_action e s = (
    ok tt,
    record s {
      current = record s.current {
        audit_logs = s.current.audit_logs ++ audit_row e s.current.audit_logs ∷ [];
      };
    },
  )
