-- ===== src/Property/Routes.antt =====
-- app/modules/property/routes.py: each endpoint calls the service, writes the audit log and
-- commits. A response carries fields of the returned row.
use ratinglift_backend_core.Common.{ℕ, String, Bool, Option, none, some, if◌then◌else◌}
use ratinglift_backend_core.Exec.{pure, ◌>>=◌, ◌>>◌}
use ratinglift_backend_core.Platform.{Platform}
use ratinglift_backend_core.Values.{Value, null}
use ratinglift_backend_core.Models.{Property, Db, commit}
use ratinglift_backend_core.Audit.{id, text, word, Entry, log_action}
use ratinglift_backend_core.Tenancy.Context.{RequestContext}
use ratinglift_backend_core.Property.Service.{
  PropertyCreate, PropertyUpdate, snapshot, create_property, get_property_by_id, update_property,
  deactivate_property, activate_property,
}

-- The routes of `property_router` that concern one property.
pub data Call : Type 0 where
  create : PropertyCreate → Call
  read : ℕ → Call
  update : ℕ → PropertyUpdate → Call
  deactivate : ℕ → Call
  activate : ℕ → Call

module _ (os : Platform) (ctx : RequestContext) (request_ip : Option String) where
  unfoldable pub property_entry : String → Property → Value → Value → Entry
  property_entry action prop before after = record {
    actor_id = some (text ctx.user_id);
    actor_type = some (word "tenant");
    action = action;
    entity = "property";
    entity_id = some (id prop.id);
    before_value = before;
    after_value = after;
    ip_address = none;
    request_ip = request_ip;
  }

  unfoldable pub log_and_commit : String → Property → Value → Value → Db Property
  log_and_commit action prop before after = do
    log_action os (property_entry action prop before after)
    commit
    pure prop

  unfoldable pub create_property_endpoint : PropertyCreate → Db Property
  create_property_endpoint payload = do
    prop ← create_property os ctx payload
    log_and_commit "property.create" prop null (snapshot os prop)

  unfoldable pub get_property_endpoint : ℕ → Db Property
  get_property_endpoint property_id = get_property_by_id os ctx (id property_id)

  unfoldable pub update_property_endpoint : ℕ → PropertyUpdate → Db Property
  update_property_endpoint property_id payload = do
    (prop, before, after) ← update_property os ctx (id property_id) payload
    log_and_commit "property.update" prop before after

  -- Only a change is logged and committed.
  unfoldable pub finish : String → Property × Value × Value × Bool → Db Property
  finish action (prop, before, after, changed) =
      if changed then log_and_commit action prop before after else pure prop

  unfoldable pub deactivate_property_endpoint : ℕ → Db Property
  unfolding finish
  deactivate_property_endpoint property_id = do
    done ← deactivate_property os ctx (id property_id)
    finish "property.deactivate" done

  unfoldable pub activate_property_endpoint : ℕ → Db Property
  unfolding finish
  activate_property_endpoint property_id = do
    done ← activate_property os ctx (id property_id)
    finish "property.activate" done

  unfoldable pub serve : Call → Db Property
  serve (create payload) = create_property_endpoint payload
  serve (read property_id) = get_property_endpoint property_id
  serve (update property_id payload) = update_property_endpoint property_id payload
  serve (deactivate property_id) = deactivate_property_endpoint property_id
  serve (activate property_id) = activate_property_endpoint property_id
