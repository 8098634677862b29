-- ===== src/Tests/Secrets.antt =====
-- The theorems on bindings and on the audit log's values, at the sample database.
use ratinglift_backend_core.Common.{true, ◌≡◌, refl, Option, none, some, first}
use ratinglift_backend_core.Exec.{ok, err, http}
use ratinglift_backend_core.Models.{Property, PropertyConnector}
use ratinglift_backend_core.Values.{Value, null, uuid, dict, seq, cons, nil, field, end}
use ratinglift_backend_core.Audit.{id, Entry}
use ratinglift_backend_core.Property.Lookup.{IsOwned}
use ratinglift_backend_core.Binding.Rows.{
  ActivateConnector, Annotated, annotate, renewed, snapshot, save_binding, ConnectorCredentials,
}
use ratinglift_backend_core.Binding.Service.{
  bind, get_owned_property, get_active_connector, activate_connector, get_credentials,
}
use ratinglift_backend_core.Models.{DbSession}
use ratinglift_backend_core.Common.{false, [], ◌∷◌}
use ratinglift_backend_core.Binding.Rows.{inactive_detail}
use ratinglift_backend_core.Binding.Service.{deactivate_connector, get_owned_property_connector}
use ratinglift_backend_core.Binding.Deactivation.{deactivate_connector-get_credentials}
use ratinglift_backend_core.Binding.Credentials.{Delivers, activate_connector-get_credentials}
use ratinglift_backend_core.Tests.Texts.{read_bars}
use ratinglift_backend_core.Property.Service.{coerce_uuid}
use ratinglift_backend_core.Tenancy.Context.{filter_by_tenant}
use ratinglift_backend_core.Common.{select}
use ratinglift_backend_core.Tests.World.{
  os, laws, cipher, cipher_laws, ctx, session, db-IsValid, bound, google,
}

abbrev activation : ActivateConnector
activation = record {
  connector_id = 4;
  api_key = "key";
  api_secret = "secret";
  scopes = none;
  config = none;
  base_url = none;
}

-- The binding that was switched off gets the new credentials.
abbrev row : PropertyConnector
row = renewed (cipher.encrypt "secret") activation bound

abbrev answer : Annotated × Option Value × Value
answer = (annotate row (some google), some (snapshot os bound), snapshot os row)

activates : (activate_connector os cipher ctx (id 1) activation session).0 ≡ ok answer
unfolding activate_connector get_owned_property get_active_connector coerce_uuid filter_by_tenant
    read_bars select first bind save_binding
activates = refl

activate_connector-get_credentials_example :
    let after = (activate_connector os cipher ctx (id 1) activation session).1 in
    (prop : Property) × IsOwned os ctx session.current prop
    × (creds : ConnectorCredentials) × (get_credentials os cipher (id 7) after ≡ (ok creds, after))
    × Delivers activation prop creds
unfolding renewed annotate
activate_connector-get_credentials_example =
    activate_connector-get_credentials os laws cipher cipher_laws ctx (id 1) activation session
      answer db-IsValid.unique_ids (tt, tt) activates

abbrev nested : Value
nested = dict (field "ids" (seq (cons (uuid 2) nil)) end)

abbrev noted : Entry
noted = record {
  actor_id = none;
  actor_type = none;
  action = "connector.update";
  entity = "property_connector";
  entity_id = none;
  before_value = null;
  after_value = nested;
  ip_address = none;
  request_ip = none;
}

-- a session in which the binding is in use
abbrev live : PropertyConnector
live = record bound { is_active = true }

abbrev in_use : DbSession
in_use = record session { current = record session.current { property_connectors = live ∷ [] } }

abbrev off : PropertyConnector
off = record bound { is_active = false }

switches_off :
    (deactivate_connector os ctx (id 1) (id 7) in_use).0
    ≡ ok (annotate off (some google), snapshot os live, snapshot os off, true)
unfolding deactivate_connector get_owned_property_connector get_owned_property coerce_uuid
    filter_by_tenant read_bars select first save_binding
switches_off = refl

deactivate_connector-get_credentials_example :
    let after = (deactivate_connector os ctx (id 1) (id 7) in_use).1 in
    get_credentials os cipher (id 7) after ≡ (err (http 404 inactive_detail), after)
unfolding annotate
deactivate_connector-get_credentials_example =
    deactivate_connector-get_credentials os ctx cipher (id 1) (id 7) in_use _ (tt, tt) switches_off
