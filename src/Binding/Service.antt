-- ===== src/Binding/Service.antt =====
-- The operations of app/modules/property_connector/service.py.
use ratinglift_backend_core.Common.{
  ℕ, String, Bool, true, false, not, ◌&&◌, ◌||◌, Option, none, some, List, map, ◌==◌, if◌then◌else◌,
  first,
}
use ratinglift_backend_core.Exec.{http, pure, gets, lift, or_raise, raise_if, ◌>>=◌, ◌>>◌}
use ratinglift_backend_core.Platform.{Platform}
use ratinglift_backend_core.Values.{Value, value_eq}
use ratinglift_backend_core.Models.{Property, Connector, PropertyConnector, Db}
use ratinglift_backend_core.Audit.{UuidLike}
use ratinglift_backend_core.Tenancy.Context.{RequestContext, filter_by_tenant}
use ratinglift_backend_core.Property.Service.{coerce_uuid}
use ratinglift_backend_core.Binding.Rows.{
  Cipher, ActivateConnector, UpdateConnector, Annotated, ConnectorCredentials, annotate, snapshot,
  same_pair, flush_binding, save_binding, renewed, is_available, is_empty_update, rotates,
  apply_update, plaintext, inactive_detail, credentials,
}

module _ (os : Platform) where
  unfoldable pub get_owned_property : RequestContext → UuidLike → Db Property
  get_owned_property ctx property_id = do
    pid ← lift (coerce_uuid os "Invalid property id" property_id)
    rows ← gets (λ s. s.current.properties)
    mine ← lift (filter_by_tenant os (λ (r : Property). r.tenant_id) ctx.tenant_id rows)
    or_raise (first (λ (r : Property). r.id == pid) mine) (http 404 "Property not found")

  unfoldable pub get_active_connector : ℕ → Db Connector
  get_active_connector connector_id = do
    rows ← gets (λ s. s.current.connectors)
    connector ←
        or_raise (first (λ (c : Connector). (c.id == connector_id) && not c.is_deleted) rows)
          (http 404 "Connector not found")
    raise_if (not connector.is_active) (http 400 "Connector is not active")
    pure connector

  -- the row that a first activation adds
  unfoldable pub new_binding :
      String → ActivateConnector → Property → Connector → List PropertyConnector → PropertyConnector
  new_binding secret payload prop connector rows = record {
    id = os.new_uuid (map (λ (r : PropertyConnector). r.id) rows);
    property_id = prop.id;
    connector_id = connector.id;
    api_key = payload.api_key;
    api_secret = some secret;
    scopes = payload.scopes;
    config = payload.config;
    base_url = payload.base_url;
    is_active = true;
    created_at = os.now;
  }

  -- `activate_connector`, once it is known whether the property has a binding to the connector
  unfoldable pub bind :
      String
      → ActivateConnector
      → Property
      → Connector
      → Option PropertyConnector
      → Db (Annotated × Option Value × Value)
  bind secret payload prop connector (some existing) = do
    raise_if existing.is_active (http 409 "Connector is already active for this property")
    let row = renewed secret payload existing
    save_binding row
    pure (annotate row (some connector), some (snapshot os existing), snapshot os row)
  bind secret payload prop connector none = do
    rows ← gets (λ s. s.current.property_connectors)
    let row = new_binding secret payload prop connector rows
    flush_binding row
    pure (annotate row (some connector), none, snapshot os row)

  unfoldable pub activate_connector :
      Cipher → RequestContext → UuidLike → ActivateConnector → Db (Annotated × Option Value × Value)
  activate_connector cipher ctx property_id payload = do
    prop ← get_owned_property ctx property_id
    connector ← get_active_connector payload.connector_id
    existing ← gets (λ s. first (same_pair prop.id connector.id) s.current.property_connectors)
    bind (cipher.encrypt payload.api_secret) payload prop connector existing

  -- `_get_owned_property_connector`: the binding, outer-joined with its connector
  unfoldable pub get_owned_property_connector :
      RequestContext → UuidLike → UuidLike → Db (PropertyConnector × Option Connector)
  get_owned_property_connector ctx property_id property_connector_id = do
    prop ← get_owned_property ctx property_id
    pc_id ← lift (coerce_uuid os "Invalid property_connector id" property_connector_id)
    rows ← gets (λ s. s.current.property_connectors)
    connectors ← gets (λ s. s.current.connectors)
    pc ←
        or_raise
          (first (λ (r : PropertyConnector). (r.id == pc_id) && (r.property_id == prop.id)) rows)
          (http 404 "Property connector not found")
    pure (pc, first (λ (c : Connector). c.id == pc.connector_id) connectors)

  unfoldable pub deactivate_connector :
      RequestContext → UuidLike → UuidLike → Db (Annotated × Value × Value × Bool)
  deactivate_connector ctx property_id property_connector_id = do
    (pc, connector) ← get_owned_property_connector ctx property_id property_connector_id
    if not pc.is_active
        then pure (annotate pc connector, snapshot os pc, snapshot os pc, false)
        else do
          let row : PropertyConnector = record pc { is_active = false }
          save_binding row
          pure (annotate row connector, snapshot os pc, snapshot os row, true)

  unfoldable pub reactivate_connector :
      RequestContext → UuidLike → UuidLike → Db (Annotated × Value × Value × Bool)
  reactivate_connector ctx property_id property_connector_id = do
    (pc, connector) ← get_owned_property_connector ctx property_id property_connector_id
    if pc.is_active then pure (annotate pc connector, snapshot os pc, snapshot os pc, false) else do
      raise_if (not (is_available connector)) (http 400 "Connector is no longer available")
      let row : PropertyConnector = record pc { is_active = true }
      save_binding row
      pure (annotate row connector, snapshot os pc, snapshot os row, true)

  unfoldable pub update_connector :
      Cipher
      → RequestContext
      → UuidLike
      → UuidLike
      → UpdateConnector
      → Db (Annotated × Value × Value × Bool)
  update_connector cipher ctx property_id property_connector_id payload = do
    (pc, connector) ← get_owned_property_connector ctx property_id property_connector_id
    raise_if (is_empty_update payload) (http 400 "No fields provided to update")
    let row = apply_update cipher payload pc
    save_binding row
    let changed = rotates payload.api_secret || not (value_eq (snapshot os pc) (snapshot os row))
    pure (annotate row connector, snapshot os pc, snapshot os row, changed)

  unfoldable pub get_credentials : Cipher → UuidLike → Db ConnectorCredentials
  get_credentials cipher property_connector_id = do
    pc_id ← lift (coerce_uuid os "Invalid property_connector id" property_connector_id)
    rows ← gets (λ s. s.current.property_connectors)
    properties ← gets (λ s. s.current.properties)
    connectors ← gets (λ s. s.current.connectors)
    pc ←
        or_raise (first (λ (r : PropertyConnector). (r.id == pc_id) && r.is_active) rows)
          (http 404 inactive_detail)
    prop ←
        or_raise (first (λ (p : Property). p.id == pc.property_id) properties)
          (http 404 inactive_detail)
    secret ← lift (plaintext cipher pc.api_secret)
    pure
        (credentials pc prop (first (λ (c : Connector). c.id == pc.connector_id) connectors) secret)
