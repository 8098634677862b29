-- ===== src/Binding/Rows.antt =====
-- The data of app/modules/property_connector: the payloads of app/modules/property_connector/schemas.py,
-- the cipher of app/core/crypto.py, what app/modules/property_connector/service.py does to one row,
-- and the flushes with the constraint `uq_property_connectors_property_connector` of
-- app/db/models/property_connector.py. Its foreign keys cannot fail here, since both rows were read
-- in the same transaction.
use ratinglift_backend_core.Common.{
  ⊤, ℕ, String, Bool, true, false, not, ◌&&◌, Option, none, some, List, [], ◌∷◌, ◌++◌, ◌==◌,
  is_some, truthy, if◌then◌else◌, first, save, ◌≡◌,
}
use ratinglift_backend_core.Exec.{Result, ok, err, http, integrity_error}
use ratinglift_backend_core.Platform.{Platform}
use ratinglift_backend_core.Values.{
  Value, bool, str, dict, field, end, opt_str, opt_texts, opt_value,
}
use ratinglift_backend_core.Models.{Property, Connector, PropertyConnector, Db}
use ratinglift_backend_core.Property.Service.{Field, unset, given, keep_if_null, replace}

-- The Fernet cipher under the configured key; a tampered text has no plaintext.
pub record Cipher : Type 0 where
  pub encrypt : String → String
  pub decrypt : String → Option String

pub record CipherLaws (c : Cipher) : Type 0 where
  pub decrypt-encrypt : (s : String) → c.decrypt (c.encrypt s) ≡ some s
  pub encrypt-truthy : (s : String) → truthy (some (c.encrypt s)) ≡ true

pub record ActivateConnector : Type 0 where
  pub connector_id : ℕ
  pub api_key : String
  pub api_secret : String
  pub scopes : Option (List String)
  pub config : Option Value
  pub base_url : Option String

pub record UpdateConnector : Type 0 where
  pub api_key : Field String
  pub api_secret : Field String
  pub scopes : Field (List String)
  pub config : Field Value
  pub base_url : Field String

-- a binding with the name and logo of its connector
pub record Annotated : Type 0 where
  pub binding : PropertyConnector
  pub connector_name : Option String
  pub connector_logo_url : Option String

pub record ConnectorCredentials : Type 0 where
  pub property_connector_id : ℕ
  pub property_id : ℕ
  pub tenant_id : ℕ
  pub connector_id : ℕ
  pub connector_name : Option String
  pub api_key : String
  pub api_secret : Option String
  pub scopes : Option (List String)
  pub config : Option Value
  pub base_url : Option String
  pub is_active : Bool

unfoldable pub annotate : PropertyConnector → Option Connector → Annotated
annotate pc none = record { binding = pc; connector_name = none; connector_logo_url = none }
annotate pc (some c) = record {
  binding = pc;
  connector_name = some c.name;
  connector_logo_url = c.logo_url;
}

-- `_snapshot`: no credentials
unfoldable pub snapshot : Platform → PropertyConnector → Value
snapshot os pc = dict (
    field "id" (str (os.show_uuid pc.id)) (
      field "property_id" (str (os.show_uuid pc.property_id)) (
        field "connector_id" (str (os.show_uuid pc.connector_id)) (
          field "is_active" (bool pc.is_active) (
            field "scopes" (opt_texts pc.scopes) (
              field "config" (opt_value pc.config)
                (field "base_url" (opt_str pc.base_url) end)))))))

abbrev pub same_pair : ℕ → ℕ → PropertyConnector → Bool
same_pair p c r = (r.property_id == p) && (r.connector_id == c)

-- the flush of a new binding
unfoldable pub flush_binding : PropertyConnector → Db ⊤
flush_binding row s =
    if is_some (first (same_pair row.property_id row.connector_id) s.current.property_connectors)
    then (err (integrity_error "uq_property_connectors_property_connector"), s)
    else (
      ok tt,
      record s {
        current = record s.current {
          property_connectors = s.current.property_connectors ++ row ∷ [];
        };
      },
    )

-- the flush of a changed binding; its property and connector never change
unfoldable pub save_binding : PropertyConnector → Db ⊤
save_binding row s = (
  ok tt,
  record s {
    current = record s.current {
      property_connectors =
          save (λ (r : PropertyConnector). r.id) row s.current.property_connectors;
    };
  },
)

-- the row of an earlier activation, with new credentials
unfoldable pub renewed : String → ActivateConnector → PropertyConnector → PropertyConnector
renewed secret payload existing = record existing {
  api_key = payload.api_key;
  api_secret = some secret;
  scopes = payload.scopes;
  config = payload.config;
  base_url = payload.base_url;
  is_active = true;
}

abbrev pub is_available : Option Connector → Bool
is_available none = false
is_available (some c) = c.is_active && not c.is_deleted

abbrev is_unset : {A : Type 0} → Field A → Bool
is_unset unset = true
is_unset (given v) = false

unfoldable pub is_empty_update : UpdateConnector → Bool
is_empty_update u =
    is_unset u.api_key
    && is_unset u.api_secret
    && is_unset u.scopes
    && is_unset u.config
    && is_unset u.base_url

abbrev new_secret : Cipher → Field String → Option String → Option String
new_secret cipher (given (some s)) old = some (cipher.encrypt s)
new_secret cipher _ old = old

abbrev pub rotates : Field String → Bool
rotates (given (some s)) = true
rotates _ = false

unfoldable pub apply_update : Cipher → UpdateConnector → PropertyConnector → PropertyConnector
apply_update cipher u pc = record pc {
  api_key = keep_if_null u.api_key pc.api_key;
  api_secret = new_secret cipher u.api_secret pc.api_secret;
  scopes = replace u.scopes pc.scopes;
  config = replace u.config pc.config;
  base_url = replace u.base_url pc.base_url;
}

-- the plaintext of the stored secret, if there is one
unfoldable pub plaintext : Cipher → Option String → Result (Option String)
plaintext cipher none = ok none
plaintext cipher (some secret) =
    if truthy (some secret)
    then elim (cipher.decrypt secret) [
      | none ↦ err (http 500 "Stored connector secret cannot be decrypted")
      | some s ↦ ok (some s)
    ]
    else ok none

abbrev pub inactive_detail : String
inactive_detail = "Property connector not found or inactive"

-- the `ConnectorCredentials(…)` of a binding
unfoldable pub credentials :
    PropertyConnector → Property → Option Connector → Option String → ConnectorCredentials
credentials pc prop connector secret = record {
  property_connector_id = pc.id;
  property_id = prop.id;
  tenant_id = prop.tenant_id;
  connector_id = pc.connector_id;
  connector_name = elim connector [ none ↦ none | some c ↦ some c.name ];
  api_key = pc.api_key;
  api_secret = secret;
  scopes = pc.scopes;
  config = pc.config;
  base_url = pc.base_url;
  is_active = pc.is_active;
}
