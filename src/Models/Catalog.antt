-- ===== src/Models/Catalog.antt =====
-- app/db/models/property.py, connector.py and property_connector.py.
use ratinglift_backend_core.Common.{ℕ, String, Bool, Option, List}
use ratinglift_backend_core.Values.{Value}

pub record Property : Type 0 where
  pub id : ℕ
  pub tenant_id : ℕ
  pub name : String
  pub google_place_id : Option String
  pub google_maps_url : Option String
  pub is_active : Bool
  pub created_at : ℕ

pub record Connector : Type 0 where
  pub id : ℕ
  pub name : String
  pub logo_url : Option String
  pub logo_sha256 : Option String
  pub is_active : Bool
  pub is_deleted : Bool
  pub deleted_at : Option ℕ
  pub display_order : ℕ
  pub created_at : ℕ

pub record PropertyConnector : Type 0 where
  pub id : ℕ
  pub property_id : ℕ
  pub connector_id : ℕ
  pub api_key : String
  pub api_secret : Option String
  pub scopes : Option (List String)
  pub config : Option Value
  pub base_url : Option String
  pub is_active : Bool
  pub created_at : ℕ
