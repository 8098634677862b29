-- ===== src/Tests/World.antt =====
-- The platform, tokens, cipher and database of the tests.
use ratinglift_backend_core.Common.{
  ℕ, suc, ◌+◌, ◌<◌, ◌≡◌, ◌≢◌, refl, String, Bool, true, false, Option, none, some, List, [], ◌∷◌,
  arith, str_eq, All, first,
}
use ratinglift_backend_core.Platform.{Platform, PlatformLaws}
use ratinglift_backend_core.Models.{
  Tenant, Property, Connector, PropertyConnector, Database, DbSession, growth, active,
}
use ratinglift_backend_core.Tenancy.Context.{RequestContext}
use ratinglift_backend_core.Binding.Rows.{Cipher, CipherLaws}
use ratinglift_backend_core.Property.Invariant.{IsValid}
use ratinglift_backend_core.Property.Lookup.{IsOwned}
use ratinglift_backend_core.Property.Service.{tenant_known}
use ratinglift_backend_core.Tests.Texts.{
  show_bars, read_bars, seal, unseal, unseal-seal, seal-truthy,
}

abbrev sum : List ℕ → ℕ
sum [] = 0
sum (u ∷ us) = u + sum us

above_sum : (us : List ℕ) (k : ℕ) → sum us < k → All (λ u. u ≢ k) us
above_sum [] k h = tt
above_sum (u ∷ us) k h = (λ e. omega arith, above_sum us k (omega arith))

abbrev pub os : Platform
os = record {
  parse_uuid = read_bars;
  show_uuid = show_bars;
  new_uuid = λ us. suc (sum us);
  now = 5000;
  isoformat = show_bars;
  ilike = str_eq;
  strip = λ s. s;
  lower = λ s. s;
}

pub laws : PlatformLaws os
laws = record { new_uuid_fresh = λ us. above_sum us (suc (sum us)) (omega arith) }

abbrev pub cipher : Cipher
cipher = record { encrypt = seal; decrypt = unseal }

pub cipher_laws : CipherLaws cipher
cipher_laws = record { decrypt-encrypt = unseal-seal; encrypt-truthy = seal-truthy }

abbrev tenant : ℕ → String → Tenant
tenant t name = record { id = t; name = name; plan = growth; status = active; created_at = 1 }

abbrev place : ℕ → ℕ → Option String → Bool → Property
place p t google_place_id is_active = record {
  id = p;
  tenant_id = t;
  name = "a place";
  google_place_id = google_place_id;
  google_maps_url = none;
  is_active = is_active;
  created_at = p;
}

abbrev pub cafe : Property
cafe = place 1 2 (some "cafe") true

abbrev pub kiosk : Property
kiosk = place 3 2 none false

abbrev pub stranger : Property
stranger = place 2 3 (some "cafe") true

abbrev pub google : Connector
google = record {
  id = 4;
  name = "google";
  logo_url = none;
  logo_sha256 = none;
  is_active = true;
  is_deleted = false;
  deleted_at = none;
  display_order = 0;
  created_at = 1;
}

-- a binding that was switched off
abbrev pub bound : PropertyConnector
bound = record {
  id = 7;
  property_id = 1;
  connector_id = 4;
  api_key = "old";
  api_secret = none;
  scopes = none;
  config = none;
  base_url = none;
  is_active = false;
  created_at = 1;
}

abbrev pub db : Database
db = record {
  tenants = tenant 2 "two" ∷ tenant 3 "three" ∷ [];
  users = [];
  login_sessions = [];
  login_attempts = [];
  ip_blocklist = [];
  audit_logs = [];
  admin_action_logs = [];
  properties = cafe ∷ stranger ∷ kiosk ∷ [];
  connectors = google ∷ [];
  property_connectors = bound ∷ [];
}

abbrev pub session : DbSession
session = record { committed = db; current = db }

-- a user of tenant 2
abbrev pub ctx : RequestContext
ctx = record { user_id = "x"; tenant_id = some "xx"; role = some "OWNER"; is_admin = false }

pub db-IsValid : IsValid db
unfolding tenant_known first
db-IsValid = record {
  unique_ids = ground arith;
  unique_places = ground arith;
  known_tenants = ground arith;
}

pub cafe-IsOwned : IsOwned os ctx db cafe
unfolding first read_bars
cafe-IsOwned = record { tenant_text = "xx"; from_context = refl; parsed = refl; found = refl }

pub own_tenant : os.parse_uuid "xx" ≡ some 2
unfolding read_bars
own_tenant = refl

-- Row 2 of the context's tenant is not row 3's.
pub not_three : os.parse_uuid "xx" ≢ some 3
unfolding read_bars
not_three e = ground arith
