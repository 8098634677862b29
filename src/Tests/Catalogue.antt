-- ===== src/Tests/Catalogue.antt =====
-- The theorems on the catalogue, at a world with one source and a storage that is a list of keys.
use ratinglift_backend_core.Common.{
  ℕ, String, true, false, not, ◌≡◌, ◌≢◌, ◌⊎◌, refl, none, some, List, [], ◌∷◌, ◌++◌, map, ◌<>◌,
  str_eq, first, select, is_some, save,
}
use ratinglift_backend_core.Exec.{Error, ok, err, http, integrity_error}
use ratinglift_backend_core.Models.{User, super_admin, Connector, DbSession}
use ratinglift_backend_core.Audit.Admin.{RequestState}
use ratinglift_backend_core.Admin.LocalFiles.{
  Paths, Files, url_for_local, url_for_s3, key_from_url_local, key_from_url_s3, drop_slashes,
}
use ratinglift_backend_core.Admin.Addresses.{key_from_url-url_for}
use ratinglift_backend_core.Admin.Storage.{Storage, KeyTexts}
use ratinglift_backend_core.Admin.Catalog.{
  Wording, attachments, attached_detail, connector_id_of, name_index, name_clash, logo_clash,
  missing_ids, joined, rows_of, create_connector, get_connector_or_404,
  get_connector_including_deleted_or_404, soft_delete_connector, restore_connector,
  reorder_connectors,
}
use ratinglift_backend_core.Admin.Logos.{Images}
use ratinglift_backend_core.Admin.Routes.{deactivate, may_administrate, as_items, guarded}
use ratinglift_backend_core.Admin.Accounted.{IsLogged}
use ratinglift_backend_core.Admin.Audited.{guarded_lem}
use ratinglift_backend_core.Admin.Reorder.{placed, reorder_connectors_lem}
use ratinglift_backend_core.Admin.Names.{is_taken, create_connector_lem}
use ratinglift_backend_core.Admin.Deletion.{
  deleted, brought_back, soft_delete_connector-restore_connector,
}
use ratinglift_backend_core.Tests.Texts.{show_bars}
use ratinglift_backend_core.Tests.World.{os, laws, db, google, session}
use ratinglift_backend_core.Tests.Logins.{anna}

abbrev wording : Wording
wording = record { precedes = λ a b. true; decimal = show_bars }

abbrev keys : KeyTexts
keys = record {
  ascii_only = λ s. s;
  dashed = λ s. s;
  strip_dashes = λ s. s;
  prefix = λ n s. s;
  after_dot = λ s. none;
}

abbrev images : Images String
images = record {
  size = λ b. 1;
  sha256 = λ b. b;
  looks_like_xml = λ b. true;
  has_svg_tag = λ b. true;
  opened = λ b. none;
  suffix = λ n. "svg";
  is_safe_name = λ n. true;
  only_safe = λ s. s;
  ends_with = str_eq;
  max_bytes = 9;
  max_pixels = 0;
}

abbrev without : String → List String → List String
without key files = select (λ k. not (str_eq k key)) files

-- the keys of the files
abbrev storage : Storage String (List String)
storage = record {
  save = λ key bytes kind files. (ok ("/media/" <> key), key ∷ files);
  delete = without;
  exists = λ key files. is_some (first (str_eq key) files);
  move = λ src dst files. dst ∷ without src files;
  list_prefix = λ prefix files. files;
  url_for = λ key. "/media/" <> key;
  key_from_url = λ url. url;
}

abbrev root : User
root = record anna { role = super_admin; is_admin = true }

abbrev request : RequestState
request = record { ip_address = none; user_agent = none; request_path = none }

guarded_lem_example :
    let (r, s') =
      guarded os wording keys images storage root request
        (deactivate 4)
        (record { db = record { committed = db; current = db }; files = [] }) in
    ((may_administrate root.role ≡ false)
      × (r ≡ err (http 403 "Insufficient role"))
      × (s'.db.committed ≡ db))
    ⊎ ((may_administrate root.role ≡ true)
        × (((e : Error) × (r ≡ err e) × (s'.db.committed ≡ db))
            ⊎ ((rows : List Connector) × (r ≡ ok rows)
                × ((s'.db.committed ≡ db) ⊎ IsLogged os request root.id rows db s'.db.committed))))
guarded_lem_example = guarded_lem os wording keys images storage root request (deactivate 4) db []

reorder_connectors_lem_example :
    let items : List (ℕ × ℕ) = (4, 3) ∷ (4, 7) ∷ [] in
    let (r, s') = reorder_connectors os (as_items items) session in
    let missing = missing_ids os (as_items items) session.current.connectors in
    ((missing ≢ [])
      × (r ≡ err (http 404 ("Connector(s) not found: " <> joined os missing)))
      × (s' ≡ session))
    ⊎ ((missing ≡ [])
        × (r ≡ ok (rows_of os (as_items items) s'.current.connectors))
        × (s' ≡ record session {
          current = record session.current {
            connectors = map (placed items) session.current.connectors;
          };
        }))
reorder_connectors_lem_example = reorder_connectors_lem os ((4, 3) ∷ (4, 7) ∷ []) session

create_connector_lem_example :
    let (r, s') = create_connector os "google" none session in
    let rows = session.current.connectors in
    ((is_taken os "google" rows ≡ true)
      × (r ≡ err (http 409 "A connector with this name already exists"))
      × (s' ≡ session))
    ⊎ ((is_taken os "google" rows ≡ false)
        × (is_taken os "google" rows ≡ true)
        × (r ≡ err (integrity_error name_index))
        × (s' ≡ session))
    ⊎ ((is_taken os "google" rows ≡ false)
        × (is_taken os "google" rows ≡ false)
        × (row : Connector) × (r ≡ ok row)
        × (row.name ≡ "google")
        × (s' ≡ record session {
          current = record session.current { connectors = rows ++ row ∷ [] };
        }))
create_connector_lem_example = create_connector_lem os laws "google" none session

-- a session without the binding
abbrev unbound : DbSession
unbound = record session { current = record db { property_connectors = [] } }

alone :
    (name_clash os google unbound.current.connectors ≡ false)
    × (logo_clash os google unbound.current.connectors ≡ false)
unfolding name_clash logo_clash first
alone = (refl, refl)

soft_delete_connector-restore_connector_example :
    let (r, s') = soft_delete_connector os wording google unbound in
    ((attachments 4 unbound.current.property_connectors ≢ 0)
      × (r
          ≡ err (
              http 409
                (attached_detail wording (attachments 4 unbound.current.property_connectors))))
      × (s' ≡ unbound))
    ⊎ ((attachments 4 unbound.current.property_connectors ≡ 0)
        × (r ≡ ok (deleted os google))
        × ((get_connector_or_404 os 4 s').0 ≡ err (http 404 "Connector not found"))
        × ((get_connector_including_deleted_or_404 os 4 s').0 ≡ ok (deleted os google))
        × (restore_connector os (deleted os google) s' ≡ (
          ok (brought_back google),
          record unbound {
            current = record unbound.current {
              connectors = save connector_id_of (brought_back google) unbound.current.connectors;
            };
          },
        )))
unfolding first
soft_delete_connector-restore_connector_example =
    soft_delete_connector-restore_connector os wording google unbound refl refl refl alone.0 alone.1

key_from_url-url_for_example :
    (key_from_url_local "/uploads" (some (url_for_local "/uploads" "/logos/google.png"))
      ≡ some (drop_slashes "/logos/google.png"))
    × (key_from_url_s3 "https://files.example" "media"
          (some (url_for_s3 "https://files.example" "media" "/logos/google.png"))
        ≡ some (drop_slashes "/logos/google.png"))
key_from_url-url_for_example =
    key_from_url-url_for "/uploads" "https://files.example" "media" "/logos/google.png"

abbrev paths : Paths
paths = record {
  clean = drop_slashes;
  has_parent = str_eq "../secret";
  resolve = λ key. some key;
  escape_text = λ key. "not in the subpath";
  globs = str_eq;
  has_slash = λ s. false;
}

abbrev files : Files String
files = ("old.png", "old") ∷ ("new.png", "new") ∷ []
