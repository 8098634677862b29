-- ===== src/Admin/Catalog.antt =====
-- app/modules/admin/connectors/service.py without the upload of logos. The table has the partial
-- unique indexes of alembic/versions/008_connectors_finalize.py. The collation of names and the
-- decimal notation are a record.
use ratinglift_backend_core.Common.{
  ⊤, ℕ, String, Bool, true, false, not, ◌&&◌, ◌||◌, Option, none, some, List, [], ◌∷◌, ◌++◌, map,
  length, take, drop, sort_by, ltb, ◌==◌, ◌<>◌, str_eq, opt_eq, is_some, truthy, if◌then◌else◌,
  first, select, count, save,
}
use ratinglift_backend_core.Exec.{
  http, integrity_error, ok, err, pure, gets, raise_if, or_raise, ◌>>=◌, ◌>>◌,
}
use ratinglift_backend_core.Platform.{Platform}
use ratinglift_backend_core.Values.{Value, bool, int, str, dict, field, end, opt_str}
use ratinglift_backend_core.Models.{Connector, PropertyConnector, Db}
use ratinglift_backend_core.Property.Listing.{ℤ, pos, negsuc, has_flag}

pub record Wording : Type 0 where
  -- whether a name comes before another, and `str(n)`
  pub precedes : String → String → Bool
  pub decimal : ℕ → String

abbrev pub connector_id_of : Connector → ℕ
connector_id_of c = c.id

abbrev pub is_alive : Connector → Bool
is_alive c = not c.is_deleted

abbrev pub excludes : Option ℕ → Connector → Bool
excludes none c = true
excludes (some id) c = not (c.id == id)

abbrev pub name_index : String
name_index = "connectors_name_lower_uniq"

abbrev pub logo_index : String
logo_index = "connectors_logo_sha256_uniq"

abbrev pub order_detail : String
order_detail = "display_order must be ≥ 0"

-- `display_order`, if it is not negative
abbrev pub natural : ℤ → Option ℕ
natural (pos n) = some n
natural (negsuc n) = none

unfoldable pub attached_detail : Wording → ℕ → String
attached_detail w n =
    "Cannot delete connector: it is attached to "
    <> w.decimal n
    <> " propert"
    <> (if n == 1 then "y" else "ies")
    <> ". Detach it from all properties before deleting."

-- the properties that have the connector attached
unfoldable pub attachments : ℕ → List PropertyConnector → ℕ
attachments id rows = count (λ (b : PropertyConnector). b.connector_id == id) rows

module _ (os : Platform) where
  unfoldable pub snapshot : Connector → Value
  snapshot c = dict (
      field "id" (str (os.show_uuid c.id)) (
        field "name" (str c.name) (
          field "logo_url" (opt_str c.logo_url) (
            field "logo_sha256" (opt_str c.logo_sha256) (
              field "is_active" (bool c.is_active) (
                field "is_deleted" (bool c.is_deleted) (
                  field "deleted_at"
                    (opt_str (elim c.deleted_at [ none ↦ none | some t ↦ some (os.isoformat t) ]))
                    (field "display_order" (int c.display_order) end))))))))

  abbrev pub has_name : String → Connector → Bool
  has_name name c = str_eq (os.lower c.name) (os.lower name)

  -- a row that the index on the lower-case name, or on the image, sets against `row`
  unfoldable pub name_clash : Connector → List Connector → Bool
  name_clash row rows =
      is_alive row
      && is_some (
          first (λ (c : Connector). is_alive c && (has_name row.name c && excludes (some row.id) c))
            rows)

  abbrev pub has_image : Option String → Connector → Bool
  has_image none c = false
  has_image (some digest) c = opt_eq str_eq c.logo_sha256 (some digest)

  unfoldable pub logo_clash : Connector → List Connector → Bool
  logo_clash row rows =
      is_alive row
      && is_some (
          first
            (λ (c : Connector).
              is_alive c && (has_image row.logo_sha256 c && excludes (some row.id) c))
            rows)

  -- `db.flush()` of a row that is new or changed
  unfoldable pub flush_with : (Connector → List Connector → List Connector) → Connector → Db ⊤
  flush_with put row s =
      if name_clash row s.current.connectors
      then (err (integrity_error name_index), s)
      else if logo_clash row s.current.connectors
      then (err (integrity_error logo_index), s)
      else (
        ok tt,
        record s { current = record s.current { connectors = put row s.current.connectors } },
      )

  abbrev pub add_row : Connector → List Connector → List Connector
  add_row row rows = rows ++ row ∷ []

  abbrev pub flush_new : Connector → Db ⊤
  flush_new row = flush_with add_row row

  abbrev pub flush_changed : Connector → Db ⊤
  flush_changed row = flush_with (save connector_id_of) row

  unfoldable pub list_connectors : Wording → Option Bool → Bool → ℕ → ℕ → Db (List Connector × ℕ)
  list_connectors w is_active include_deleted limit offset s =
      let found =
        select
          (λ (c : Connector). (include_deleted || is_alive c) && has_flag is_active c.is_active)
          s.current.connectors in
      let before : Connector → Connector → Bool = λ a b.
        ltb a.display_order b.display_order
        || ((a.display_order == b.display_order) && w.precedes a.name b.name) in
      (ok (take limit (drop offset (sort_by before found)), length found), s)

  unfoldable pub get_connector_or_404 : ℕ → Db Connector
  get_connector_or_404 id = do
    rows ← gets (λ s. s.current.connectors)
    or_raise (first (λ (c : Connector). is_alive c && (c.id == id)) rows)
        (http 404 "Connector not found")

  unfoldable pub get_connector_including_deleted_or_404 : ℕ → Db Connector
  get_connector_including_deleted_or_404 id = do
    rows ← gets (λ s. s.current.connectors)
    or_raise (first (λ (c : Connector). c.id == id) rows) (http 404 "Connector not found")

  unfoldable pub assert_unique_name : String → Option ℕ → Db ⊤
  assert_unique_name name exclude s =
      raise_if
        (is_some (
          first (λ (c : Connector). is_alive c && (has_name name c && excludes exclude c))
            s.current.connectors))
        (http 409 "A connector with this name already exists") s

  unfoldable pub assert_unique_logo_hash : String → Option ℕ → Db ⊤
  assert_unique_logo_hash digest exclude s =
      raise_if
        (is_some (
          first (λ (c : Connector). is_alive c && (has_image (some digest) c && excludes exclude c))
            s.current.connectors))
        (http 409 "This image is already used by another connector") s

  unfoldable pub new_connector : String → Option String → List Connector → Connector
  new_connector name logo_url rows = record {
    id = os.new_uuid (map connector_id_of rows);
    name = os.strip name;
    logo_url = logo_url;
    logo_sha256 = none;
    is_active = true;
    is_deleted = false;
    deleted_at = none;
    display_order = 0;
    created_at = os.now;
  }

  unfoldable pub create_connector : String → Option String → Db Connector
  create_connector name logo_url = do
    assert_unique_name name none
    row ← gets (λ s. new_connector name logo_url s.current.connectors)
    flush_new row
    pure row

  unfoldable pub soft_delete_connector : Wording → Connector → Db Connector
  soft_delete_connector w connector = if connector.is_deleted then pure connector else do
    attached ← gets (λ s. attachments connector.id s.current.property_connectors)
    raise_if (not (attached == 0)) (http 409 (attached_detail w attached))
    let row : Connector = record connector {
      is_deleted = true;
      deleted_at = some os.now;
      is_active = false;
    }
    flush_changed row
    pure row

  abbrev assert_image_free : Connector → Db ⊤
  assert_image_free connector = elim connector.logo_sha256 [
    | none ↦ pure tt
    | some digest ↦
        if truthy (some digest) then assert_unique_logo_hash digest (some connector.id) else pure tt
  ]

  unfoldable pub restore_connector : Connector → Db Connector
  restore_connector connector = do
    raise_if (not connector.is_deleted) (http 409 "Connector is not deleted")
    assert_unique_name connector.name (some connector.id)
    assert_image_free connector
    let row : Connector = record connector { is_deleted = false; deleted_at = none }
    flush_changed row
    pure row

  -- one item of `reorder_connectors`: the row of the id takes the order
  unfoldable pub put_order : ℕ → ℕ → List Connector → List Connector
  put_order id order [] = []
  put_order id order (c ∷ rows) =
      (if c.id == id then record c { display_order = order } else c) ∷ put_order id order rows

  unfoldable pub put_orders : List (ℕ × ℤ) → Db ⊤
  put_orders [] = pure tt
  put_orders ((id, order) ∷ items) = do
    n ← or_raise (natural order) (http 400 order_detail)
    λ s. (
      ok tt,
      record s { current = record s.current { connectors = put_order id n s.current.connectors } },
    )
    put_orders items

  -- `', '.join(…)` of the ids that no live row has
  unfoldable pub missing_ids : List (ℕ × ℤ) → List Connector → List ℕ
  missing_ids [] rows = []
  missing_ids ((id, order) ∷ items) rows =
      if is_some (first (λ (c : Connector). is_alive c && (c.id == id)) rows)
      then missing_ids items rows
      else id ∷ missing_ids items rows

  unfoldable pub joined : List ℕ → String
  joined [] = ""
  joined (id ∷ ids) = elim ids [
    | [] ↦ os.show_uuid id
    | ◌∷◌ _ _ ↦ os.show_uuid id <> ", " <> joined ids
  ]

  unfoldable pub rows_of : List (ℕ × ℤ) → List Connector → List Connector
  rows_of [] rows = []
  rows_of ((id, order) ∷ items) rows = elim (first (λ (c : Connector). c.id == id) rows) [
    | none ↦ rows_of items rows
    | some c ↦ c ∷ rows_of items rows
  ]

  unfoldable pub reorder_connectors : List (ℕ × ℤ) → Db (List Connector)
  reorder_connectors items = do
    missing ← gets (λ s. missing_ids items s.current.connectors)
    raise_if (ltb 0 (length missing)) (http 404 ("Connector(s) not found: " <> joined missing))
    put_orders items
    gets (λ s. rows_of items s.current.connectors)
