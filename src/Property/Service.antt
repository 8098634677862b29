-- ===== src/Property/Service.antt =====
-- app/modules/property/service.py: create, read, update, deactivate and activate a property. The index `ux_properties_tenant_place` and the foreign key to `tenants` are those of
-- app/db/models/property.py.
use ratinglift_backend_core.Common.{
  ⊤, ℕ, String, Bool, true, false, not, ◌&&◌, Option, none, some, List, [], ◌∷◌, ◌++◌, map, str_eq,
  is_some, ◌==◌, if◌then◌else◌, first, save,
}
use ratinglift_backend_core.Exec.{
  Result, ok, err, http, integrity_error, pure, gets, lift, or_raise, raise_if, ◌>>=◌, ◌>>◌,
}
use ratinglift_backend_core.Platform.{Platform}
use ratinglift_backend_core.Values.{Value, bool, str, dict, field, end, opt_str}
use ratinglift_backend_core.Models.{Tenant, Property, Db}
use ratinglift_backend_core.Audit.{UuidLike, id, text}
use ratinglift_backend_core.Tenancy.Context.{RequestContext, text_of, filter_by_tenant}

pub record PropertyCreate : Type 0 where
  pub name : String
  pub google_place_id : Option String
  pub google_maps_url : Option String

-- A field of a partial update: left out of the request, or given (possibly as null).
pub data Field (A : Type 0) : Type 0 where
  unset : Field A
  given : Option A → Field A

pub record PropertyUpdate : Type 0 where
  pub name : Field String
  pub google_place_id : Field String
  pub google_maps_url : Field String
  pub is_active : Field Bool

abbrev pub duplicate_place_id_detail : String
duplicate_place_id_detail = "A property with this google_place_id already exists for this tenant"

abbrev pub place_constraint : String
place_constraint = "ux_properties_tenant_place"

-- Two rows that the unique index keeps apart: null place ids never clash.
abbrev pub same_place : Option String → Option String → Bool
same_place none b = false
same_place (some a) none = false
same_place (some a) (some b) = str_eq a b

abbrev pub clash : Property → Property → Bool
clash a b = (a.tenant_id == b.tenant_id) && same_place a.google_place_id b.google_place_id

unfoldable pub place_taken : Property → List Property → Bool
place_taken row rows = is_some (first (λ (r : Property). not (r.id == row.id) && clash r row) rows)

unfoldable pub tenant_known : ℕ → List Tenant → Bool
tenant_known t rows = is_some (first (λ (r : Tenant). r.id == t) rows)

-- `db.add(row)` and `db.flush()` for a new row
unfoldable pub flush_new : Property → Db ⊤
flush_new row s =
    if place_taken row s.current.properties
    then (err (integrity_error place_constraint), s)
    else if tenant_known row.tenant_id s.current.tenants
    then (
      ok tt,
      record s { current = record s.current { properties = s.current.properties ++ row ∷ [] } },
    )
    else (err (integrity_error "properties_tenant_id_fkey"), s)

-- `db.flush()` after a change to a row that is there
unfoldable pub flush_changed : Property → Db ⊤
flush_changed row s =
    if place_taken row s.current.properties then (err (integrity_error place_constraint), s) else (
      ok tt,
      record s {
        current = record s.current {
          properties = save (λ (r : Property). r.id) row s.current.properties;
        };
      },
    )

abbrev pub conflict : Result ⊤ → Db ⊤
conflict (err (integrity_error name)) s = (
  err (
      if str_eq name place_constraint
      then http 409 duplicate_place_id_detail
      else integrity_error name),
  record s { current = s.committed },
)
conflict r s = (r, s)

-- `_flush_or_conflict`: a violated constraint rolls the session back.
unfoldable pub flush_or_conflict : Db ⊤ → Db ⊤
flush_or_conflict flush s = let (r, s') = flush s in conflict r s'

unfoldable pub snapshot : Platform → Property → Value
snapshot os prop = dict (
    field "id" (str (os.show_uuid prop.id)) (
      field "tenant_id" (str (os.show_uuid prop.tenant_id)) (
        field "name" (str prop.name) (
          field "google_place_id" (opt_str prop.google_place_id) (
            field "google_maps_url" (opt_str prop.google_maps_url)
              (field "is_active" (bool prop.is_active) end))))))

abbrev valid_or : String → Option ℕ → Result ℕ
valid_or detail none = err (http 400 detail)
valid_or detail (some u) = ok u

-- `_coerce_uuid`, with the detail of its 400
unfoldable pub coerce_uuid : Platform → String → UuidLike → Result ℕ
coerce_uuid os detail (id u) = ok u
coerce_uuid os detail (text s) = valid_or detail (os.parse_uuid s)

abbrev ids : List Property → List ℕ
ids = map (λ (r : Property). r.id)

-- a field that null does not clear
abbrev pub keep_if_null : {A : Type 0} → Field A → A → A
keep_if_null unset old = old
keep_if_null (given none) old = old
keep_if_null (given (some a)) old = a

-- a field that null clears
abbrev pub replace : {A : Type 0} → Field A → Option A → Option A
replace unset old = old
replace (given v) old = v

abbrev pub is_unset : {A : Type 0} → Field A → Bool
is_unset unset = true
is_unset (given v) = false

-- `payload.model_dump(exclude_unset=True)` is empty
unfoldable pub is_empty_update : PropertyUpdate → Bool
is_empty_update u =
    is_unset u.name
    && is_unset u.google_place_id
    && is_unset u.google_maps_url
    && is_unset u.is_active

unfoldable pub apply_update : PropertyUpdate → Property → Property
apply_update u prop = record prop {
  name = keep_if_null u.name prop.name;
  google_place_id = replace u.google_place_id prop.google_place_id;
  google_maps_url = replace u.google_maps_url prop.google_maps_url;
  is_active = keep_if_null u.is_active prop.is_active;
}

module _ (os : Platform) where
  -- the `Property(…)` of a create request
  unfoldable pub new_property : ℕ → PropertyCreate → List Property → Property
  new_property tenant payload rows = record {
    id = os.new_uuid (ids rows);
    tenant_id = tenant;
    name = payload.name;
    google_place_id = payload.google_place_id;
    google_maps_url = payload.google_maps_url;
    is_active = true;
    created_at = os.now;
  }

  unfoldable pub create_property : RequestContext → PropertyCreate → Db Property
  create_property ctx payload = do
    tenant ← lift (coerce_uuid os "Invalid property id" (text (text_of ctx.tenant_id)))
    rows ← gets (λ s. s.current.properties)
    let prop = new_property tenant payload rows
    flush_or_conflict (flush_new prop)
    pure prop

  unfoldable pub get_property_by_id : RequestContext → UuidLike → Db Property
  get_property_by_id ctx property_id = do
    pid ← lift (coerce_uuid os "Invalid property id" property_id)
    rows ← gets (λ s. s.current.properties)
    mine ← lift (filter_by_tenant os (λ (r : Property). r.tenant_id) ctx.tenant_id rows)
    or_raise (first (λ (r : Property). r.id == pid) mine) (http 404 "Property not found")

  -- `update_property`, once the row is found
  unfoldable pub update_found : PropertyUpdate → Property → Db (Property × Value × Value)
  update_found payload prop = do
    raise_if (is_empty_update payload) (http 400 "No fields provided to update")
    let prop' = apply_update payload prop
    flush_or_conflict (flush_changed prop')
    pure (prop', snapshot os prop, snapshot os prop')

  unfoldable pub update_property :
      RequestContext → UuidLike → PropertyUpdate → Db (Property × Value × Value)
  update_property ctx property_id payload = do
    prop ← get_property_by_id ctx property_id
    update_found payload prop

  -- The flag `is_active` is set to `target`; the last component tells whether it changed.
  unfoldable pub set_active : Bool → Property → Db (Property × Value × Value × Bool)
  set_active target prop = do
    let prop' : Property = record prop { is_active = target }
    flush_changed prop'
    pure (prop', snapshot os prop, snapshot os prop', true)

  unfoldable pub unchanged : Property → Db (Property × Value × Value × Bool)
  unchanged prop = pure (prop, snapshot os prop, snapshot os prop, false)

  unfoldable pub deactivate_property :
      RequestContext → UuidLike → Db (Property × Value × Value × Bool)
  unfolding set_active unchanged
  deactivate_property ctx property_id = do
    prop ← get_property_by_id ctx property_id
    if not prop.is_active then unchanged prop else set_active false prop

  unfoldable pub activate_property :
      RequestContext → UuidLike → Db (Property × Value × Value × Bool)
  unfolding set_active unchanged
  activate_property ctx property_id = do
    prop ← get_property_by_id ctx property_id
    if prop.is_active then unchanged prop else set_active true prop
