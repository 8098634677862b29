-- ===== src/Tests/Properties.antt =====
-- The theorems on the property routes, at the sample database.
use Prim.Native.Nat.{min}
use ratinglift_backend_core.Common.{
  ℕ, ◌-◌, ◌≤◌, true, false, ◌≡◌, refl, ◌⊎◌, none, some, List, [], ◌∷◌, ◌++◌, All, length, select,
  first, ◌==◌,
}
use ratinglift_backend_core.Exec.{ok, err, http}
use ratinglift_backend_core.Models.{Property, DbSession, with_db}
use ratinglift_backend_core.Tenancy.Context.{filter_by_tenant}
use ratinglift_backend_core.Tests.Texts.{read_bars}
use ratinglift_backend_core.Audit.{id}
use ratinglift_backend_core.Property.Service.{
  PropertyCreate, PropertyUpdate, unset, given, get_property_by_id, create_property, coerce_uuid,
  flush_or_conflict, flush_new, new_property,
}
use ratinglift_backend_core.Property.Lookup.{IsOwned}
use ratinglift_backend_core.Property.Routes.{
  create, update, deactivate, serve, create_property_endpoint, update_property_endpoint,
  deactivate_property_endpoint,
}
use ratinglift_backend_core.Property.Invariant.{IsValid}
use ratinglift_backend_core.Property.Isolation.{rows_of, serve-IsValid, serve-isolated}
use ratinglift_backend_core.Property.Audited.{Accounted, serve-Accounted}
use ratinglift_backend_core.Property.Lifecycle.{
  IsEmpty, IsUpdated, switch, Logged, switch_lem, update_lem,
}
use ratinglift_backend_core.Property.Listing.{
  pos, negsuc, matches, get_properties, get_properties_lem,
}
use ratinglift_backend_core.Property.Bulk.{CreateItem, bulk_create_properties, bulk_deactivate_item}
use ratinglift_backend_core.Property.Bulk.Items.{
  reported, Follows, created_rows, bulk_deactivate_item-deactivate_property,
  bulk_create_properties_lem,
}
use ratinglift_backend_core.Property.Service.{
  place_taken, deactivate_property, duplicate_place_id_detail,
}
use ratinglift_backend_core.Tests.World.{
  os, laws, ctx, db, db-IsValid, cafe, cafe-IsOwned, session, own_tenant, not_three,
}

abbrev bakery : PropertyCreate
bakery = record { name = "bakery"; google_place_id = some "bakery"; google_maps_url = none }

abbrev renaming : PropertyUpdate
renaming = record {
  name = given (some "bar");
  google_place_id = unset;
  google_maps_url = given none;
  is_active = unset;
}

serve-IsValid_example : IsValid (with_db (serve os ctx none (create bakery)) db).1
serve-IsValid_example = serve-IsValid os laws ctx none (create bakery) db db-IsValid

serve-isolated_example : rows_of 3 (with_db (serve os ctx none (deactivate 2)) db).1 ≡ rows_of 3 db
serve-isolated_example = serve-isolated os laws ctx none (deactivate 2) 3 db db-IsValid not_three

serve-Accounted_example :
    Accounted os ctx none "property.update" db (with_db (serve os ctx none (update 1 renaming)) db)
serve-Accounted_example = serve-Accounted os ctx none (update 1 renaming) db

switch_lem_example :
    let (r, d) = switch os ctx none false 1 db in
    (r ≡ ok (record cafe { is_active = false }))
    × IsOwned os ctx d (record cafe { is_active = false })
    × Logged os ctx none false cafe db d
switch_lem_example = switch_lem os ctx none false cafe db db-IsValid cafe-IsOwned

update_lem_example :
    let (r, d) = with_db (update_property_endpoint os ctx none 1 renaming) db in
    (IsEmpty renaming × (r ≡ err (http 400 "No fields provided to update")) × (d ≡ db))
    ⊎ (¬ (IsEmpty renaming)
        × ((row : Property) × IsUpdated renaming cafe row
            × (((place_taken row db.properties ≡ true)
                  × (r ≡ err (http 409 duplicate_place_id_detail))
                  × (d ≡ db))
                ⊎ ((place_taken row db.properties ≡ false) × (r ≡ ok row) × IsOwned os ctx d row))))
update_lem_example = update_lem os ctx none renaming cafe db db-IsValid cafe-IsOwned

get_properties_lem_example :
    (rows : List Property) × (total : ℕ) × (get_properties os ctx
        (some true)
        none
        (pos 10)
        (negsuc 0)
        session
      ≡ (ok (rows, total), session))
    × All (λ (r : Property). (r.tenant_id ≡ 2) × (matches os (some true) none r ≡ true)) rows
    × (total
        ≡ length (
            select
              (matches os (some true) none)
              (select (λ (r : Property). r.tenant_id == 2) session.current.properties)))
    × (length rows ≡ min 10 (total - 0))
    × (length rows ≤ 500)
get_properties_lem_example =
    get_properties_lem os ctx (some true) none (pos 10) (negsuc 0) session refl own_tenant

bulk_deactivate_item-deactivate_property_example :
    let (item, after) = bulk_deactivate_item os ctx (id 2) session in
    let (single, after_single) = deactivate_property os ctx (id 2) session in
    (item ≡ reported single) × (after ≡ after_single)
bulk_deactivate_item-deactivate_property_example =
    bulk_deactivate_item-deactivate_property os ctx (id 2) session refl own_tenant

bulk_create_properties_lem_example :
    (items : List CreateItem) × (final : DbSession) × (bulk_create_properties os ctx
        (bakery ∷ bakery ∷ [])
        session
      ≡ (ok items, final))
    × Follows 0 (bakery ∷ bakery ∷ []) items
    × (final.current.properties ≡ session.current.properties ++ created_rows items)
bulk_create_properties_lem_example =
    bulk_create_properties_lem os ctx (bakery ∷ bakery ∷ []) session own_tenant

-- A second property of the tenant with the same place id is refused, and nothing is stored.
same_place_refused :
    let again : PropertyCreate = record {
      name = "again";
      google_place_id = some "cafe";
      google_maps_url = none;
    } in
    with_db (serve os ctx none (create again)) db ≡ (err (http 409 duplicate_place_id_detail), db)
unfolding with_db serve create_property_endpoint create_property coerce_uuid read_bars
    flush_or_conflict flush_new place_taken first new_property
same_place_refused = refl

-- The property of another tenant is not found.
stranger_not_found :
    with_db (serve os ctx none (deactivate 2)) db ≡ (err (http 404 "Property not found"), db)
unfolding with_db serve deactivate_property_endpoint deactivate_property get_property_by_id
    coerce_uuid filter_by_tenant read_bars select first
stranger_not_found = refl
