-- ===== src/Property/Bulk.antt =====
-- The bulk operations of app/modules/property/service.py.
pub mod Items
use ratinglift_backend_core.Common.{
  ⊤, ℕ, suc, ◌+◌, String, Bool, true, false, not, ◌≡◌, refl, ap, sym, ◌∙◌, Option, none, some, List,
  [], ◌∷◌, map, arith, ◌==◌, str_eq, if◌then◌else◌, Bool-cases, Option-cases, inl, inr, first, All,
  length,
}
use ratinglift_backend_core.Exec.{
  Result, ok, err, Error, http, integrity_error, data_error, value_error, Exec, pure, gets, lift,
  ◌>>=◌, ◌>>◌, Result-cases,
}
use ratinglift_backend_core.Platform.{Platform}
use ratinglift_backend_core.Values.{Value}
use ratinglift_backend_core.Models.{Property, DbSession, Db}
use ratinglift_backend_core.Audit.{UuidLike, id, text}
use ratinglift_backend_core.Tenancy.Context.{
  RequestContext, text_of, filter_by_tenant, filter_by_tenant_found,
}
use ratinglift_backend_core.Property.Service.{
  PropertyCreate, duplicate_place_id_detail, place_constraint, flush_new, flush_changed, snapshot,
  coerce_uuid, get_property_by_id, deactivate_property, set_active, unchanged, place_taken,
  tenant_known,
}

-- one entry of the list that `bulk_create_properties` returns
pub data CreateItem : Type 0 where
  created : ℕ → Property → Value → CreateItem
  failed : ℕ → String → ℕ → CreateItem

-- one entry of the list that `bulk_deactivate_properties` returns
pub data DeactivateItem : Type 0 where
  done : Bool → Property → Value → Value → DeactivateItem
  refused : String → ℕ → DeactivateItem

module _ (os : Platform) where
  -- the `Property(…)` of one item, which has no maps url
  unfoldable pub bulk_property : ℕ → PropertyCreate → List Property → Property
  bulk_property tenant payload rows = record {
    id = os.new_uuid (map (λ (r : Property). r.id) rows);
    tenant_id = tenant;
    name = payload.name;
    google_place_id = payload.google_place_id;
    google_maps_url = none;
    is_active = true;
    created_at = os.now;
  }

  -- the handler of `IntegrityError`: the session goes back to the savepoint `sp`
  create_result : ℕ → Property → DbSession → Result ⊤ → DbSession → Result CreateItem × DbSession
  create_result idx prop sp (ok u) s = (ok (created idx prop (snapshot os prop)), s)
  create_result idx prop sp (err (integrity_error name)) s = (
    ok (
        if str_eq name place_constraint
        then failed idx duplicate_place_id_detail 409
        else failed idx "integrity_error" 400),
    sp,
  )
  create_result idx prop sp (err e) s = (err e, s)

  unfoldable pub bulk_create_item : ℕ → ℕ → PropertyCreate → Db CreateItem
  unfolding create_result bulk_property
  bulk_create_item tenant idx payload sp =
      let prop = bulk_property tenant payload sp.current.properties in
      let (r, s) = flush_new prop sp in create_result idx prop sp r s

  unfoldable pub bulk_create_from : ℕ → ℕ → List PropertyCreate → Db (List CreateItem)
  bulk_create_from tenant idx [] = pure []
  bulk_create_from tenant idx (payload ∷ payloads) = do
    item ← bulk_create_item tenant idx payload
    items ← bulk_create_from tenant (idx + 1) payloads
    pure (item ∷ items)

  unfoldable pub bulk_create_properties :
      RequestContext → List PropertyCreate → Db (List CreateItem)
  bulk_create_properties ctx payloads = do
    tenant ← lift (coerce_uuid os "Invalid property id" (text (text_of ctx.tenant_id)))
    bulk_create_from tenant 0 payloads

  -- the body of the loop, once the row has been looked up
  deactivate_found : Option Property → Db DeactivateItem
  deactivate_found none = pure (refused "Property not found" 404)
  deactivate_found (some prop) =
      if not prop.is_active
      then pure (done false prop (snapshot os prop) (snapshot os prop))
      else do
        let prop' : Property = record prop { is_active = false }
        flush_changed prop'
        pure (done true prop' (snapshot os prop) (snapshot os prop'))

  abbrev coerced : Result ℕ → (ℕ → Db DeactivateItem) → Db DeactivateItem
  coerced (err (http code detail)) rest = pure (refused detail code)
  coerced (err e) rest = lift (err e)
  coerced (ok pid) rest = rest pid

  unfoldable pub bulk_deactivate_item : RequestContext → UuidLike → Db DeactivateItem
  unfolding deactivate_found
  bulk_deactivate_item ctx raw_id = coerced (coerce_uuid os "Invalid property id" raw_id) λ pid. do
    rows ← gets (λ s. s.current.properties)
    mine ← lift (filter_by_tenant os (λ (r : Property). r.tenant_id) ctx.tenant_id rows)
    deactivate_found (first (λ (r : Property). r.id == pid) mine)

  unfoldable pub bulk_deactivate_properties :
      RequestContext → List UuidLike → Db (List DeactivateItem)
  bulk_deactivate_properties ctx [] = pure []
  bulk_deactivate_properties ctx (raw_id ∷ raw_ids) = do
    item ← bulk_deactivate_item ctx raw_id
    items ← bulk_deactivate_properties ctx raw_ids
    pure (item ∷ items)
