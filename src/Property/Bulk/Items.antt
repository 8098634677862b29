-- ===== src/Property/Bulk/Items.antt =====
-- What the bulk operations report, item by item.
use ratinglift_backend_core.Common.{
  ℕ, ◌+◌, String, Bool, true, ◌≡◌, refl, sym, ◌∙◌, none, some, List, [], ◌∷◌, ◌++◌, arith,
  Bool-cases, inl, inr, ◌⊎◌,
}
use mathlib.Core.List.{append-nil, append_assoc}
use ratinglift_backend_core.Exec.{Result, ok, err, http}
use ratinglift_backend_core.Platform.{Platform}
use ratinglift_backend_core.Values.{Value}
use ratinglift_backend_core.Models.{Property, DbSession}
use ratinglift_backend_core.Audit.{UuidLike, id, text}
use ratinglift_backend_core.Tenancy.Context.{RequestContext, text_of, filter_by_tenant_found}
use ratinglift_backend_core.Property.Service.{
  PropertyCreate, duplicate_place_id_detail, flush_new, flush_changed, snapshot, coerce_uuid,
  get_property_by_id, deactivate_property, set_active, unchanged, place_taken, tenant_known,
}
use ratinglift_backend_core.Property.Bulk.{
  CreateItem, created, failed, DeactivateItem, done, refused, bulk_property, bulk_create_item,
  bulk_create_from, bulk_create_properties, bulk_deactivate_item,
}

-- What a single deactivation that ends so is reported as in bulk.
abbrev pub reported : Result (Property × Value × Value × Bool) → Result DeactivateItem
reported (ok (prop, before, after, changed)) = ok (done changed prop before after)
reported (err (http code detail)) = ok (refused detail code)
reported (err e) = err e

-- For a tenant with a valid identifier, an item of a bulk deactivation does to the database what a
-- single deactivation of the same property does, and reports its outcome, where a refusal of the
-- single one (400 for an invalid identifier, 404 for an unknown property) is reported and not
-- raised.
pub bulk_deactivate_item-deactivate_property :
    (os : Platform) (ctx : RequestContext) (raw_id : UuidLike) (s : DbSession) {tenant : String}
    {t : ℕ}
    → ctx.tenant_id ≡ some tenant
    → os.parse_uuid tenant ≡ some t
    → let (item, after) = bulk_deactivate_item os ctx raw_id s in
      let (single, after_single) = deactivate_property os ctx raw_id s in
      (item ≡ reported single) × (after ≡ after_single)
unfolding bulk_deactivate_item deactivate_property get_property_by_id set_active unchanged
    flush_changed coerce_uuid
bulk_deactivate_item-deactivate_property os ctx (id u) s et ep =
    let f =
      filter_by_tenant_found os (λ (r : Property). r.tenant_id) ctx.tenant_id s.current.properties
        et ep in
    (ground (arith, f), ground (arith, f))
bulk_deactivate_item-deactivate_property os ctx (text u) s et ep =
    let f =
      filter_by_tenant_found os (λ (r : Property). r.tenant_id) ctx.tenant_id s.current.properties
        et ep in
    (ground (arith, f), ground (arith, f))

-- The outcomes of a bulk creation, item by item: indices in order from `idx`; what is created has
-- the item's name and place and no maps url, and every failure is a 409 or a 400.
abbrev pub Follows : ℕ → List PropertyCreate → List CreateItem → Type 0
Follows idx [] [] = Unit
Follows idx (p ∷ ps) (created i prop after ∷ items) =
    (i ≡ idx)
    × (prop.name ≡ p.name)
    × (prop.google_place_id ≡ p.google_place_id)
    × (prop.google_maps_url ≡ none)
    × (prop.is_active ≡ true)
    × Follows (idx + 1) ps items
Follows idx (p ∷ ps) (failed i detail code ∷ items) =
    (i ≡ idx) × ((code ≡ 409) ⊎ (code ≡ 400)) × Follows (idx + 1) ps items
Follows _ _ _ = ⊥

-- the rows that were created, in order
abbrev pub created_rows : List CreateItem → List Property
created_rows [] = []
created_rows (created i prop after ∷ items) = prop ∷ created_rows items
created_rows (failed i detail code ∷ items) = created_rows items

bulk_item_cases :
    (os : Platform) (t idx : ℕ) (p : PropertyCreate) (s : DbSession)
    → let prop = bulk_property os t p s.current.properties in
      (bulk_create_item os t idx p s ≡ (
        ok (created idx prop (snapshot os prop)),
        record s { current = record s.current { properties = s.current.properties ++ prop ∷ [] } },
      ))
      ⊎ ((detail : String) × (code : ℕ) × ((code ≡ 409) ⊎ (code ≡ 400))
          × (bulk_create_item os t idx p s ≡ (ok (failed idx detail code), s)))
unfolding bulk_create_item flush_new
bulk_item_cases os t idx p s =
    let prop = bulk_property os t p s.current.properties in
    elim (Bool-cases (place_taken prop s.current.properties)) [
      | inl taken ↦ inr (duplicate_place_id_detail, 409, inl refl, ground arith)
      | inr free ↦ elim (Bool-cases (tenant_known prop.tenant_id s.current.tenants)) [
        | inl known ↦ inl (ground arith)
        | inr unknown ↦ inr ("integrity_error", 400, inr refl, ground arith)
      ]
    ]

-- where a bulk creation of `ps` from `s` ends
record Ends (os : Platform) (t idx : ℕ) (ps : List PropertyCreate) (s : DbSession) : Type 0 where
  items : List CreateItem
  final : DbSession
  runs : bulk_create_from os t idx ps s ≡ (ok items, final)
  follows : Follows idx ps items
  rows : final.current.properties ≡ s.current.properties ++ created_rows items
  uncommitted : final.committed ≡ s.committed

bulk_step :
    (os : Platform) (t idx : ℕ) (p : PropertyCreate) (ps : List PropertyCreate)
    (s s₁ s₂ : DbSession) (x : CreateItem) (xs : List CreateItem)
    → bulk_create_item os t idx p s ≡ (ok x, s₁)
    → bulk_create_from os t (idx + 1) ps s₁ ≡ (ok xs, s₂)
    → bulk_create_from os t idx (p ∷ ps) s ≡ (ok (x ∷ xs), s₂)
unfolding bulk_create_from
bulk_step os t idx p ps s s₁ s₂ x xs e e' = ground (arith, e, e')

bulk_create-Ends :
    (os : Platform) (t idx : ℕ) (ps : List PropertyCreate) (s : DbSession) → Ends os t idx ps s
unfolding bulk_create_from bulk_property
bulk_create-Ends os t idx [] s = record {
  items = [];
  final = s;
  runs = refl;
  follows = tt;
  rows = sym (append-nil _);
  uncommitted = refl;
}
bulk_create-Ends os t idx (p ∷ ps) s = elim (bulk_item_cases os t idx p s) [
  | inl step ↦
      let prop = bulk_property os t p s.current.properties in
      let s₁ : DbSession = record s {
        current = record s.current { properties = s.current.properties ++ prop ∷ [] };
      } in
      let rest = bulk_create-Ends os t (idx + 1) ps s₁ in
      record {
        items = created idx prop (snapshot os prop) ∷ rest.items;
        final = rest.final;
        runs = bulk_step os t idx p ps s s₁ rest.final _ rest.items step rest.runs;
        follows = (refl, refl, refl, refl, refl, rest.follows);
        rows = rest.rows ∙ append_assoc s.current.properties (prop ∷ []) (created_rows rest.items);
        uncommitted = rest.uncommitted;
      }
  | inr (detail, code, known, step) ↦
      let rest = bulk_create-Ends os t (idx + 1) ps s in
      record {
        items = failed idx detail code ∷ rest.items;
        final = rest.final;
        runs = bulk_step os t idx p ps s s rest.final _ rest.items step rest.runs;
        follows = (refl, known, rest.follows);
        rows = rest.rows;
        uncommitted = rest.uncommitted;
      }
]

-- For a context whose tenant identifier is valid, a bulk creation never raises: it returns one
-- outcome for each item, in order and with its index; a failed item leaves no trace, and the rows
-- added to the table are exactly those reported as created, in order. What is created has the
-- item's name and place id, is active, and has no maps url, whatever url the item gave.
pub bulk_create_properties_lem :
    (os : Platform) (ctx : RequestContext) (ps : List PropertyCreate) (s : DbSession) {t : ℕ}
    → os.parse_uuid (text_of ctx.tenant_id) ≡ some t
    → (items : List CreateItem) × (final : DbSession) × (bulk_create_properties os ctx ps s
        ≡ (ok items, final))
      × Follows 0 ps items
      × (final.current.properties ≡ s.current.properties ++ created_rows items)
unfolding bulk_create_properties coerce_uuid
bulk_create_properties_lem os ctx ps s {t} e =
    let ends = bulk_create-Ends os t 0 ps s in
    (ends.items, ends.final, ground (arith, e, ends.runs), ends.follows, ends.rows)
