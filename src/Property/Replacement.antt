-- ===== src/Property/Replacement.antt =====
-- A new version of a row that a tenant owns: that it fits, and that the tenant finds it once it is
-- saved (app/modules/property/service.py).
use ratinglift_backend_core.Common.{
  Bool, false, ◌&&◌, ◌≡◌, sym, ap, ◌∙◌, some, List, [], ◌∷◌, arith, ◌==◌, is_some, Bool-cases, inl,
  inr, All, first, save, first-All, first-none, first-save, first-select, All-map,
}
use ratinglift_backend_core.Exec.{ok}
use ratinglift_backend_core.Platform.{Platform}
use ratinglift_backend_core.Models.{Property, Database, DbSession}
use ratinglift_backend_core.Audit.{id}
use ratinglift_backend_core.Tenancy.Context.{RequestContext, filter_by_tenant}
use ratinglift_backend_core.Property.Service.{
  clash, place_taken, flush_changed, get_property_by_id, coerce_uuid,
}
use ratinglift_backend_core.Property.Lookup.{IsOwned}
use ratinglift_backend_core.Property.Invariant.{id_of, IsValid, HasUniquePlaces, Fits, clash_comm}

clash_same :
    (y prop row : Property)
    → row.tenant_id ≡ prop.tenant_id
    → row.google_place_id ≡ prop.google_place_id
    → clash y row ≡ clash y prop
clash_same y prop row et ep = rw (et, ep)

Fits-of_clash : (row y : Property) → clash y row ≡ false → Fits row y
Fits-of_clash row y e = ground arith

Fits-of_id : (row y : Property) → y.id ≡ row.id → Fits row y
Fits-of_id row y e = ground arith

-- In a well-formed table, a new version of a row that keeps its tenant and place fits.
Fits-all :
    (q : Property → Bool) (prop row : Property) (rows : List Property)
    → HasUniquePlaces rows
    → first q rows ≡ some prop
    → row.id ≡ prop.id
    → row.tenant_id ≡ prop.tenant_id
    → row.google_place_id ≡ prop.google_place_id
    → All (Fits row) rows
unfolding first
Fits-all q prop row [] u e ei et ep = absurd (cc e)
Fits-all q prop row (x ∷ xs) (c, u) e ei et ep = elim (Bool-cases (q x)) [
  | inl here ↦
      let same : x ≡ prop = ground arith in
      (
        Fits-of_id row x (ap id_of same ∙ sym ei),
        All-map
            (λ y h. Fits-of_clash row y (
              clash_same y prop row et ep ∙ clash_comm y prop ∙ ap (λ z. clash z y) (sym same) ∙ h))
            xs c,
      )
  | inr later ↦
      let found : first q xs ≡ some prop = ground arith in
      (
        Fits-of_clash row x
            (clash_same x prop row et ep ∙ first-All (λ y. clash x y ≡ false) q xs prop found c),
        Fits-all q prop row xs u found ei et ep,
      )
]

pub place_free :
    (q : Property → Bool) (prop row : Property) (rows : List Property)
    → HasUniquePlaces rows
    → first q rows ≡ some prop
    → row.id ≡ prop.id
    → row.tenant_id ≡ prop.tenant_id
    → row.google_place_id ≡ prop.google_place_id
    → place_taken row rows ≡ false
unfolding place_taken
place_free q prop row rows u e ei et ep =
    ap is_some (first-none _ rows (Fits-all q prop row rows u e ei et ep))

module _ (os : Platform) (ctx : RequestContext) where
  -- the owner's query for a row
  abbrev pub is_row : Property → Property → Bool
  is_row prop r = (r.tenant_id == prop.tenant_id) && (r.id == prop.id)

  -- An owned row is found.
  pub get_owned :
      (prop : Property) (s : DbSession)
      → IsOwned os ctx s.current prop
      → get_property_by_id os ctx (id prop.id) s ≡ (ok prop, s)
  unfolding get_property_by_id filter_by_tenant coerce_uuid
  get_owned prop s owned =
      let e =
        first-select (λ (r : Property). r.id == prop.id)
          (λ (r : Property). r.tenant_id == prop.tenant_id) s.current.properties
        ∙ owned.found in
      ground (arith, owned.from_context, owned.parsed, e)

  -- Once it is saved, a new version of an owned row is owned.
  pub save-IsOwned :
      (prop row : Property) (d : Database)
      → IsValid d
      → IsOwned os ctx d prop
      → row.id ≡ prop.id
      → row.tenant_id ≡ prop.tenant_id
      → IsOwned os ctx (record d { properties = save id_of row d.properties }) row
  save-IsOwned prop row d v owned ei et = record {
    tenant_text = owned.tenant_text;
    from_context = owned.from_context;
    parsed = owned.parsed ∙ ap some (sym et);
    found =
        first-save id_of (is_row prop) (is_row row) row prop d.properties v.unique_ids owned.found
          ei (ground arith) (λ y h. ground arith);
  }

  -- The flush of a new version that fits: the row is stored, and nothing else changes.
  flush_changed_free :
      (row : Property) (s : DbSession)
      → place_taken row s.current.properties ≡ false
      → flush_changed row s ≡ (
        ok tt,
        record s {
          current = record s.current { properties = save id_of row s.current.properties };
        },
      )
  unfolding flush_changed
  flush_changed_free row s free = rw free

  pub IsOwned-of_rows :
      (prop : Property) (d d' : Database)
      → d'.properties ≡ d.properties
      → IsOwned os ctx d prop
      → IsOwned os ctx d' prop
  IsOwned-of_rows prop d d' e owned = record {
    tenant_text = owned.tenant_text;
    from_context = owned.from_context;
    parsed = owned.parsed;
    found = ap (first (is_row prop)) e ∙ owned.found;
  }
