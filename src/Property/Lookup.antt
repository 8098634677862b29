-- ===== src/Property/Lookup.antt =====
-- `get_property_by_id` of app/modules/property/service.py: what it finds, and that it only reads.
use ratinglift_backend_core.Common.{
  ℕ, String, true, ◌&&◌, ◌≡◌, inl, inr, some, arith, ◌==◌, Option-cases, first, select,
  first-select, first_sound, first-All, select_sound, sym, ap, ◌∙◌, ==_iff,
}
use mathlib.Core.Path.{subst₂}
use ratinglift_backend_core.Exec.{ok, Result-cases}
use ratinglift_backend_core.Platform.{Platform}
use ratinglift_backend_core.Models.{Property, Database, DbSession}
use ratinglift_backend_core.Audit.{UuidLike}
use ratinglift_backend_core.Tenancy.Context.{RequestContext, filter_by_tenant}
use ratinglift_backend_core.Property.Service.{coerce_uuid, get_property_by_id}

-- `prop` is the row with the given identifier among the rows of the tenant of `ctx`.
pub record IsOwned (os : Platform) (ctx : RequestContext) (d : Database) (prop : Property)
    : Type 0 where
  pub tenant_text : String
  pub from_context : ctx.tenant_id ≡ some tenant_text
  pub parsed : os.parse_uuid tenant_text ≡ some prop.tenant_id
  pub found :
      first (λ (r : Property). (r.tenant_id == prop.tenant_id) && (r.id == prop.id)) d.properties
      ≡ some prop

row_found :
    (os : Platform) (ctx : RequestContext) (d : Database) (t : String) (w u : ℕ) (prop : Property)
    → ctx.tenant_id ≡ some t
    → os.parse_uuid t ≡ some w
    → first (λ (r : Property). r.id == u) (select (λ (r : Property). r.tenant_id == w) d.properties)
      ≡ some prop
    → IsOwned os ctx d prop × (u ≡ prop.id)
row_found os ctx d t w u prop et ew e =
    let is_u : u ≡ prop.id = sym ((==_iff prop.id u).0 (first_sound _ _ prop e)) in
    let in_tenant : w ≡ prop.tenant_id = sym (
      (==_iff prop.tenant_id w).0 (
        first-All (λ (r : Property). (r.tenant_id == w) ≡ true) _ _ prop e
          (select_sound _ d.properties))) in
    (
      record {
        tenant_text = t;
        from_context = et;
        parsed = ew ∙ ap some in_tenant;
        found =
            subst₂
              (λ a b.
                first (λ (r : Property). (r.tenant_id == a) && (r.id == b)) d.properties
                ≡ some prop)
              in_tenant is_u (sym (first-select _ _ d.properties) ∙ e);
      },
      is_u,
    )

module _ (os : Platform) (ctx : RequestContext) (property_id : UuidLike) (s : DbSession) where
  -- It only reads.
  pub get_property_by_id_state : (get_property_by_id os ctx property_id s).1 ≡ s
  unfolding get_property_by_id filter_by_tenant
  get_property_by_id_state = ground arith

  pub get_property_by_id-IsOwned :
      (prop : Property)
      → (get_property_by_id os ctx property_id s).0 ≡ ok prop
      → IsOwned os ctx s.current prop
        × (coerce_uuid os "Invalid property id" property_id ≡ ok prop.id)
  unfolding get_property_by_id filter_by_tenant
  get_property_by_id-IsOwned prop h =
      elim (Result-cases (coerce_uuid os "Invalid property id" property_id)) [
        | inl (e, bad) ↦ absurd (ground arith)
        | inr (u, good) ↦ elim (Option-cases ctx.tenant_id) [
          | inl missing ↦ absurd (ground arith)
          | inr (t, et) ↦ elim (Option-cases (os.parse_uuid t)) [
            | inl garbled ↦ absurd (ground arith)
            | inr (w, ew) ↦
                let (owned, is_u) = row_found os ctx s.current t w u prop et ew (ground arith) in
                (owned, good ∙ ap ok is_u)
          ]
        ]
      ]
