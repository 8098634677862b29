-- ===== src/Property/Listing.antt =====
-- The searches of app/modules/property/service.py: `get_properties`, `admin_search_properties` and
-- `admin_list_tenant_properties`, with their filters and pages.
use Prim.Native.Nat.{min, max}
use ratinglift_backend_core.Common.{
  ℕ, zero, suc, ◌-◌, ◌≤◌, String, Bool, true, false, ◌&&◌, ◌||◌, ◌≡◌, refl, ap, ◌∙◌, Option, none,
  some, List, [], ◌∷◌, arith, ◌<>◌, ◌==◌, ==_iff, leb, truthy, if◌then◌else◌, All, All-take,
  All-drop, All-sort_by, select-All, All-map₂, length, take, drop, sort_by, insert_by, select,
  select_sound,
}
use ratinglift_backend_core.Exec.{Result, ok, err, pure, gets, lift, ◌>>=◌}
use ratinglift_backend_core.Platform.{Platform}
use ratinglift_backend_core.Models.{Property, DbSession, Db}
use ratinglift_backend_core.Audit.{UuidLike}
use ratinglift_backend_core.Tenancy.Context.{
  RequestContext, filter_by_tenant, filter_by_tenant_found,
}
use ratinglift_backend_core.Property.Service.{coerce_uuid}

-- A Python int; `negsuc n` is -(n + 1).
pub data ℤ : Type 0 where
  pos : ℕ → ℤ
  negsuc : ℕ → ℤ

-- `max(offset, 0)`
abbrev pub clamp_offset : ℤ → ℕ
clamp_offset (pos n) = n
clamp_offset (negsuc n) = 0

-- `max(min(limit, 500), 1)`
abbrev pub clamp_limit : ℤ → ℕ
clamp_limit (pos n) = max (min n 500) 1
clamp_limit (negsuc n) = 1

-- `Property.is_active.is_(…)`, if asked for
abbrev pub has_flag : Option Bool → Bool → Bool
has_flag none b = true
has_flag (some true) b = b
has_flag (some false) b = if b then false else true

-- `column.ilike(pattern)`; null matches nothing
abbrev pub ilike_opt : Platform → Option String → String → Bool
ilike_opt os none pattern = false
ilike_opt os (some s) pattern = os.ilike s pattern

abbrev pub contains_text : Platform → String → Property → Bool
contains_text os q r =
    let like = "%" <> os.strip q <> "%" in
    os.ilike r.name like || ilike_opt os r.google_place_id like

unfoldable pub matches : Platform → Option Bool → Option String → Property → Bool
matches os is_active none r = has_flag is_active r.is_active
matches os is_active (some q) r =
    has_flag is_active r.is_active && (if truthy (some q) then contains_text os q r else true)

-- newest first
abbrev newer : Property → Property → Bool
newer a b = leb b.created_at a.created_at

unfoldable pub page : ℤ → ℤ → List Property → List Property × ℕ
page limit offset found =
    (take (clamp_limit limit) (drop (clamp_offset offset) (sort_by newer found)), length found)

module _ (os : Platform) where
  unfoldable pub get_properties :
      RequestContext → Option Bool → Option String → ℤ → ℤ → Db (List Property × ℕ)
  get_properties ctx is_active q limit offset = do
    rows ← gets (λ s. s.current.properties)
    base ← lift (filter_by_tenant os (λ (r : Property). r.tenant_id) ctx.tenant_id rows)
    pure (page limit offset (select (matches os is_active q) base))

  of_tenant : Option UuidLike → List Property → Result (List Property)
  of_tenant none rows = ok rows
  of_tenant (some t) rows = elim (coerce_uuid os "Invalid property id" t) [
    | err e ↦ err e
    | ok u ↦ ok (select (λ (r : Property). r.tenant_id == u) rows)
  ]

  unfoldable pub admin_search_properties :
      Option UuidLike → Option Bool → Option String → ℤ → ℤ → Db (List Property × ℕ)
  unfolding of_tenant
  admin_search_properties tenant_id is_active q limit offset = do
    rows ← gets (λ s. s.current.properties)
    base ← lift (of_tenant tenant_id rows)
    pure (page limit offset (select (matches os is_active q) base))

  unfoldable pub admin_list_tenant_properties :
      UuidLike → Option Bool → ℤ → ℤ → Db (List Property × ℕ)
  admin_list_tenant_properties tenant_id is_active limit offset =
      admin_search_properties (some tenant_id) is_active none limit offset

module _ {A : Type 0} where
  length-insert_by :
      (before : A → A → Bool) (a : A) (xs : List A)
      → length (insert_by before a xs) ≡ suc (length xs)
  length-insert_by before a [] = refl
  length-insert_by before a (x ∷ xs) = ground (arith, length-insert_by before a xs)

  length-sort_by : (before : A → A → Bool) (xs : List A) → length (sort_by before xs) ≡ length xs
  length-sort_by before [] = refl
  length-sort_by before (x ∷ xs) =
      length-insert_by before x (sort_by before xs) ∙ ap suc (length-sort_by before xs)

  length-take-min : (n : ℕ) (xs : List A) → length (take n xs) ≡ min n (length xs)
  length-take-min zero xs = omega arith
  length-take-min (suc n) [] = omega arith
  length-take-min (suc n) (x ∷ xs) = omega (arith, length-take-min n xs)

  length-drop : (n : ℕ) (xs : List A) → length (drop n xs) ≡ length xs - n
  length-drop zero xs = omega arith
  length-drop (suc n) [] = omega arith
  length-drop (suc n) (x ∷ xs) = omega (arith, length-drop n xs)

length-page :
    (limit offset : ℤ) (found : List Property)
    → length (page limit offset found).0
      ≡ min (clamp_limit limit) (length found - clamp_offset offset)
unfolding page
length-page limit offset found =
    length-take-min (clamp_limit limit) (drop (clamp_offset offset) (sort_by newer found))
    ∙ ap (min (clamp_limit limit)) (
        length-drop (clamp_offset offset) (sort_by newer found)
        ∙ ap (λ n. n - clamp_offset offset) (length-sort_by newer found))

page-All :
    (P : Property → Type 0) (limit offset : ℤ) (found : List Property)
    → All P found
    → All P (page limit offset found).0
unfolding page
page-All P limit offset found h =
    All-take P (clamp_limit limit) _
      (All-drop P (clamp_offset offset) _ (All-sort_by P newer found h))

clamp_limit_bounds : (limit : ℤ) → (1 ≤ clamp_limit limit) × (clamp_limit limit ≤ 500)
clamp_limit_bounds (pos n) = omega arith
clamp_limit_bounds (negsuc n) = omega arith

-- A listing for a tenant whose identifier is `t` succeeds without writing. Every row of the page
-- belongs to the tenant and passes the filters; the total counts all such rows; and the page is as
-- long as the clamped limit and the rows behind the clamped offset allow, never above 500.
pub get_properties_lem :
    (os : Platform) (ctx : RequestContext) (is_active : Option Bool) (q : Option String)
    (limit offset : ℤ) (s : DbSession) {text : String} {t : ℕ}
    → ctx.tenant_id ≡ some text
    → os.parse_uuid text ≡ some t
    → (rows : List Property) × (total : ℕ) × (get_properties os ctx is_active q limit offset s
        ≡ (ok (rows, total), s))
      × All (λ r. (r.tenant_id ≡ t) × (matches os is_active q r ≡ true)) rows
      × (total
          ≡ length (
              select
                (matches os is_active q)
                (select (λ (r : Property). r.tenant_id == t) s.current.properties)))
      × (length rows ≡ min (clamp_limit limit) (total - clamp_offset offset))
      × (length rows ≤ 500)
unfolding get_properties page
get_properties_lem os ctx is_active q limit offset s {t} et ep =
    let mine = select (λ (r : Property). r.tenant_id == t) s.current.properties in
    let found = select (matches os is_active q) mine in
    (
      (page limit offset found).0,
      length found,
      ground (
        arith,
        filter_by_tenant_found os (λ (r : Property). r.tenant_id) ctx.tenant_id s.current.properties
            et ep,
      ),
      page-All (λ r. (r.tenant_id ≡ t) × (matches os is_active q r ≡ true)) limit offset found
          (All-map₂ (λ r a b. ((==_iff r.tenant_id t).0 a, b)) found
            (select-All (λ (r : Property). (r.tenant_id == t) ≡ true) (matches os is_active q) mine
              (select_sound _ s.current.properties))
            (select_sound (matches os is_active q) mine)),
      refl,
      length-page limit offset found,
      omega (arith, length-page limit offset found, clamp_limit_bounds limit),
    )
