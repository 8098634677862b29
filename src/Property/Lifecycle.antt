-- ===== src/Property/Lifecycle.antt =====
-- What an update and a change of activation do to the row that they find, on every branch.
use ratinglift_backend_core.Common.{
  ℕ, String, Bool, true, false, ◌≡◌, ◌≢◌, refl, sym, ◌∙◌, ◌⊎◌, Option, none, some, arith,
  Bool-cases, inl, inr, save, suc, length, length-append_one,
}
use mathlib.Core.Path.{subst, subst⁻¹}
use ratinglift_backend_core.Exec.{Result, ok, err, http}
use ratinglift_backend_core.Platform.{Platform}
use ratinglift_backend_core.Models.{AuditLog, Property, Database, DbSession, with_db}
use ratinglift_backend_core.Audit.{id, audit_row, log_action}
use ratinglift_backend_core.Tenancy.Context.{RequestContext}
use ratinglift_backend_core.Property.Service.{
  Field, unset, given, PropertyUpdate, keep_if_null, replace, is_unset, place_taken,
  duplicate_place_id_detail, flush_changed, flush_or_conflict, apply_update, is_empty_update,
  snapshot, update_found, update_property, get_property_by_id, set_active, unchanged,
  deactivate_property, activate_property,
}
use ratinglift_backend_core.Property.Routes.{
  update_property_endpoint, deactivate_property_endpoint, activate_property_endpoint,
  property_entry, finish, log_and_commit,
}
use ratinglift_backend_core.Property.Lookup.{IsOwned}
use ratinglift_backend_core.Property.Invariant.{id_of, IsValid}
use ratinglift_backend_core.Property.Replacement.{
  is_row, get_owned, place_free, save-IsOwned, IsOwned-of_rows,
}

abbrev opened : Database → DbSession
opened d = record { committed = d; current = d }

-- What a given field of an update makes of a column: null clears it, or else leaves it.
abbrev pub IsCleared : {A : Type 0} → Field A → Option A → Option A → Type 0
IsCleared unset old new = new ≡ old
IsCleared (given v) old new = new ≡ v

abbrev pub IsKept : {A : Type 0} → Field A → A → A → Type 0
IsKept unset old new = new ≡ old
IsKept (given none) old new = new ≡ old
IsKept (given (some a)) old new = new ≡ a

-- A row with the given fields replaced and all other columns as they were.
pub record IsUpdated (u : PropertyUpdate) (prop row : Property) : Type 0 where
  pub name : IsKept u.name prop.name row.name
  pub google_place_id : IsCleared u.google_place_id prop.google_place_id row.google_place_id
  pub google_maps_url : IsCleared u.google_maps_url prop.google_maps_url row.google_maps_url
  pub is_active : IsKept u.is_active prop.is_active row.is_active
  pub others :
      (row.id ≡ prop.id) × (row.tenant_id ≡ prop.tenant_id) × (row.created_at ≡ prop.created_at)

-- An update that gives no field.
abbrev pub IsEmpty : PropertyUpdate → Type 0
IsEmpty u =
    (u.name ≡ unset)
    × (u.google_place_id ≡ unset)
    × (u.google_maps_url ≡ unset)
    × (u.is_active ≡ unset)

keep_if_null-IsKept : {A : Type 0} (f : Field A) (old : A) → IsKept f old (keep_if_null f old)
keep_if_null-IsKept unset old = refl
keep_if_null-IsKept (given none) old = refl
keep_if_null-IsKept (given (some a)) old = refl

replace-IsCleared : {A : Type 0} (f : Field A) (old : Option A) → IsCleared f old (replace f old)
replace-IsCleared unset old = refl
replace-IsCleared (given v) old = refl

apply_update-IsUpdated :
    (u : PropertyUpdate) (prop : Property) → IsUpdated u prop (apply_update u prop)
unfolding apply_update
apply_update-IsUpdated u prop = record {
  name = keep_if_null-IsKept u.name prop.name;
  google_place_id = replace-IsCleared u.google_place_id prop.google_place_id;
  google_maps_url = replace-IsCleared u.google_maps_url prop.google_maps_url;
  is_active = keep_if_null-IsKept u.is_active prop.is_active;
  others = (refl, refl, refl);
}

left_out : {A : Type 0} (f : Field A) → is_unset f ≡ true → f ≡ unset
left_out unset e = refl
left_out (given v) e = absurd (cc e)

is_empty_update-IsEmpty : (u : PropertyUpdate) → is_empty_update u ≡ true → IsEmpty u
unfolding is_empty_update
is_empty_update-IsEmpty u e = (
  left_out u.name (ground (arith, e)),
  left_out u.google_place_id (ground (arith, e)),
  left_out u.google_maps_url (ground (arith, e)),
  left_out u.is_active (ground (arith, e)),
)

IsEmpty-is_empty_update : (u : PropertyUpdate) → is_empty_update u ≡ false → ¬ (IsEmpty u)
unfolding is_empty_update
IsEmpty-is_empty_update u e (name, place, url, active) =
    let all : is_empty_update u ≡ true = rw (name, place, url, active) refl in
    absurd (cc (sym e ∙ all))

module _ (os : Platform) (ctx : RequestContext) (request_ip : Option String) where
  -- the two routes that switch a property on and off
  unfoldable pub switch : Bool → ℕ → Database → Result Property × Database
  switch true pid d = with_db (activate_property_endpoint os ctx request_ip pid) d
  switch false pid d = with_db (deactivate_property_endpoint os ctx request_ip pid) d

  -- A row that has the flag already changes nothing; a change adds one row to the audit log.
  abbrev pub Logged : Bool → Property → Database → Database → Type 0
  Logged target prop d d' =
      ((prop.is_active ≡ target) × (d' ≡ d))
      ⊎ ((prop.is_active ≢ target) × (length d'.audit_logs ≡ suc (length d.audit_logs)))

  -- what a switch comes to, given what its lookup and its flush return
  abbrev Switched : Bool → Property → Database → Type 0
  Switched target prop d =
      let row : Property = record prop { is_active = target } in
      let (r, d') = switch target prop.id d in
      (r ≡ ok row)
      × Logged target prop d d'
      × (((d' ≡ d) × (prop.is_active ≡ target)) ⊎ (d'.properties ≡ save id_of row d.properties))

  -- the row that the audit log gains
  abbrev logged : String → Bool → Property → Database → AuditLog
  logged action target prop d =
      let row : Property = record prop { is_active = target } in
      audit_row os
        (property_entry os ctx request_ip action row (snapshot os prop) (snapshot os row))
        d.audit_logs

  switched :
      (target : Bool) (prop : Property) (d : Database)
      → get_property_by_id os ctx (id prop.id) (opened d) ≡ (ok prop, opened d)
      → place_taken (record prop { is_active = target }) d.properties ≡ false
      → Switched target prop d
  unfolding switch with_db activate_property_endpoint deactivate_property_endpoint activate_property
      deactivate_property finish set_active unchanged log_and_commit log_action flush_changed
  switched true prop d got free = elim (Bool-cases prop.is_active) [
    | inl on ↦ (ground arith, inl (on, ground arith), ground arith)
    | inr off ↦ (
      ground arith,
      inr (
        λ e. ground arith,
        ground (arith, length-append_one d.audit_logs (logged "property.activate" true prop d)),
      ),
      ground arith,
    )
  ]
  switched false prop d got free = elim (Bool-cases prop.is_active) [
    | inl on ↦ (
      ground arith,
      inr (
        λ e. ground arith,
        ground (arith, length-append_one d.audit_logs (logged "property.deactivate" false prop d)),
      ),
      ground arith,
    )
    | inr off ↦ (ground arith, inl (off, ground arith), ground arith)
  ]

  with_flag :
      (prop : Property) (b : Bool) → prop.is_active ≡ b → prop ≡ record prop { is_active = b }
  with_flag prop b e = λ i. record prop { is_active = e i }

  stays :
      (target : Bool) (prop : Property) (d : Database)
      → IsValid d
      → IsOwned os ctx d prop
      → let (r, d') = switch target prop.id d in
        let row : Property = record prop { is_active = target } in
        ((d' ≡ d) × (prop.is_active ≡ target)) ⊎ (d'.properties ≡ save id_of row d.properties)
        → IsOwned os ctx d' row
  stays target prop d v owned (inl (same, e)) =
      subst⁻¹ (λ x. IsOwned os ctx x (record prop { is_active = target })) same
        (subst (IsOwned os ctx d) (with_flag prop target e) owned)
  stays target prop d v owned (inr rows) =
      let row : Property = record prop { is_active = target } in
      IsOwned-of_rows os ctx row (record d { properties = save id_of row d.properties }) _ rows
        (save-IsOwned os ctx prop row d v owned refl refl)

  -- Switching an owned property of a well-formed database on or off succeeds, returns the row with
  -- the flag as asked and all else as it was, and leaves that row in the database for the tenant
  -- to find. If the row has the flag already, the whole database, its audit log included, stays as
  -- it was; otherwise the audit log grows by one row.
  pub switch_lem :
      (target : Bool) (prop : Property) (d : Database)
      → IsValid d
      → IsOwned os ctx d prop
      → let (r, d') = switch target prop.id d in
        (r ≡ ok (record prop { is_active = target }))
        × IsOwned os ctx d' (record prop { is_active = target })
        × Logged target prop d d'
  switch_lem target prop d v owned =
      let row : Property = record prop { is_active = target } in
      let free =
        place_free (is_row os ctx prop) prop row d.properties v.unique_places owned.found refl refl
          refl in
      let (answer, same, stored) =
        switched target prop d (get_owned os ctx prop (opened d) owned) free in
      (answer, stays target prop d v owned stored, same)

  -- the update route on an owned row, given what its lookup returns
  updated :
      (u : PropertyUpdate) (prop : Property) (d : Database)
      → get_property_by_id os ctx (id prop.id) (opened d) ≡ (ok prop, opened d)
      → is_empty_update u ≡ false
      → place_taken (apply_update u prop) d.properties ≡ false
      → let row = apply_update u prop in
        let (r, d') = with_db (update_property_endpoint os ctx request_ip prop.id u) d in
        (r ≡ ok row) × (d'.properties ≡ save id_of row d.properties)
  unfolding with_db update_property_endpoint update_property update_found flush_or_conflict
      flush_changed log_and_commit log_action
  updated u prop d got full free = (ground arith, ground arith)

  refused_empty :
      (u : PropertyUpdate) (prop : Property) (d : Database)
      → get_property_by_id os ctx (id prop.id) (opened d) ≡ (ok prop, opened d)
      → is_empty_update u ≡ true
      → let (r, d') = with_db (update_property_endpoint os ctx request_ip prop.id u) d in
        (r ≡ err (http 400 "No fields provided to update")) × (d' ≡ d)
  unfolding with_db update_property_endpoint update_property update_found
  refused_empty u prop d got empty = (ground arith, ground arith)

  refused_taken :
      (u : PropertyUpdate) (prop : Property) (d : Database)
      → get_property_by_id os ctx (id prop.id) (opened d) ≡ (ok prop, opened d)
      → is_empty_update u ≡ false
      → place_taken (apply_update u prop) d.properties ≡ true
      → let (r, d') = with_db (update_property_endpoint os ctx request_ip prop.id u) d in
        (r ≡ err (http 409 duplicate_place_id_detail)) × (d' ≡ d)
  unfolding with_db update_property_endpoint update_property update_found flush_or_conflict
      flush_changed
  refused_taken u prop d got full taken = (ground arith, ground arith)

  -- An update of an owned property of a well-formed database has three ends. With no field given
  -- it is refused with 400. Otherwise there is the row in which exactly the given fields are replaced,
  -- where null clears the place id and the address on the map and leaves the name and the flag. If another
  -- property of the tenant has that row's place id the update is refused with 409, or else that row is
  -- returned, and the tenant finds it afterwards. A refusal leaves the database as it was.
  pub update_lem :
      (u : PropertyUpdate) (prop : Property) (d : Database)
      → IsValid d
      → IsOwned os ctx d prop
      → let (r, d') = with_db (update_property_endpoint os ctx request_ip prop.id u) d in
        (IsEmpty u × (r ≡ err (http 400 "No fields provided to update")) × (d' ≡ d))
        ⊎ (¬ (IsEmpty u)
            × ((row : Property) × IsUpdated u prop row
                × (((place_taken row d.properties ≡ true)
                      × (r ≡ err (http 409 duplicate_place_id_detail))
                      × (d' ≡ d))
                    ⊎ ((place_taken row d.properties ≡ false)
                        × (r ≡ ok row)
                        × IsOwned os ctx d' row))))
  unfolding apply_update
  update_lem u prop d v owned =
      let row = apply_update u prop in
      let changed = apply_update-IsUpdated u prop in
      let got = get_owned os ctx prop (opened d) owned in
      elim (Bool-cases (is_empty_update u)) [
        | inl empty ↦
            let (answer, same) = refused_empty u prop d got empty in
            inl (is_empty_update-IsEmpty u empty, answer, same)
        | inr full ↦
            let some_field = IsEmpty-is_empty_update u full in
            elim (Bool-cases (place_taken row d.properties)) [
              | inl taken ↦
                  let (answer, same) = refused_taken u prop d got full taken in
                  inr (some_field, (row, changed, inl (taken, answer, same)))
              | inr free ↦
                  let (answer, rows) = updated u prop d got full free in
                  let stored =
                    IsOwned-of_rows os ctx row
                      (record d { properties = save id_of row d.properties }) _ rows
                      (save-IsOwned os ctx prop row d v owned refl refl) in
                  inr (some_field, (row, changed, inr (free, answer, stored)))
            ]
      ]
