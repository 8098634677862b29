-- ===== src/Property/Induction.antt =====
-- What every endpoint of the property routes keeps: an induction over their writes.
use ratinglift_backend_core.Common.{
  ⊤, ℕ, String, Bool, true, false, ◌≡◌, refl, Option, some, map, arith, inl, inr, Bool-cases,
}
use ratinglift_backend_core.Exec.{Result, ok, err, integrity_error, Result-cases, ◌>>=◌, pure}
use ratinglift_backend_core.Exec.Keeps.{bind_keeps}
use ratinglift_backend_core.Platform.{Platform}
use ratinglift_backend_core.Models.{Property, DbSession}
use ratinglift_backend_core.Values.{Value, null}
use ratinglift_backend_core.Audit.{UuidLike, id, text, Entry, log_action}
use ratinglift_backend_core.Tenancy.Context.{RequestContext, text_of}
use ratinglift_backend_core.Property.Service.{
  PropertyCreate, PropertyUpdate, coerce_uuid, conflict, flush_new, flush_changed,
  flush_or_conflict, create_property, new_property, snapshot, get_property_by_id, apply_update,
  is_empty_update, update_property, update_found, deactivate_property, activate_property,
  set_active, unchanged,
}
use ratinglift_backend_core.Property.Routes.{
  Call, create, read, update, deactivate, activate, serve, create_property_endpoint,
  get_property_endpoint, update_property_endpoint, deactivate_property_endpoint,
  activate_property_endpoint, finish, property_entry, log_and_commit,
}
use ratinglift_backend_core.Property.Lookup.{
  IsOwned, get_property_by_id-IsOwned, get_property_by_id_state,
}

-- The row that a request creates: its identifier is the new one, its tenant the context's.
pub record IsNew (os : Platform) (ctx : RequestContext) (s : DbSession) (row : Property)
    : Type 0 where
  pub new_id : row.id ≡ os.new_uuid (map (λ (r : Property). r.id) s.current.properties)
  pub own_tenant : os.parse_uuid (text_of ctx.tenant_id) ≡ some row.tenant_id

module _ (os : Platform) (ctx : RequestContext) (P : DbSession → Type 0)
    (at_new : (row : Property) (s : DbSession) → IsNew os ctx s row → P s → P (flush_new row s).1)
    (at_change : (prop row : Property) (s : DbSession)
      → IsOwned os ctx s.current prop
      → row.id ≡ prop.id
      → row.tenant_id ≡ prop.tenant_id
      → P s
      → P (flush_changed row s).1)
    (at_rollback : (s : DbSession) → P s → P (record s { current = s.committed })) where
  at_conflict : (r : Result ⊤) (s : DbSession) → P s → P (conflict r s).1
  at_conflict (err (integrity_error name)) s h = at_rollback s h
  at_conflict (err _) s h = h
  at_conflict (ok u) s h = h

  keeps_flush_new :
      (row : Property) (s : DbSession)
      → IsNew os ctx s row
      → P s
      → P (flush_or_conflict (flush_new row) s).1
  unfolding flush_or_conflict
  keeps_flush_new row s new h =
      at_conflict (flush_new row s).0 (flush_new row s).1 (at_new row s new h)

  coerce_tenant :
      (t : ℕ)
      → coerce_uuid os "Invalid property id" (text (text_of ctx.tenant_id)) ≡ ok t
      → os.parse_uuid (text_of ctx.tenant_id) ≡ some t
  unfolding coerce_uuid
  coerce_tenant t e = ground arith

  pub create_keeps :
      (payload : PropertyCreate) (s : DbSession) → P s → P (create_property os ctx payload s).1
  unfolding create_property new_property
  create_keeps payload s h =
      elim (Result-cases (coerce_uuid os "Invalid property id" (text (text_of ctx.tenant_id)))) [
        | inl (e, bad) ↦ rw bad h
        | inr (t, good) ↦
            let row = new_property os t payload s.current.properties in
            let kept = keeps_flush_new row s (is_new t payload s good) h in
            rw good (
              bind_keeps P (flush_or_conflict (flush_new row)) (λ _. pure row) s kept (λ a e. kept))
      ]
    where
      is_new :
          (t : ℕ) (payload : PropertyCreate) (s : DbSession)
          → coerce_uuid os "Invalid property id" (text (text_of ctx.tenant_id)) ≡ ok t
          → IsNew os ctx s (new_property os t payload s.current.properties)
      is_new t payload s e = record { new_id = refl; own_tenant = coerce_tenant t e }

  keeps_flush_changed :
      (prop row : Property) (s : DbSession)
      → IsOwned os ctx s.current prop
      → row.id ≡ prop.id
      → row.tenant_id ≡ prop.tenant_id
      → P s
      → P (flush_or_conflict (flush_changed row) s).1
  unfolding flush_or_conflict
  keeps_flush_changed prop row s o ei et h =
      at_conflict (flush_changed row s).0 (flush_changed row s).1 (at_change prop row s o ei et h)

  update_found_keeps :
      (u : PropertyUpdate) (prop : Property) (s : DbSession)
      → IsOwned os ctx s.current prop
      → P s
      → P (update_found os u prop s).1
  unfolding update_found apply_update
  update_found_keeps u prop s owned h = elim (Bool-cases (is_empty_update u)) [
    | inl empty ↦ rw empty h
    | inr some_field ↦
        let row = apply_update u prop in
        let kept = keeps_flush_changed prop row s owned refl refl h in
        rw some_field (
          bind_keeps P (flush_or_conflict (flush_changed row))
            (λ _. pure (row, snapshot os prop, snapshot os row)) s kept (λ a e. kept))
  ]

  pub update_keeps :
      (pid : UuidLike) (u : PropertyUpdate) (s : DbSession)
      → P s
      → P (update_property os ctx pid u s).1
  unfolding update_property
  update_keeps pid u s h = elim (Result-cases (get_property_by_id os ctx pid s).0) [
    | inl (e, bad) ↦ rw (bad, get_property_by_id_state os ctx pid s, update_property, ◌>>=◌) h
    | inr (prop, got) ↦
        let owned = (get_property_by_id-IsOwned os ctx pid s prop got).0 in
        rw (got, get_property_by_id_state os ctx pid s, update_property, ◌>>=◌)
          (update_found_keeps u prop s owned h)
  ]

  set_active_keeps :
      (target : Bool) (prop : Property) (s : DbSession)
      → IsOwned os ctx s.current prop
      → P s
      → P (set_active os target prop s).1
  unfolding set_active
  set_active_keeps target prop s owned h =
      let row : Property = record prop { is_active = target } in
      let kept = at_change prop row s owned refl refl h in
      bind_keeps P (flush_changed row) (λ _. pure (row, snapshot os prop, snapshot os row, true)) s
        kept (λ a e. kept)

  pub deactivate_keeps :
      (pid : UuidLike) (s : DbSession) → P s → P (deactivate_property os ctx pid s).1
  unfolding deactivate_property
  deactivate_keeps pid s h = elim (Result-cases (get_property_by_id os ctx pid s).0) [
    | inl (e, bad) ↦ rw (bad, get_property_by_id_state os ctx pid s, deactivate_property, ◌>>=◌) h
    | inr (prop, got) ↦
        let owned = (get_property_by_id-IsOwned os ctx pid s prop got).0 in
        elim (Bool-cases prop.is_active) [
          | inl on ↦
              rw (got, get_property_by_id_state os ctx pid s, on, deactivate_property, ◌>>=◌)
                (set_active_keeps false prop s owned h)
          | inr off ↦
              rw (got, get_property_by_id_state os ctx pid s, off, deactivate_property, ◌>>=◌)
                (unfold unchanged in h)
        ]
  ]

  pub activate_keeps : (pid : UuidLike) (s : DbSession) → P s → P (activate_property os ctx pid s).1
  unfolding activate_property
  activate_keeps pid s h = elim (Result-cases (get_property_by_id os ctx pid s).0) [
    | inl (e, bad) ↦ rw (bad, get_property_by_id_state os ctx pid s, activate_property, ◌>>=◌) h
    | inr (prop, got) ↦
        let owned = (get_property_by_id-IsOwned os ctx pid s prop got).0 in
        elim (Bool-cases prop.is_active) [
          | inl on ↦
              rw (got, get_property_by_id_state os ctx pid s, on, activate_property, ◌>>=◌)
                (unfold unchanged in h)
          | inr off ↦
              rw (got, get_property_by_id_state os ctx pid s, off, activate_property, ◌>>=◌)
                (set_active_keeps true prop s owned h)
        ]
  ]

module _ (os : Platform) (ctx : RequestContext) (request_ip : Option String)
    (P : DbSession → Type 0)
    (at_new : (row : Property) (s : DbSession) → IsNew os ctx s row → P s → P (flush_new row s).1)
    (at_change : (prop row : Property) (s : DbSession)
      → IsOwned os ctx s.current prop
      → row.id ≡ prop.id
      → row.tenant_id ≡ prop.tenant_id
      → P s
      → P (flush_changed row s).1)
    (at_rollback : (s : DbSession) → P s → P (record s { current = s.committed }))
    (at_log : (e : Entry) (s : DbSession) → P s → P (log_action os e s).1)
    (at_commit : (s : DbSession) → P s → P (record s { committed = s.current })) where
  logged :
      (action : String) (prop : Property) (before after : Value) (s : DbSession)
      → P s
      → P (log_and_commit os ctx request_ip action prop before after s).1
  unfolding log_and_commit log_action
  logged action prop before after s h =
      let e = property_entry os ctx request_ip action prop before after in
      at_commit (log_action os e s).1 (at_log e s h)

  finish_keeps :
      (action : String) (done : Property × Value × Value × Bool) (s : DbSession)
      → P s
      → P (finish os ctx request_ip action done s).1
  unfolding finish
  finish_keeps action (prop, before, after, true) s h = logged action prop before after s h
  finish_keeps action (prop, before, after, false) s h = h

  pub serve_induction : (call : Call) (s : DbSession) → P s → P (serve os ctx request_ip call s).1
  unfolding serve create_property_endpoint get_property_endpoint update_property_endpoint
      deactivate_property_endpoint activate_property_endpoint
  serve_induction (create payload) s h =
      bind_keeps P (create_property os ctx payload)
        (λ prop. log_and_commit os ctx request_ip "property.create" prop null (snapshot os prop)) s
        (create_keeps os ctx P at_new at_change at_rollback payload s h)
        (λ prop e.
          logged "property.create" prop null (snapshot os prop) _
            (create_keeps os ctx P at_new at_change at_rollback payload s h))
  serve_induction (read pid) s h = rw (get_property_by_id_state os ctx (id pid) s) h
  serve_induction (update pid u) s h =
      bind_keeps P (update_property os ctx (id pid) u)
        (λ done. log_and_commit os ctx request_ip "property.update" done.0 done.1 done.2) s
        (update_keeps os ctx P at_new at_change at_rollback (id pid) u s h)
        (λ done e.
          logged "property.update" done.0 done.1 done.2 _
            (update_keeps os ctx P at_new at_change at_rollback (id pid) u s h))
  serve_induction (deactivate pid) s h =
      bind_keeps P (deactivate_property os ctx (id pid))
        (finish os ctx request_ip "property.deactivate") s
        (deactivate_keeps os ctx P at_new at_change at_rollback (id pid) s h)
        (λ done e.
          finish_keeps "property.deactivate" done _
            (deactivate_keeps os ctx P at_new at_change at_rollback (id pid) s h))
  serve_induction (activate pid) s h =
      bind_keeps P (activate_property os ctx (id pid))
        (finish os ctx request_ip "property.activate") s
        (activate_keeps os ctx P at_new at_change at_rollback (id pid) s h)
        (λ done e.
          finish_keeps "property.activate" done _
            (activate_keeps os ctx P at_new at_change at_rollback (id pid) s h))
