-- ===== src/Property/Audited.antt =====
-- The property routes are atomic, and no committed change escapes the audit log.
use ratinglift_backend_core.Common.{
  String, Bool, true, false, ◌≡◌, refl, ap, ◌⊎◌, inl, inr, Option, some, [], ◌∷◌, ◌++◌, arith,
}
use ratinglift_backend_core.Exec.{Result, ok, err, ◌>>=◌}
use ratinglift_backend_core.Platform.{Platform}
use ratinglift_backend_core.Values.{Value, null}
use ratinglift_backend_core.Models.{Property, AuditLog, Database, DbSession, Db, with_db}
use ratinglift_backend_core.Audit.{id, coerce_uuid, log_action, audit_row}
use ratinglift_backend_core.Tenancy.Context.{RequestContext}
use ratinglift_backend_core.Property.Service.{
  flush_new, flush_changed, create_property, update_property, deactivate_property,
  activate_property, snapshot,
}
use ratinglift_backend_core.Property.Routes.{
  Call, create, read, update, deactivate, activate, serve, create_property_endpoint,
  get_property_endpoint, update_property_endpoint, deactivate_property_endpoint,
  activate_property_endpoint, finish, property_entry, log_and_commit,
}
use ratinglift_backend_core.Property.Lookup.{get_property_by_id_state}
use ratinglift_backend_core.Property.Induction.{
  create_keeps, update_keeps, deactivate_keeps, activate_keeps,
}

-- Before the endpoint logs: nothing is committed, and nothing is in the log.
record IsPending (d : Database) (s : DbSession) : Type 0 where
  nothing_committed : s.committed ≡ d
  nothing_logged : s.current.audit_logs ≡ d.audit_logs

module _ (os : Platform) (ctx : RequestContext) (request_ip : Option String) where
  -- One row was added to the log: this action, on this property, by the account that the user id of the
  -- context names, from the address of the request.
  pub record IsAudited (action : String) (before after : Database) (prop : Property) : Type 0 where
    pub row : AuditLog
    pub logged : after.audit_logs ≡ before.audit_logs ++ row ∷ []
    pub actor : row.actor_id ≡ os.parse_uuid ctx.user_id
    pub what : row.action ≡ action
    pub kind : row.entity ≡ "property"
    pub about : row.entity_id ≡ some prop.id
    pub origin : row.ip_address ≡ request_ip
    pub time : row.timestamp ≡ os.now

  -- A failure leaves the database as it was; a success leaves it as it was too, or logs the change.
  abbrev pub Accounted : String → Database → Result Property × Database → Type 0
  Accounted action before (err e, after) = after ≡ before
  Accounted action before (ok prop, after) = (after ≡ before) ⊎ IsAudited action before after prop

  IsPending-new :
      (d : Database) (row : Property) (s : DbSession)
      → IsPending d s
      → IsPending d (flush_new row s).1
  unfolding flush_new
  IsPending-new d row s h = ground arith

  IsPending-changed :
      (d : Database) (row : Property) (s : DbSession)
      → IsPending d s
      → IsPending d (flush_changed row s).1
  unfolding flush_changed
  IsPending-changed d row s h = ground arith

  IsPending-rollback :
      (d : Database) (s : DbSession)
      → IsPending d s
      → IsPending d (record s { current = s.committed })
  IsPending-rollback d s h = record {
    nothing_committed = h.nothing_committed;
    nothing_logged = ap (λ (x : Database). x.audit_logs) h.nothing_committed;
  }

  committed_log :
      (action : String) (prop : Property) (old new : Value) (d : Database) (s : DbSession)
      → IsPending d s
      → IsAudited action d (log_and_commit os ctx request_ip action prop old new s).1.committed prop
  unfolding log_and_commit log_action audit_row property_entry coerce_uuid
  committed_log action prop old new d s h = record {
    row = audit_row os (property_entry os ctx request_ip action prop old new) s.current.audit_logs;
    logged =
        ap
          (λ logs.
            logs
            ++ audit_row os (property_entry os ctx request_ip action prop old new)
                s.current.audit_logs
              ∷ [])
          h.nothing_logged;
    actor = refl;
    what = refl;
    kind = refl;
    about = refl;
    origin = refl;
    time = refl;
  }

  log_ok :
      (action : String) (prop : Property) (old new : Value) (s : DbSession)
      → (log_and_commit os ctx request_ip action prop old new s).0 ≡ ok prop
  unfolding log_and_commit log_action
  log_ok action prop old new s = refl

  Accounted-log :
      (action : String) (prop : Property) (old new : Value) (d : Database) (s : DbSession)
      → IsPending d s
      → let (r, s') = log_and_commit os ctx request_ip action prop old new s in
        Accounted action d (r, s'.committed)
  Accounted-log action prop old new d s h =
      rw (log_ok action prop old new s) (inr (committed_log action prop old new d s h))

  module _ {A : Type 0} (action : String) (d : Database) (f : A → Db Property)
      (rest : (a : A) (s : DbSession)
        → IsPending d s
        → let (r, s') = f a s in Accounted action d (r, s'.committed)) where
    Accounted-result :
        (r : Result A) (s : DbSession)
        → IsPending d s
        → let (r', s') = ((λ (_ : DbSession). (r, s)) >>= f) s in
          Accounted action d (r', s'.committed)
    Accounted-result (ok a) s h = rest a s h
    Accounted-result (err e) s h = h.nothing_committed

    Accounted-bind :
        (op : Db A) (s : DbSession)
        → IsPending d (op s).1
        → let (r', s') = (op >>= f) s in Accounted action d (r', s'.committed)
    Accounted-bind op s h = Accounted-result (op s).0 (op s).1 h

  Accounted-finish :
      (action : String) (done : Property × Value × Value × Bool) (d : Database) (s : DbSession)
      → IsPending d s
      → let (r, s') = finish os ctx request_ip action done s in Accounted action d (r, s'.committed)
  unfolding finish
  Accounted-finish action (prop, old, new, true) d s h = Accounted-log action prop old new d s h
  Accounted-finish action (prop, old, new, false) d s h = inl h.nothing_committed

  Accounted-read :
      (action : String) (r : Result Property) (d : Database) → Accounted action d (r, d)
  Accounted-read action (ok prop) d = inl refl
  Accounted-read action (err e) d = refl

  abbrev opened : Database → DbSession
  opened d = record { committed = d; current = d }

  opened-IsPending : (d : Database) → IsPending d (opened d)
  opened-IsPending d = record { nothing_committed = refl; nothing_logged = refl }

  -- what the log calls a route; a read logs nothing
  abbrev pub action_of : Call → String
  action_of (create payload) = "property.create"
  action_of (read pid) = "property.read"
  action_of (update pid u) = "property.update"
  action_of (deactivate pid) = "property.deactivate"
  action_of (activate pid) = "property.activate"

  -- A request that fails leaves the database exactly as it was. A request that succeeds either
  -- leaves it exactly as it was, or appends exactly one row to the audit log: the route's action, about
  -- the property that the request returns, from the request's address and at its time. The row's actor
  -- is the account that the context's user id names, or nobody if that text is no UUID.
  pub serve-Accounted :
      (call : Call) (d : Database)
      → Accounted (action_of call) d (with_db (serve os ctx request_ip call) d)
  unfolding with_db serve create_property_endpoint get_property_endpoint update_property_endpoint
      deactivate_property_endpoint activate_property_endpoint
  serve-Accounted (create payload) d =
      Accounted-bind "property.create" d
        (λ prop. log_and_commit os ctx request_ip "property.create" prop null (snapshot os prop))
        (λ prop s h. Accounted-log "property.create" prop null (snapshot os prop) d s h)
        (create_property os ctx payload) (opened d)
        (create_keeps os ctx (IsPending d) (λ row s _ h. IsPending-new d row s h)
          (λ prop row s _ _ _ h. IsPending-changed d row s h) (IsPending-rollback d) payload
          (opened d) (opened-IsPending d))
  serve-Accounted (read pid) d =
      rw (get_property_by_id_state os ctx (id pid) (opened d)) (Accounted-read "property.read" _ d)
  serve-Accounted (update pid u) d =
      Accounted-bind "property.update" d
        (λ done. log_and_commit os ctx request_ip "property.update" done.0 done.1 done.2)
        (λ done s h. Accounted-log "property.update" done.0 done.1 done.2 d s h)
        (update_property os ctx (id pid) u) (opened d)
        (update_keeps os ctx (IsPending d) (λ row s _ h. IsPending-new d row s h)
          (λ prop row s _ _ _ h. IsPending-changed d row s h) (IsPending-rollback d) (id pid) u
          (opened d) (opened-IsPending d))
  serve-Accounted (deactivate pid) d =
      Accounted-bind "property.deactivate" d (finish os ctx request_ip "property.deactivate")
        (λ done s h. Accounted-finish "property.deactivate" done d s h)
        (deactivate_property os ctx (id pid)) (opened d)
        (deactivate_keeps os ctx (IsPending d) (λ row s _ h. IsPending-new d row s h)
          (λ prop row s _ _ _ h. IsPending-changed d row s h) (IsPending-rollback d) (id pid)
          (opened d) (opened-IsPending d))
  serve-Accounted (activate pid) d =
      Accounted-bind "property.activate" d (finish os ctx request_ip "property.activate")
        (λ done s h. Accounted-finish "property.activate" done d s h)
        (activate_property os ctx (id pid)) (opened d)
        (activate_keeps os ctx (IsPending d) (λ row s _ h. IsPending-new d row s h)
          (λ prop row s _ _ _ h. IsPending-changed d row s h) (IsPending-rollback d) (id pid)
          (opened d) (opened-IsPending d))
