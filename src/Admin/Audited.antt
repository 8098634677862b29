-- ===== src/Admin/Audited.antt =====
-- Every call of the catalogue, accounted for (app/modules/admin/connectors/routes.py).
use mathlib.Core.Path.{subst}
use ratinglift_backend_core.Common.{
  ℕ, String, Bool, true, false, not, ◌≡◌, ◌⊎◌, refl, sym, ap, Option, none, some, List, [], ◌∷◌,
  inl, inr, if◌then◌else◌, Bool-cases,
}
use ratinglift_backend_core.Exec.{
  Error, http, integrity_error, data_error, value_error, Result, ok, err, pure, ◌>>=◌, ◌>>◌,
  Result-cases,
}
use ratinglift_backend_core.Platform.{Platform}
use ratinglift_backend_core.Values.{Value, null, seq, dict, field, end}
use ratinglift_backend_core.Models.{User, Connector, Database}
use ratinglift_backend_core.Audit.Admin.{RequestState}
use ratinglift_backend_core.Admin.Storage.{Storage, KeyTexts, Media, Admin, in_db}
use ratinglift_backend_core.Admin.Catalog.{Wording}
use ratinglift_backend_core.Admin.Catalog.{
  snapshot, list_connectors, get_connector_or_404, get_connector_including_deleted_or_404,
  create_connector, soft_delete_connector, restore_connector, reorder_connectors,
}
use ratinglift_backend_core.Admin.Logos.{
  Images, Upload, update_connector, save_connector_logo, clear_connector_logo,
}
use ratinglift_backend_core.Admin.Quiet.{
  Keeps, get_Keeps, get_deleted_Keeps, create_Keeps, delete_Keeps, restore_Keeps, reorder_Keeps,
  clear_Keeps, update_Keeps, save_Keeps,
}
use ratinglift_backend_core.Admin.Routes.{
  Call, list, read, create, update, delete, restore, activate, deactivate, reorder, upload_logo,
  delete_logo, log_and_commit, changed, or_rollback, rolled_back, create_route, set_active,
  reorder_route, list_route, get_route, update_route, delete_route, restore_route,
  upload_logo_route, delete_logo_route, serve, guarded, may_administrate, as_items, order_values,
  with_file, with_logo, as_int,
}
use ratinglift_backend_core.Admin.Accounted.{
  IsLogged, IsPending, Accounted, then-Accounted, bind-Accounted, same_Keeps, logged-Accounted,
  changed-Accounted, found-Accounted, Keeps-IsPending,
}

module _ {B F : Type 0} (os : Platform) (w : Wording) (keys : KeyTexts) (images : Images B)
    (storage : Storage B F) (admin : User) (request : RequestState) where
  rolled_back-IsPending :
      (A : Type 0) (d : Database) (e : Error) (s : Media F)
      → IsPending d s.db
      → IsPending d (rolled_back {A = A} e s).1.db
  unfolding rolled_back
  rolled_back-IsPending A d (http status detail) s pending = record {
    nothing_committed = pending.nothing_committed;
    no_admin_log = ap (λ d. d.admin_action_logs) pending.nothing_committed;
    no_audit_log = ap (λ d. d.audit_logs) pending.nothing_committed;
  }
  rolled_back-IsPending A d (integrity_error name) s pending = pending
  rolled_back-IsPending A d data_error s pending = pending
  rolled_back-IsPending A d (value_error text) s pending = pending

  rollback-IsPending :
      {A : Type 0} (d : Database) (m : Admin F A) (s : Media F)
      → IsPending d s.db
      → Keeps s.db (m s).1.db
      → IsPending d (or_rollback m s).1.db
  unfolding or_rollback
  rollback-IsPending {A} d m s pending quiet =
      let pending' =
        Keeps-IsPending os w keys images storage admin request d s.db (m s).1.db quiet pending in
      elim (Result-cases (m s).0) [
        | inl (x, e) ↦ rw (e, or_rollback) (rolled_back-IsPending A d x (m s).1 pending')
        | inr (a, e) ↦ rw (e, or_rollback) pending'
      ]

  logo-IsPending :
      (d : Database) (file : Option (Upload B)) (row : Connector) (s : Media F)
      → IsPending d s.db
      → IsPending d (with_logo os w keys images storage admin request file row s).1.db
  logo-IsPending d none row s pending = pending
  logo-IsPending d (some u) row s pending =
      rollback-IsPending d (save_connector_logo os keys storage w images row u) s pending
        (save_Keeps os keys storage w images row u s)

  create-Accounted :
      (name : String) (file : Option (Upload B)) (d : Database) (s : Media F)
      → IsPending d s.db
      → Accounted os w keys images storage admin request d
          (create_route os w keys images storage admin request name file s)
  unfolding create_route
  create-Accounted name file d s pending =
      let finish : Connector → Admin F (List Connector) = λ row'.
        log_and_commit os w keys images storage admin request "connector_created" (some row'.id)
          null (snapshot os row')
        >> pure (row' ∷ []) in
      let logo : Connector → Admin F Connector =
        λ row. with_logo os w keys images storage admin request (with_file file) row in
      let created : Admin F Connector = in_db (create_connector os name none) in
      bind-Accounted os w keys images storage admin request d created (λ row. logo row >>= finish) s
        pending (create_Keeps os name none s.db)
        (λ row pending'.
          let pending'' = logo-IsPending d (with_file file) row (created s).1 pending' in
          then-Accounted os w keys images storage admin request d (logo row) finish (created s).1
            pending''
            (λ row'.
              logged-Accounted os w keys images storage admin request d "connector_created"
                (some row'.id) null (snapshot os row') (row' ∷ []) (logo row (created s).1).1
                (inr (row', refl, refl)) pending''))

  active-Accounted :
      (which : ℕ) (target : Bool) (d : Database) (s : Media F)
      → IsPending d s.db
      → Accounted os w keys images storage admin request d
          (set_active os w keys images storage admin request which target s)
  unfolding set_active
  active-Accounted which target d s pending =
      let get : Admin F Connector = in_db (get_connector_or_404 os which) in
      let action : String = if target then "connector_activated" else "connector_deactivated" in
      let change : Connector → Admin F (List Connector) = λ row.
        update_connector os keys storage none (some target) none row >>= λ row'.
        changed os w keys images storage admin request action row row' in
      let rest : Connector → Admin F (List Connector) = λ row.
        if (if row.is_active then target else not target) then pure (row ∷ []) else change row in
      bind-Accounted os w keys images storage admin request d get rest s pending
        (same_Keeps os w keys images storage admin request s.db (get s).1.db
          (get_Keeps os which s.db))
        (λ row pending'.
          either (if row.is_active then target else not target) row (get s).1 pending')
    where
      either :
          (b : Bool) (row : Connector) (s : Media F)
          → IsPending d s.db
          → Accounted os w keys images storage admin request d (
              (if b
                  then pure (row ∷ [])
                  else (update_connector os keys storage none (some target) none row >>= λ row'.
                      changed os w keys images storage admin request
                        (if target then "connector_activated" else "connector_deactivated")
                        row
                        row'))
                s)
      either true row s pending = inl pending.nothing_committed
      either false row s pending =
          bind-Accounted os w keys images storage admin request d
            (update_connector os keys storage none (some target) none row)
            (λ row'.
              changed os w keys images storage admin request
                (if target then "connector_activated" else "connector_deactivated") row row')
            s pending (update_Keeps os keys storage none (some target) none row s)
            (λ row' pending'.
              changed-Accounted os w keys images storage admin request d
                (if target then "connector_activated" else "connector_deactivated") row row'
                (update_connector os keys storage none (some target) none row s).1 pending')

  reorder-Accounted :
      (items : List (ℕ × ℕ)) (d : Database) (s : Media F)
      → IsPending d s.db
      → Accounted os w keys images storage admin request d
          (reorder_route os w keys images storage admin request items s)
  unfolding reorder_route
  reorder-Accounted items d s pending =
      let action : Admin F (List Connector) =
        or_rollback (in_db (reorder_connectors os (as_items items))) in
      let after : Value = dict (field "order" (seq (order_values os items)) end) in
      let finish : List Connector → Admin F (List Connector) = λ rows.
        log_and_commit os w keys images storage admin request "connector_reordered" none null after
        >> pure rows in
      let pending' =
        rollback-IsPending d (in_db (reorder_connectors os (as_items items))) s pending
          (reorder_Keeps os (as_items items) s.db) in
      then-Accounted os w keys images storage admin request d action finish s pending' (λ rows.
        logged-Accounted os w keys images storage admin request d "connector_reordered" none null
          after rows (action s).1 (inl (refl, refl)) pending')

  serve_lem :
      (call : Call B) (d : Database) (s : Media F)
      → IsPending d s.db
      → Accounted os w keys images storage admin request d
          (serve os w keys images storage admin request call s)
  unfolding serve list_route get_route update_route delete_route restore_route upload_logo_route
      delete_logo_route list_connectors
  serve_lem (list is_active include_deleted limit offset) d s pending =
      inl pending.nothing_committed
  serve_lem (read which) d s pending =
      bind-Accounted os w keys images storage admin request d
        (in_db (get_connector_or_404 os which)) (λ row. pure (row ∷ [])) s pending
        (same_Keeps os w keys images storage admin request s.db
          (get_connector_or_404 os which s.db).1 (get_Keeps os which s.db))
        (λ row pending'. inl pending'.nothing_committed)
  serve_lem (create name file) d s pending = create-Accounted name file d s pending
  serve_lem (update which name is_active display_order) d s pending =
      found-Accounted os w keys images storage admin request d (get_connector_or_404 os which)
        (λ row. update_connector os keys storage name is_active (as_int display_order) row)
        "connector_updated" s pending (get_Keeps os which s.db)
        (λ row s'. update_Keeps os keys storage name is_active (as_int display_order) row s')
  serve_lem (delete which) d s pending =
      found-Accounted os w keys images storage admin request d (get_connector_or_404 os which)
        (λ row. in_db (soft_delete_connector os w row)) "connector_deleted" s pending
        (get_Keeps os which s.db) (λ row s'. delete_Keeps os w row s'.db)
  serve_lem (restore which) d s pending =
      found-Accounted os w keys images storage admin request d
        (get_connector_including_deleted_or_404 os which) (λ row. in_db (restore_connector os row))
        "connector_restored" s pending (get_deleted_Keeps os which s.db)
        (λ row s'. restore_Keeps os row s'.db)
  serve_lem (activate which) d s pending = active-Accounted which true d s pending
  serve_lem (deactivate which) d s pending = active-Accounted which false d s pending
  serve_lem (reorder items) d s pending = reorder-Accounted items d s pending
  serve_lem (upload_logo which file) d s pending =
      found-Accounted os w keys images storage admin request d (get_connector_or_404 os which)
        (λ row. save_connector_logo os keys storage w images row file) "connector_logo_uploaded" s
        pending (get_Keeps os which s.db)
        (λ row s'. save_Keeps os keys storage w images row file s')
  serve_lem (delete_logo which) d s pending =
      found-Accounted os w keys images storage admin request d (get_connector_or_404 os which)
        (λ row. clear_connector_logo os keys storage row) "connector_logo_cleared" s pending
        (get_Keeps os which s.db) (λ row s'. clear_Keeps os keys storage row s')

module _ {B F : Type 0} (os : Platform) (w : Wording) (keys : KeyTexts) (images : Images B)
    (storage : Storage B F) (admin : User) (request : RequestState) where
  -- what a request that got past the guard did
  abbrev Outcome : Database → Result (List Connector) × Media F → Type 0
  Outcome d p =
      ((e : Error) × (p.0 ≡ err e) × (p.1.db.committed ≡ d))
      ⊎ ((rows : List Connector) × (p.0 ≡ ok rows)
          × ((p.1.db.committed ≡ d) ⊎ IsLogged os request admin.id rows d p.1.db.committed))

  outcome_of :
      (d : Database) (r : Result (List Connector)) (s' : Media F)
      → Accounted os w keys images storage admin request d (r, s')
      → Outcome d (r, s')
  outcome_of d (err e) s' h = inl (e, refl, h)
  outcome_of d (ok rows) s' h = inr (rows, refl, h)

  -- An administrator's request on the catalogue, from the database `d` on. When it fails, with whatever
  -- exception, the committed database is `d`. When it succeeds, the committed database is `d` or has one
  -- new row in the log of admin actions and its mirror in the audit log: both name this administrator, the
  -- same action, the same values and the time, and the source that the request returns (none for a new
  -- order of the sources), and the row has the request's address.
  -- Without one of the two roles the request fails with 403.
  pub guarded_lem :
      (call : Call B) (d : Database) (files : F)
      → let (r, s') =
          guarded os w keys images storage admin request call
            (record { db = record { committed = d; current = d }; files = files }) in
        ((may_administrate admin.role ≡ false)
          × (r ≡ err (http 403 "Insufficient role"))
          × (s'.db.committed ≡ d))
        ⊎ ((may_administrate admin.role ≡ true)
            × (((e : Error) × (r ≡ err e) × (s'.db.committed ≡ d))
                ⊎ ((rows : List Connector) × (r ≡ ok rows)
                    × ((s'.db.committed ≡ d)
                        ⊎ IsLogged os request admin.id rows d s'.db.committed))))
  unfolding guarded
  guarded_lem call d files =
      let s : Media F = record { db = record { committed = d; current = d }; files = files } in
      let run : Admin F (List Connector) = serve os w keys images storage admin request call in
      elim (Bool-cases (may_administrate admin.role)) [
        | inr out ↦ inl (out, rw (out) refl, rw (out) refl)
        | inl may ↦
            let through : guarded os w keys images storage admin request call s ≡ run s =
              rw (may) refl in
            let fine =
              serve_lem os w keys images storage admin request call d s
                (record { nothing_committed = refl; no_admin_log = refl; no_audit_log = refl }) in
            inr
              (may, subst (λ p. Outcome d p) (sym through) (outcome_of d (run s).0 (run s).1 fine))
      ]
