-- ===== src/Admin/Routes.antt =====
-- app/modules/admin/connectors/routes.py: each endpoint calls the service, writes the admin log and
-- commits. The administrator comes from `require_role`. What is written to the storage is not undone when
-- the database rolls back.
use ratinglift_backend_core.Common.{
  ⊤, ℕ, String, Bool, true, false, not, Option, none, some, List, [], ◌∷◌, if◌then◌else◌, truthy,
}
use ratinglift_backend_core.Exec.{Error, http, ok, err, pure, raise_if, ◌>>=◌, ◌>>◌}
use ratinglift_backend_core.Platform.{Platform}
use ratinglift_backend_core.Values.{Value, Items, null, int, str, seq, nil, cons, dict, field, end}
use ratinglift_backend_core.Models.{User, UserRole, super_admin, ops_admin, Connector, commit}
use ratinglift_backend_core.Audit.{id}
use ratinglift_backend_core.Audit.Admin.{RequestState, AdminEntry, log_admin_action}
use ratinglift_backend_core.Property.Listing.{ℤ, pos}
use ratinglift_backend_core.Admin.Storage.{Storage, KeyTexts, Admin, in_db}
use ratinglift_backend_core.Admin.Catalog.{
  Wording, snapshot, list_connectors, get_connector_or_404, get_connector_including_deleted_or_404,
  create_connector, soft_delete_connector, restore_connector, reorder_connectors,
}
use ratinglift_backend_core.Admin.Logos.{
  Images, Upload, update_connector, save_connector_logo, clear_connector_logo,
}

-- the routes of `admin_connector_router`
pub data Call (B : Type 0) : Type 0 where
  list : Option Bool → Bool → ℕ → ℕ → Call B
  read : ℕ → Call B
  create : String → Option (Upload B) → Call B
  update : ℕ → Option String → Option Bool → Option ℕ → Call B
  delete : ℕ → Call B
  restore : ℕ → Call B
  activate : ℕ → Call B
  deactivate : ℕ → Call B
  reorder : List (ℕ × ℕ) → Call B
  upload_logo : ℕ → Upload B → Call B
  delete_logo : ℕ → Call B

-- `require_role(ADMIN_ROLES)`
unfoldable pub may_administrate : UserRole → Bool
may_administrate super_admin = true
may_administrate ops_admin = true
may_administrate _ = false

abbrev pub as_int : Option ℕ → Option ℤ
as_int none = none
as_int (some n) = some (pos n)

abbrev pub as_items : List (ℕ × ℕ) → List (ℕ × ℤ)
as_items [] = []
as_items ((i, n) ∷ items) = (i, pos n) ∷ as_items items

abbrev pub order_values : Platform → List (ℕ × ℕ) → Items
order_values os [] = nil
order_values os ((i, n) ∷ items) =
    cons (dict (field "id" (str (os.show_uuid i)) (field "display_order" (int n) end)))
      (order_values os items)

-- `file is not None and file.filename`
abbrev pub with_file : {B : Type 0} → Option (Upload B) → Option (Upload B)
with_file none = none
with_file (some u) = if truthy u.filename then some u else none

-- `except HTTPException: db.rollback(); raise`
unfoldable pub rolled_back : {F A : Type 0} → Error → Admin F A
rolled_back (http status detail) s =
    (err (http status detail), record s { db = record s.db { current = s.db.committed } })
rolled_back e s = (err e, s)

unfoldable pub or_rollback : {F A : Type 0} → Admin F A → Admin F A
or_rollback m s = let (r, s') = m s in elim r [ ok a ↦ (ok a, s') | err e ↦ rolled_back e s' ]

module _ {B F : Type 0} (os : Platform) (w : Wording) (keys : KeyTexts) (images : Images B)
    (storage : Storage B F) (admin : User) (request : RequestState) where
  unfoldable pub connector_entry : String → Option ℕ → Value → Value → AdminEntry
  connector_entry action target before after = record {
    admin_id = some (id admin.id);
    action = action;
    target_entity = some "connector";
    target_id = elim target [ none ↦ none | some t ↦ some (id t) ];
    target_tenant_id = none;
    before_value = before;
    after_value = after;
    extra = null;
  }

  unfoldable pub log_and_commit : String → Option ℕ → Value → Value → Admin F ⊤
  log_and_commit action target before after = do
    in_db (log_admin_action os request (connector_entry action target before after))
    in_db commit

  -- the row after a change, logged with the snapshot from before
  unfoldable pub changed : String → Connector → Connector → Admin F (List Connector)
  changed action before row = do
    log_and_commit action (some row.id) (snapshot os before) (snapshot os row)
    pure (row ∷ [])

  abbrev pub with_logo : Option (Upload B) → Connector → Admin F Connector
  with_logo none row = pure row
  with_logo (some u) row = or_rollback (save_connector_logo os keys storage w images row u)

  unfoldable pub create_route : String → Option (Upload B) → Admin F (List Connector)
  create_route name file = do
    row ← in_db (create_connector os name none)
    row' ← with_logo (with_file file) row
    log_and_commit "connector_created" (some row'.id) null (snapshot os row')
    pure (row' ∷ [])

  unfoldable pub set_active : ℕ → Bool → Admin F (List Connector)
  set_active connector_id target = do
    row ← in_db (get_connector_or_404 os connector_id)
    if (if row.is_active then target else not target)
        then pure (row ∷ [])
        else update_connector os keys storage none (some target) none row >>= λ row'.
            changed (if target then "connector_activated" else "connector_deactivated") row row'

  unfoldable pub reorder_route : List (ℕ × ℕ) → Admin F (List Connector)
  reorder_route items = do
    rows ← or_rollback (in_db (reorder_connectors os (as_items items)))
    log_and_commit "connector_reordered" none null
        (dict (field "order" (seq (order_values os items)) end))
    pure rows

  unfoldable pub list_route : Option Bool → Bool → ℕ → ℕ → Admin F (List Connector)
  list_route is_active include_deleted limit offset = do
    (rows, total) ← in_db (list_connectors os w is_active include_deleted limit offset)
    pure rows

  unfoldable pub get_route : ℕ → Admin F (List Connector)
  get_route connector_id = do row ← in_db (get_connector_or_404 os connector_id); pure (row ∷ [])

  unfoldable pub update_route :
      ℕ → Option String → Option Bool → Option ℕ → Admin F (List Connector)
  update_route connector_id name is_active display_order = do
    row ← in_db (get_connector_or_404 os connector_id)
    row' ← update_connector os keys storage name is_active (as_int display_order) row
    changed "connector_updated" row row'

  unfoldable pub delete_route : ℕ → Admin F (List Connector)
  delete_route connector_id = do
    row ← in_db (get_connector_or_404 os connector_id)
    row' ← in_db (soft_delete_connector os w row)
    changed "connector_deleted" row row'

  unfoldable pub restore_route : ℕ → Admin F (List Connector)
  restore_route connector_id = do
    row ← in_db (get_connector_including_deleted_or_404 os connector_id)
    row' ← in_db (restore_connector os row)
    changed "connector_restored" row row'

  unfoldable pub upload_logo_route : ℕ → Upload B → Admin F (List Connector)
  upload_logo_route connector_id file = do
    row ← in_db (get_connector_or_404 os connector_id)
    row' ← save_connector_logo os keys storage w images row file
    changed "connector_logo_uploaded" row row'

  unfoldable pub delete_logo_route : ℕ → Admin F (List Connector)
  delete_logo_route connector_id = do
    row ← in_db (get_connector_or_404 os connector_id)
    row' ← clear_connector_logo os keys storage row
    changed "connector_logo_cleared" row row'

  -- What an administrator's call does; the rows are those of the response.
  unfoldable pub serve : Call B → Admin F (List Connector)
  serve (list is_active include_deleted limit offset) =
      list_route is_active include_deleted limit offset
  serve (read connector_id) = get_route connector_id
  serve (create name file) = create_route name file
  serve (update connector_id name is_active display_order) =
      update_route connector_id name is_active display_order
  serve (delete connector_id) = delete_route connector_id
  serve (restore connector_id) = restore_route connector_id
  serve (activate connector_id) = set_active connector_id true
  serve (deactivate connector_id) = set_active connector_id false
  serve (reorder items) = reorder_route items
  serve (upload_logo connector_id file) = upload_logo_route connector_id file
  serve (delete_logo connector_id) = delete_logo_route connector_id

  -- with the guard of every route
  unfoldable pub guarded : Call B → Admin F (List Connector)
  guarded call = do
    raise_if (not (may_administrate admin.role)) (http 403 "Insufficient role")
    serve call
