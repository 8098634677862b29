-- ===== src/Admin/Quiet.antt =====
-- The operations of the catalogue leave the committing and the logging to the endpoints
-- (app/modules/admin/connectors/service.py).
use ratinglift_backend_core.Common.{
  some, ℕ, String, Bool, ◌≡◌, refl, ap, ◌∙◌, Option, List, [], ◌∷◌, arith,
}
use ratinglift_backend_core.Exec.{pure, ◌>>◌}
use ratinglift_backend_core.Exec.Keeps.{bind_keeps}
use ratinglift_backend_core.Platform.{Platform}
use ratinglift_backend_core.Models.{Connector, DbSession}
use ratinglift_backend_core.Property.Listing.{ℤ, pos, negsuc}
use ratinglift_backend_core.Admin.Storage.{Storage, KeyTexts, Media, Admin, in_db}
use ratinglift_backend_core.Admin.Catalog.{
  Wording, flush_with, flush_changed, get_connector_or_404, get_connector_including_deleted_or_404,
  assert_unique_name, assert_unique_logo_hash, create_connector, soft_delete_connector,
  restore_connector, put_order, put_orders, reorder_connectors,
}
use ratinglift_backend_core.Admin.Logos.{
  write_logo, Images, Upload, delete_existing_logo, purge_slug_siblings, check_upload, store_logo,
  save_connector_logo, clear_connector_logo, update_connector,
}

-- nothing committed, and nothing logged
pub record Keeps (s s' : DbSession) : Type 0 where
  pub committed : s'.committed ≡ s.committed
  pub admin_log : s'.current.admin_action_logs ≡ s.current.admin_action_logs
  pub audit_log : s'.current.audit_logs ≡ s.current.audit_logs

module _ (os : Platform) where
  flush_Keeps :
      (put : Connector → List Connector → List Connector) (row : Connector) (s : DbSession)
      → Keeps s (flush_with os put row s).1
  unfolding flush_with
  flush_Keeps put row s = ground arith

  pub get_Keeps : (id : ℕ) (s : DbSession) → (get_connector_or_404 os id s).1 ≡ s
  unfolding get_connector_or_404
  get_Keeps id s = ground arith

  pub get_deleted_Keeps :
      (id : ℕ) (s : DbSession) → (get_connector_including_deleted_or_404 os id s).1 ≡ s
  unfolding get_connector_including_deleted_or_404
  get_deleted_Keeps id s = ground arith

  pub create_Keeps :
      (name : String) (url : Option String) (s : DbSession)
      → Keeps s (create_connector os name url s).1
  unfolding create_connector assert_unique_name flush_with
  create_Keeps name url s = ground arith

  pub delete_Keeps :
      (w : Wording) (c : Connector) (s : DbSession) → Keeps s (soft_delete_connector os w c s).1
  unfolding soft_delete_connector flush_with
  delete_Keeps w c s = ground arith

  pub restore_Keeps : (c : Connector) (s : DbSession) → Keeps s (restore_connector os c s).1
  unfolding restore_connector assert_unique_name assert_unique_logo_hash flush_with
  restore_Keeps c s = ground arith

  trans : (a b c : DbSession) → Keeps a b → Keeps b c → Keeps a c
  trans a b c h k = record {
    committed = k.committed ∙ h.committed;
    admin_log = k.admin_log ∙ h.admin_log;
    audit_log = k.audit_log ∙ h.audit_log;
  }

  put_Keeps : (items : List (ℕ × ℤ)) (s : DbSession) → Keeps s (put_orders os items s).1
  unfolding put_orders
  put_Keeps [] s = record { committed = refl; admin_log = refl; audit_log = refl }
  put_Keeps ((id, pos n) ∷ items) s =
      let s' : DbSession = record s {
        current = record s.current { connectors = put_order os id n s.current.connectors };
      } in
      let first_step : Keeps s s' = record {
        committed = refl;
        admin_log = refl;
        audit_log = refl;
      } in
      trans s s' (put_orders os items s').1 first_step (put_Keeps items s')
  put_Keeps ((id, negsuc n) ∷ items) s = record {
    committed = refl;
    admin_log = refl;
    audit_log = refl;
  }

  pub reorder_Keeps :
      (items : List (ℕ × ℤ)) (s : DbSession) → Keeps s (reorder_connectors os items s).1
  unfolding reorder_connectors
  reorder_Keeps items s = ground (arith, put_Keeps items s)

module _ {B F : Type 0} (os : Platform) (keys : KeyTexts) (storage : Storage B F) where
  pub clear_Keeps :
      (c : Connector) (s : Media F) → Keeps s.db (clear_connector_logo os keys storage c s).1.db
  unfolding clear_connector_logo delete_existing_logo flush_with
  clear_Keeps c s = ground arith

  pub update_Keeps :
      (name : Option String) (is_active : Option Bool) (display_order : Option ℤ) (c : Connector)
      (s : Media F)
      → Keeps s.db (update_connector os keys storage name is_active display_order c s).1.db
  unfolding update_connector assert_unique_name flush_with
  update_Keeps name is_active display_order c s = ground arith

  check_same :
      (w : Wording) (images : Images B) (c : Connector) (upload : Upload B) (s : DbSession)
      → (check_upload os keys storage w images c upload s).1 ≡ s
  unfolding check_upload assert_unique_logo_hash
  check_same w images c upload s = ground arith

  write_same :
      (images : Images B) (c : Connector) (upload : Upload B) (checked : String × String × String)
      (s : Media F)
      → (write_logo os keys storage images c upload checked s).1.db ≡ s.db
  unfolding write_logo delete_existing_logo purge_slug_siblings
  write_same images c upload (slug, ext, digest) s = ground arith

  row_Keeps :
      (row : Connector) (d : DbSession) (s : Media F)
      → s.db ≡ d
      → Keeps d ((in_db (flush_changed os row) >> pure row) s).1.db
  unfolding flush_with
  row_Keeps row d s same = ground arith

  store_Keeps :
      (images : Images B) (c : Connector) (upload : Upload B) (checked : String × String × String)
      (s : Media F)
      → Keeps s.db (store_logo os keys storage images c upload checked s).1.db
  unfolding store_logo
  store_Keeps images c upload checked s =
      let write : Admin F String = write_logo os keys storage images c upload checked in
      let flush : String → Admin F Connector = λ url.
        let row : Connector = record c { logo_url = some url; logo_sha256 = some checked.2 } in
        in_db (flush_changed os row) >> pure row in
      let same = write_same images c upload checked s in
      let still : Keeps s.db (write s).1.db = record {
        committed = ap (λ d. d.committed) same;
        admin_log = ap (λ d. d.current.admin_action_logs) same;
        audit_log = ap (λ d. d.current.audit_logs) same;
      } in
      bind_keeps (λ (s' : Media F). Keeps s.db s'.db) write flush s still
        (λ url e.
          row_Keeps (record c { logo_url = some url; logo_sha256 = some checked.2 }) s.db
            (write s).1 same)

  pub save_Keeps :
      (w : Wording) (images : Images B) (c : Connector) (upload : Upload B) (s : Media F)
      → Keeps s.db (save_connector_logo os keys storage w images c upload s).1.db
  unfolding save_connector_logo
  save_Keeps w images c upload s =
      let check : Admin F (String × String × String) =
        in_db (check_upload os keys storage w images c upload) in
      let store : String × String × String → Admin F Connector =
        λ checked. store_logo os keys storage images c upload checked in
      let same = check_same w images c upload s.db in
      let still : Keeps s.db (check s).1.db = record {
        committed = ap (λ d. d.committed) same;
        admin_log = ap (λ d. d.current.admin_action_logs) same;
        audit_log = ap (λ d. d.current.audit_logs) same;
      } in
      bind_keeps (λ (s' : Media F). Keeps s.db s'.db) check store s still
        (λ checked e.
          trans os s.db (check s).1.db (store checked (check s).1).1.db still
            (store_Keeps images c upload checked (check s).1))
