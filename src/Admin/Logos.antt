-- ===== src/Admin/Logos.antt =====
-- Logos in app/modules/admin/connectors/service.py: the checks of an upload, the files in the storage,
-- and `update_connector`, which renames them. Bytes, Pillow, SHA-256, regular expressions and paths
-- come in as a record.
use ratinglift_backend_core.Common.{
  ⊤, ℕ, String, Bool, false, not, ◌&&◌, ◌||◌, Option, none, some, List, [], ◌∷◌, ltb, ◌==◌, ◌<>◌,
  str_eq, opt_eq, is_some, truthy, if◌then◌else◌, first,
}
use ratinglift_backend_core.Exec.{http, Result, ok, err, pure, lift, raise_if, ◌>>=◌, ◌>>◌}
use ratinglift_backend_core.Platform.{Platform}
use ratinglift_backend_core.Models.{Connector, Db}
use ratinglift_backend_core.Property.Listing.{ℤ}
use ratinglift_backend_core.Admin.Storage.{
  Storage, KeyTexts, Admin, in_db, in_files, slugify, logo_key, rename_logo,
}
use ratinglift_backend_core.Admin.Catalog.{
  Wording, natural, order_detail, assert_unique_name, assert_unique_logo_hash, flush_changed,
}

pub record Images (B : Type 0) : Type 0 where
  pub size : B → ℕ
  pub sha256 : B → String
  -- whether the head starts with `<?xml` or `<svg`, and whether `<svg` comes early
  pub looks_like_xml : B → Bool
  pub has_svg_tag : B → Bool
  -- Pillow's format in upper case, width and height, if it opens and verifies the bytes
  pub opened : B → Option (String × ℕ × ℕ)
  -- `Path(filename).suffix.lower().lstrip(".")`
  pub suffix : String → String
  -- whether the name has only letters, digits, `_`, `.` and `-`; without the characters not in `A-Za-z0-9_-`
  pub is_safe_name : String → Bool
  pub only_safe : String → String
  pub ends_with : String → String → Bool
  pub max_bytes : ℕ
  pub max_pixels : ℕ

pub record Upload (B : Type 0) : Type 0 where
  pub file_bytes : B
  pub filename : Option String
  pub content_type : Option String

unfoldable pub content_type_ext : String → Option String
content_type_ext t =
    if str_eq t "image/png"
    then some "png"
    else if str_eq t "image/jpeg"
    then some "jpg"
    else if str_eq t "image/jpg"
    then some "jpg"
    else if str_eq t "image/svg+xml"
    then some "svg"
    else if str_eq t "image/webp"
    then some "webp"
    else none

unfoldable pub suffix_ext : String → Option String
suffix_ext s =
    if str_eq s "jpeg"
    then some "jpg"
    else if str_eq s "png" || str_eq s "jpg" || str_eq s "svg" || str_eq s "webp"
    then some s
    else none

unfoldable pub format_ext : String → Option String
format_ext f =
    if str_eq f "PNG"
    then some "png"
    else if str_eq f "JPEG"
    then some "jpg"
    else if str_eq f "WEBP"
    then some "webp"
    else none

abbrev pub given : Option String → Option String
given none = none
given (some s) = if truthy (some s) then some s else none

abbrev then_ext : (String → Option String) → Option String → Option String
then_ext f none = none
then_ext f (some s) = f s

abbrev or_ext : Option String → Option String → Option String
or_ext none b = b
or_ext (some a) b = some a

module _ {B : Type 0} (os : Platform) (images : Images B) where
  unfoldable pub safe_extension : Option String → Option String → Result String
  safe_extension filename content_type =
      let by_type = then_ext (λ t. content_type_ext (os.lower t)) (given content_type) in
      let by_name = then_ext (λ n. suffix_ext (images.suffix n)) (given filename) in
      elim (or_ext by_type by_name) [
        | some ext ↦ ok ext
        | none ↦ err (http 415 "Unsupported logo type. Allowed: png, jpg, svg, webp.")
      ]

  unfoldable pub validate_raster : Wording → String → String × ℕ × ℕ → Result String
  validate_raster w declared_ext (format, width, height) = elim (format_ext format) [
    | none ↦ err (http 415 "Unsupported image format")
    | some actual_ext ↦
        if not (str_eq actual_ext declared_ext)
        then err (
            http 415 (
              "Image content (" <> actual_ext <> ") does not match declared type (" <> declared_ext
              <> ")"))
        else if not (images.max_pixels == 0)
            && (ltb images.max_pixels width || ltb images.max_pixels height)
        then err (
            http 413 (
              "Image dimensions exceed "
              <> w.decimal images.max_pixels
              <> "px (got "
              <> w.decimal width
              <> "x"
              <> w.decimal height
              <> ")"))
        else ok actual_ext
  ]

  unfoldable pub validate_image_bytes : Wording → B → String → Result String
  validate_image_bytes w file_bytes declared_ext =
      if str_eq declared_ext "svg"
      then (if images.looks_like_xml file_bytes && images.has_svg_tag file_bytes
          then ok "svg"
          else err (http 415 "File does not look like a valid SVG image"))
      else elim (images.opened file_bytes) [
        | none ↦ err (http 415 "File is not a valid image")
        | some image ↦ validate_raster w declared_ext image
      ]

abbrev refers : Option String → Option String → Bool
refers column none = false
refers column (some v) = truthy (some v) && opt_eq str_eq column (some v)

-- `_is_logo_referenced_by_others`
unfoldable pub is_referenced : ℕ → Option String → Option String → List Connector → Bool
is_referenced id logo_url logo_sha256 rows = is_some (
    first
      (λ (c : Connector).
        not (c.id == id) && (refers c.logo_url logo_url || refers c.logo_sha256 logo_sha256))
      rows)

module _ {B F : Type 0} (os : Platform) (keys : KeyTexts) (storage : Storage B F) where
  unfoldable pub delete_existing_logo : Connector → Admin F ⊤
  delete_existing_logo c s =
      elim (if truthy c.logo_url then storage.key_from_url c.logo_url else none) [
        | none ↦ (ok tt, s)
        | some key ↦
            if is_referenced c.id c.logo_url c.logo_sha256 s.db.current.connectors
            then (ok tt, s)
            else (ok tt, record s { files = storage.delete key s.files })
      ]

  unfoldable pub purge_keys : Images B → Connector → String → List String → List Connector → F → F
  purge_keys images c keep [] rows files = files
  purge_keys images c keep (key ∷ rest) rows files =
      let after =
        if (images.ends_with ("/" <> keep) key || str_eq key ("connectors/" <> keep))
          || is_referenced c.id (some (storage.url_for key)) none rows
        then files
        else storage.delete key files in
      purge_keys images c keep rest rows after

  -- `_purge_slug_siblings`
  unfoldable pub purge_slug_siblings : Images B → Connector → String → String → Admin F ⊤
  purge_slug_siblings images c slug keep s =
      let safe_slug = images.only_safe slug in
      if not (truthy (some safe_slug)) then (ok tt, s) else (
        ok tt,
        record s {
          files =
              purge_keys images c keep
                (storage.list_prefix ("connectors/" <> safe_slug <> ".") s.files)
                s.db.current.connectors s.files;
        },
      )

  -- the checks of `save_connector_logo`: the slug and the extension of the file, and its digest
  unfoldable pub check_upload :
      Wording → Images B → Connector → Upload B → Db (String × String × String)
  check_upload w images connector upload = do
    raise_if (images.size upload.file_bytes == 0) (http 400 "Empty file")
    raise_if (ltb images.max_bytes (images.size upload.file_bytes))
        (http 413 ("Logo too large (max " <> w.decimal images.max_bytes <> " bytes)"))
    declared ← lift (safe_extension os images upload.filename upload.content_type)
    ext ← lift (validate_image_bytes os images w upload.file_bytes declared)
    let digest : String = images.sha256 upload.file_bytes
    assert_unique_logo_hash os digest (some connector.id)
    let slug : String = slugify os keys connector.name
    raise_if (not (images.is_safe_name (slug <> "." <> ext))) (http 400 "Invalid filename")
    pure (slug, ext, digest)

  abbrev save_file : String → Upload B → Admin F String
  save_file key upload s =
      let (r, files) = storage.save key upload.file_bytes upload.content_type s.files in
      (r, record s { files = files })

  -- what `save_connector_logo` does to the files for an upload that passed
  unfoldable pub write_logo :
      Images B → Connector → Upload B → String × String × String → Admin F String
  write_logo images connector upload (slug, ext, digest) = do
    delete_existing_logo connector
    purge_slug_siblings images connector slug (slug <> "." <> ext)
    save_file (logo_key slug ext) upload

  -- and then to the row
  unfoldable pub store_logo :
      Images B → Connector → Upload B → String × String × String → Admin F Connector
  store_logo images connector upload checked = do
    public_url ← write_logo images connector upload checked
    let row : Connector = record connector {
      logo_url = some public_url;
      logo_sha256 = some checked.2;
    }
    in_db (flush_changed os row)
    pure row

  unfoldable pub save_connector_logo : Wording → Images B → Connector → Upload B → Admin F Connector
  save_connector_logo w images connector upload = do
    checked ← in_db (check_upload w images connector upload)
    store_logo images connector upload checked

  unfoldable pub clear_connector_logo : Connector → Admin F Connector
  clear_connector_logo connector = do
    delete_existing_logo connector
    let row : Connector = record connector { logo_url = none; logo_sha256 = none }
    in_db (flush_changed os row)
    pure row

  -- the new name, if it differs once stripped
  abbrev pub new_name : Option String → Connector → Option String
  new_name none c = none
  new_name (some name) c = if str_eq (os.strip name) c.name then none else some (os.strip name)

  abbrev rename_to : Option String → Connector → Admin F Connector
  rename_to none connector = pure connector
  rename_to (some name) connector = do
    in_db (assert_unique_name os name (some connector.id))
    in_files (rename_logo os keys storage (record connector { name = name }))

  abbrev or_bool : Option Bool → Bool → Bool
  or_bool none b = b
  or_bool (some a) b = a

  abbrev ordered : Option ℤ → Connector → Result Connector
  ordered none c = ok c
  ordered (some z) c = elim (natural z) [
    | none ↦ err (http 400 order_detail)
    | some n ↦ ok (record c { display_order = n })
  ]

  -- `update_connector`; no caller gives it a `logo_url`
  unfoldable pub update_connector :
      Option String → Option Bool → Option ℤ → Connector → Admin F Connector
  update_connector name is_active display_order connector = do
    renamed ← rename_to (new_name name connector) connector
    row ←
        lift (
          ordered display_order
            (record renamed { is_active = or_bool is_active renamed.is_active }))
    in_db (flush_changed os row)
    pure row
