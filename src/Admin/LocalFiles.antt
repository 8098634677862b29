-- ===== src/Admin/LocalFiles.antt =====
-- The backend `LocalFilesystemStorage` of app/core/storage.py, and the addresses of `S3Storage` there.
-- What `pathlib` makes of a key comes in as a record; files are an association list by path, whose
-- newest entry for a path counts. Operations of the file system are taken to succeed.
use Prim.Native.String.{[] as empty_text, ◌∷◌ as chars}
use Prim.Native.Char.{code}
use ratinglift_backend_core.Common.{
  String, Bool, false, not, ◌&&◌, ◌||◌, Option, none, some, List, [], ◌∷◌, map, ◌==◌, ◌<>◌, str_eq,
  is_some, truthy, if◌then◌else◌, first, select,
}
use ratinglift_backend_core.Exec.{Error, Result, ok, err, value_error}
use ratinglift_backend_core.Admin.Storage.{Storage}

pub record Paths : Type 0 where
  -- `key.replace("\\", "/").lstrip("/")`, and whether `..` is one of its segments
  pub clean : String → String
  pub has_parent : String → Bool
  -- the resolved path below the root, if it is below the root
  pub resolve : String → Option String
  -- the text of the `ValueError` of `relative_to`, for a path that is not
  pub escape_text : String → String
  -- whether `path.parent.glob(name + "*")` of the prefix gives the path; `"/" in text`
  pub globs : String → String → Bool
  pub has_slash : String → Bool

-- `text.lstrip("/")`
unfoldable pub drop_slashes : String → String
drop_slashes empty_text = ""
drop_slashes (chars c s) = if code c == 47 then drop_slashes s else chars c s

-- what follows a prefix, if the text starts with it
unfoldable pub after_prefix : String → String → Option String
after_prefix empty_text s = some s
after_prefix (chars c p) empty_text = none
after_prefix (chars c p) (chars d s) = if code c == code d then after_prefix p s else none

-- `url.startswith(prefix)` and the rest of the address
abbrev pub rest_of : String → Option String → Option String
rest_of prefix none = none
rest_of prefix (some url) = if truthy (some url) then after_prefix prefix url else none

abbrev pub Files : Type 0 → Type 0
Files B = List (String × B)

-- `_path`; `none` is the `ValueError`
unfoldable pub path_of : Paths → String → Option String
path_of paths key =
    let clean = paths.clean key in
    if not (truthy (some clean)) || paths.has_parent clean then none else paths.resolve clean

-- the `ValueError` for a key that has no path
abbrev pub path_error : Paths → String → Error
path_error paths key =
    let clean = paths.clean key in
    value_error (
      if not (truthy (some clean)) || paths.has_parent clean
      then "invalid key"
      else paths.escape_text key)

-- with the prefix of the addresses, which starts with a slash and ends without one
unfoldable pub url_for_local : String → String → String
url_for_local url_prefix key = url_prefix <> "/" <> drop_slashes key

unfoldable pub key_from_url_local : String → Option String → Option String
key_from_url_local url_prefix url = rest_of (url_prefix <> "/") url

module _ {B : Type 0} where
  -- the content at a path
  abbrev pub content : String → Files B → Option B
  content path files = elim (first (λ (e : String × B). str_eq e.0 path) files) [
    | none ↦ none
    | some e ↦ some e.1
  ]

  unfoldable pub unlink : String → Files B → Files B
  unlink path [] = []
  unlink path (e ∷ files) = if str_eq e.0 path then unlink path files else e ∷ unlink path files

  module _ (paths : Paths) where
    unfoldable pub exists_local : String → Files B → Bool
    exists_local key files = elim (path_of paths key) [
      | none ↦ false
      | some path ↦ is_some (content path files)
    ]

    unfoldable pub delete_local : String → Files B → Files B
    delete_local key files = elim (path_of paths key) [
      | none ↦ files
      | some path ↦ unlink path files
    ]

    abbrev pub move_path : String → String → Files B → Files B
    move_path src dst files = elim (content src files) [
      | none ↦ files
      | some bytes ↦ if str_eq src dst then files else (dst, bytes) ∷ unlink src (unlink dst files)
    ]

    abbrev pub move_to : Option String → String → Files B → Files B
    move_to none src files = files
    move_to (some dst) src files = move_path src dst files

    unfoldable pub move_local : String → String → Files B → Files B
    move_local src_key dst_key files = elim (path_of paths src_key) [
      | none ↦ files
      | some src ↦ move_to (path_of paths dst_key) src files
    ]

    unfoldable pub list_local : String → Files B → List String
    list_local prefix files =
        if paths.has_slash prefix && not (is_some (path_of paths prefix))
        then []
        else map (λ (e : String × B). e.0)
            (select (λ (e : String × B). paths.globs prefix e.0) files)

    unfoldable pub save_local :
        String → String → B → Option String → Files B → Result String × Files B
    save_local url_prefix key bytes content_type files = elim (path_of paths key) [
      | none ↦ (err (path_error paths key), files)
      | some path ↦ (ok (url_for_local url_prefix key), (path, bytes) ∷ unlink path files)
    ]

    abbrev pub local_storage : String → Storage B (Files B)
    local_storage url_prefix = record {
      save = save_local url_prefix;
      delete = delete_local;
      exists = exists_local;
      move = move_local;
      list_prefix = list_local;
      url_for = url_for_local url_prefix;
      key_from_url = key_from_url_local url_prefix;
    }

-- `S3Storage`: the addresses
unfoldable pub full_key : String → String → String
full_key key_prefix key =
    if truthy (some key_prefix) then key_prefix <> "/" <> drop_slashes key else drop_slashes key

unfoldable pub url_for_s3 : String → String → String → String
url_for_s3 url_base key_prefix key = url_base <> "/" <> full_key key_prefix key

abbrev pub or_full : Option String → String → String
or_full none full = full
or_full (some key) full = key

abbrev pub without_prefix : String → String → String
without_prefix key_prefix full =
    if truthy (some key_prefix) then or_full (after_prefix (key_prefix <> "/") full) full else full

unfoldable pub key_from_url_s3 : String → String → Option String → Option String
key_from_url_s3 url_base key_prefix url = elim (rest_of (url_base <> "/") url) [
  | none ↦ none
  | some full ↦ some (without_prefix key_prefix full)
]
