-- ===== src/Admin/Storage.antt =====
-- The storage of app/core/storage.py, as its users see it: the abstract class `Storage` over a state of
-- files, what the service keeps beside the database, and the slug and key of a logo. Python's
-- operations on texts are a record.
use ratinglift_backend_core.Common.{
  ℕ, String, Bool, Option, none, some, List, ◌<>◌, truthy, if◌then◌else◌, str_eq,
}
use ratinglift_backend_core.Exec.{Result, Exec, ok}
use ratinglift_backend_core.Platform.{Platform}
use ratinglift_backend_core.Models.{DbSession, Db, Connector}

-- objects of type `B` in stores of type `F`
pub record Storage (B F : Type 0) : Type 0 where
  -- `save`, which may raise
  pub save : String → B → Option String → F → Result String × F
  pub delete : String → F → F
  pub exists : String → F → Bool
  pub move : String → String → F → F
  pub list_prefix : String → F → List String
  pub url_for : String → String
  pub key_from_url : Option String → Option String

-- the texts of a logo's key
pub record KeyTexts : Type 0 where
  -- NFKD and then ASCII; runs of other characters than letters and digits as one `-`; `.strip("-")`
  pub ascii_only : String → String
  pub dashed : String → String
  pub strip_dashes : String → String
  -- `text[:n]`, and what follows the last "."
  pub prefix : ℕ → String → String
  pub after_dot : String → Option String

pub record Media (F : Type 0) : Type 0 where
  pub db : DbSession
  pub files : F

abbrev pub Admin : Type 0 → Type 0 → Type 0
Admin F A = Exec (Media F) A

module _ {F : Type 0} where
  abbrev pub in_db : {A : Type 0} → Db A → Admin F A
  in_db m s = let (r, d) = m s.db in (r, record s { db = d })

  abbrev pub in_files : {A : Type 0} → (F → A × F) → Admin F A
  in_files f s = let (a, files) = f s.files in (ok a, record s { files = files })

abbrev pub slug_max_len : ℕ
slug_max_len = 60

abbrev pub or_connector : String → String
or_connector s = if truthy (some s) then s else "connector"

unfoldable pub slugify : Platform → KeyTexts → String → String
slugify os keys name =
    if truthy (some name)
    then or_connector (
        keys.strip_dashes (
          keys.prefix slug_max_len
            (os.lower (keys.strip_dashes (keys.dashed (keys.ascii_only name))))))
    else "connector"

unfoldable pub logo_key : String → String → String
logo_key slug ext = "connectors/" <> slug <> "." <> ext

-- the key of a logo for this name and the extension of the old key, if there is one
unfoldable pub renamed_key : Platform → KeyTexts → String → String → Option String
renamed_key os keys name src_key = elim (keys.after_dot src_key) [
  | none ↦ none
  | some ext ↦
      if truthy (some (os.lower ext))
      then some (logo_key (slugify os keys name) (os.lower ext))
      else none
]

-- `_rename_logo_to_match_name`
unfoldable pub rename_logo :
    {B F : Type 0} → Platform → KeyTexts → Storage B F → Connector → F → Connector × F
rename_logo os keys storage connector files =
    elim (if truthy connector.logo_url then storage.key_from_url connector.logo_url else none) [
      | none ↦ (connector, files)
      | some src_key ↦ elim (renamed_key os keys connector.name src_key) [
        | none ↦ (connector, files)
        | some dst_key ↦ if str_eq dst_key src_key then (connector, files) else (
          record connector { logo_url = some (storage.url_for dst_key) },
          storage.move src_key dst_key files,
        )
      ]
    ]
