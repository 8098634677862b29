-- ===== src/Admin/FileMap.antt =====
-- The local storage as a map from paths to contents (app/core/storage.py).
use ratinglift_backend_core.Common.{
  String, Bool, false, not, ◌&&◌, Option, none, some, str_eq, if◌then◌else◌, is_some,
}

-- What a storage promises: contents by path, and no change for a key that has no path.
abbrev pub Contents : Type 0 → Type 0
Contents B = String → Option B

module _ {B : Type 0} where
  abbrev pub put : Option String → B → Contents B → Contents B
  put none bytes m path = m path
  put (some at) bytes m path = if str_eq at path then some bytes else m path

  abbrev pub removed : Option String → Contents B → Contents B
  removed none m path = m path
  removed (some at) m path = if str_eq at path then none else m path

  abbrev pub moved : Option String → Option String → Contents B → Contents B
  moved none dst m path = m path
  moved (some src) none m path = m path
  moved (some src) (some dst) m path =
      if is_some (m src) && not (str_eq src dst)
      then (if str_eq dst path then m src else if str_eq src path then none else m path)
      else m path

  abbrev pub has : Option String → Contents B → Bool
  has none m = false
  has (some at) m = is_some (m at)
