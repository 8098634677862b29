-- ===== src/Values.antt =====
-- Python values as the program stores them in JSON columns: before/after values of audit rows and
-- the configuration of a binding (app/modules/audit/service.py, app/db/models).
use ratinglift_backend_core.Common.{
  ℕ, suc, String, Bool, true, false, ◌&&◌, Option, none, some, List, [], ◌∷◌, ◌==◌, str_eq,
  if◌then◌else◌,
}

mutual
  pub data Value : Type 0 where
    null : Value
    bool : Bool → Value
    int : ℕ → Value
    str : String → Value
    uuid : ℕ → Value
    datetime : ℕ → Value
    seq : Items → Value
    dict : Fields → Value

  pub data Items : Type 0 where
    nil : Items
    cons : Value → Items → Items

  pub data Fields : Type 0 where
    end : Fields
    field : String → Value → Fields → Fields

-- `d.get(k)`
pub find_field : String → Fields → Option Value
find_field k end = none
find_field k (field j v fs) = if str_eq j k then some v else find_field k fs

pub size_fields : Fields → ℕ
size_fields end = 0
size_fields (field j v fs) = suc (size_fields fs)

abbrev pub texts : List String → Items
texts [] = nil
texts (s ∷ ss) = cons (str s) (texts ss)

abbrev pub opt_str : Option String → Value
opt_str none = null
opt_str (some s) = str s

abbrev pub opt_texts : Option (List String) → Value
opt_texts none = null
opt_texts (some ss) = seq (texts ss)

abbrev pub opt_value : Option Value → Value
opt_value none = null
opt_value (some v) = v

abbrev found : (Value → Bool) → Option Value → Bool
found test none = false
found test (some v) = test v

-- Python's `==` on these values; the order of a dict's keys does not count.
unfoldable mutual
  unfolding find_field size_fields

  pub value_eq : Value → Value → Bool
  value_eq null null = true
  value_eq (bool true) (bool true) = true
  value_eq (bool false) (bool false) = true
  value_eq (int m) (int n) = m == n
  value_eq (str s) (str t) = str_eq s t
  value_eq (uuid m) (uuid n) = m == n
  value_eq (datetime m) (datetime n) = m == n
  value_eq (seq xs) (seq ys) = items_eq xs ys
  value_eq (dict fs) (dict gs) = (size_fields fs == size_fields gs) && fields_in fs gs
  value_eq _ _ = false

  pub items_eq : Items → Items → Bool
  items_eq nil nil = true
  items_eq (cons x xs) (cons y ys) = value_eq x y && items_eq xs ys
  items_eq _ _ = false

  -- every entry of the first dict is one of the second
  pub fields_in : Fields → Fields → Bool
  fields_in end gs = true
  fields_in (field k v fs) gs = found (value_eq v) (find_field k gs) && fields_in fs gs
