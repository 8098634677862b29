-- ===== src/Audit/JsonSafe.antt =====
-- `log_action` and its `_json_safe`, of app/modules/audit/service.py: the values it stores are JSON. Rows
-- that other code adds to the audit log by itself do not pass through here.
use ratinglift_backend_core.Common.{Bool, true, false, ◌&&◌, ◌≡◌, ◌↔◌, refl, ap, arith}
use mathlib.Core.Path.{ap₂}
use ratinglift_backend_core.Platform.{Platform}
use ratinglift_backend_core.Values.{
  Value, Items, Fields, null, bool, int, str, uuid, datetime, seq, dict, nil, cons, end, field,
}
use ratinglift_backend_core.Audit.{json_safe, json_safe_items, json_safe_fields}

-- neither a UUID nor a time inside
unfoldable mutual
  pub is_json : Value → Bool
  is_json (uuid u) = false
  is_json (datetime t) = false
  is_json (seq xs) = is_json_items xs
  is_json (dict fs) = is_json_fields fs
  is_json v = true

  pub is_json_items : Items → Bool
  is_json_items nil = true
  is_json_items (cons x xs) = is_json x && is_json_items xs

  pub is_json_fields : Fields → Bool
  is_json_fields end = true
  is_json_fields (field k v fs) = is_json v && is_json_fields fs

module _ (os : Platform) where
  mutual
    unfolding is_json is_json_items is_json_fields json_safe json_safe_items json_safe_fields

    becomes_json : (v : Value) → is_json (json_safe os v) ≡ true
    becomes_json null = refl
    becomes_json (bool b) = refl
    becomes_json (int n) = refl
    becomes_json (str s) = refl
    becomes_json (uuid u) = refl
    becomes_json (datetime t) = refl
    becomes_json (seq xs) = items_become_json xs
    becomes_json (dict fs) = fields_become_json fs

    items_become_json : (xs : Items) → is_json_items (json_safe_items os xs) ≡ true
    items_become_json nil = refl
    items_become_json (cons x xs) = rw (becomes_json x) (items_become_json xs)

    fields_become_json : (fs : Fields) → is_json_fields (json_safe_fields os fs) ≡ true
    fields_become_json end = refl
    fields_become_json (field k v fs) = rw (becomes_json v) (fields_become_json fs)

  mutual
    unfolding is_json is_json_items is_json_fields json_safe json_safe_items json_safe_fields

    stays_json : (v : Value) → is_json v ≡ true → json_safe os v ≡ v
    stays_json null h = refl
    stays_json (bool b) h = refl
    stays_json (int n) h = refl
    stays_json (str s) h = refl
    stays_json (uuid u) h = absurd (ground arith)
    stays_json (datetime t) h = absurd (ground arith)
    stays_json (seq xs) h = ap seq (items_stay_json xs h)
    stays_json (dict fs) h = ap dict (fields_stay_json fs h)

    items_stay_json : (xs : Items) → is_json_items xs ≡ true → json_safe_items os xs ≡ xs
    items_stay_json nil h = refl
    items_stay_json (cons x xs) h =
        ap₂ cons (stays_json x (ground arith)) (items_stay_json xs (ground arith))

    fields_stay_json : (fs : Fields) → is_json_fields fs ≡ true → json_safe_fields os fs ≡ fs
    fields_stay_json end h = refl
    fields_stay_json (field k v fs) h =
        ap₂ (field k) (stays_json v (ground arith)) (fields_stay_json fs (ground arith))

  -- What is stored for a value: JSON, which stays as it is; and for exactly the values that are JSON
  -- already, the value itself.
  abbrev pub IsStored : Value → Value → Type 0
  IsStored v stored =
      (is_json stored ≡ true) × ((is_json v ≡ true) ↔ (stored ≡ v)) × (json_safe os stored ≡ stored)
