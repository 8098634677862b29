-- ===== src/Common/Tables.antt =====
-- A database table as the list of its rows, and the queries and updates of the object-relational
-- mapper: `query.filter(p).first()`, `.all()`, `.count()`, and the flush of a changed row.
use Prim.Native.Nat.{ℕ, suc}
use mathlib.Core.Path.{◌≡◌, refl, sym, ap}
use mathlib.Core.Bool.{Bool, true, false, ◌&&◌}
use mathlib.Core.Logic.{◌≢◌, inl, inr}
use mathlib.Core.Option.{Option, none, some}
use mathlib.Core.List.{List, [], ◌∷◌, ◌++◌}
use native.Mathlib.Omega.{arith}
use ratinglift_backend_core.Common.Tests.{◌==◌, if◌then◌else◌, Bool-cases}
use ratinglift_backend_core.Common.Lists.{All, length}

module _ {A : Type 0} where
  -- `query.filter(p).first()`
  unfoldable pub first : (A → Bool) → List A → Option A
  first p [] = none
  first p (x ∷ xs) = if p x then some x else first p xs

  -- `query.filter(p).all()`
  unfoldable pub select : (A → Bool) → List A → List A
  select p [] = []
  select p (x ∷ xs) = if p x then x ∷ select p xs else select p xs

  -- `func.count(…)` over a filtered query
  abbrev pub count : (A → Bool) → List A → ℕ
  count p xs = length (select p xs)

  pub first_sound : (p : A → Bool) (xs : List A) (r : A) → first p xs ≡ some r → p r ≡ true
  unfolding first
  first_sound p [] r e = cc
  first_sound p (x ∷ xs) r e = elim (Bool-cases (p x)) [
    | inl yes_x ↦ ground (arith, yes_x)
    | inr no_x ↦ first_sound p xs r (ground arith)
  ]

  pub first-All :
      (P : A → Type 0) (p : A → Bool) (xs : List A) (r : A) → first p xs ≡ some r → All P xs → P r
  unfolding first
  first-All P p [] r e h = absurd (cc e)
  first-All P p (x ∷ xs) r e (k, h) = elim (Bool-cases (p x)) [
    | inl here ↦ let same : x ≡ r = ground arith in rw same at k
    | inr later ↦ first-All P p xs r (ground arith) h
  ]

  pub first-All_none : (p : A → Bool) (xs : List A) → first p xs ≡ none → All (λ x. p x ≡ false) xs
  unfolding first
  first-All_none p [] e = tt
  first-All_none p (x ∷ xs) e = (ground arith, first-All_none p xs (ground arith))

  pub first-none : (p : A → Bool) (xs : List A) → All (λ x. p x ≡ false) xs → first p xs ≡ none
  unfolding first
  first-none p [] h = refl
  first-none p (x ∷ xs) (e, h) = ground (arith, first-none p xs h)

  pub select_sound : (p : A → Bool) (xs : List A) → All (λ x. p x ≡ true) (select p xs)
  unfolding select
  select_sound p [] = tt
  select_sound p (x ∷ xs) = elim (Bool-cases (p x)) [
    | inl keep ↦ rw keep (keep, select_sound p xs)
    | inr leave ↦ rw leave (select_sound p xs)
  ]

  pub select-All : (P : A → Type 0) (p : A → Bool) (xs : List A) → All P xs → All P (select p xs)
  unfolding select
  select-All P p [] h = tt
  select-All P p (x ∷ xs) (k, h) = elim (Bool-cases (p x)) [
    | inl keep ↦ rw keep (k, select-All P p xs h)
    | inr leave ↦ rw leave (select-All P p xs h)
  ]

  pub select-append :
      (p : A → Bool) (xs : List A) (y : A)
      → select p (xs ++ y ∷ []) ≡ (if p y then select p xs ++ y ∷ [] else select p xs)
  unfolding select
  select-append p [] y = refl
  select-append p (x ∷ xs) y = ground (arith, select-append p xs y)

  pub first-select :
      (p q : A → Bool) (xs : List A) → first p (select q xs) ≡ first (λ x. q x && p x) xs
  unfolding first select
  first-select p q [] = refl
  first-select p q (x ∷ xs) = ground (arith, first-select p q xs)

  pub first-append :
      (p : A → Bool) (xs : List A) (y : A)
      → first p xs ≡ none
      → first p (xs ++ y ∷ []) ≡ (if p y then some y else none)
  unfolding first
  first-append p [] y e = refl
  first-append p (x ∷ xs) y e = ground (arith, first-append p xs y)

module _ {A : Type 0} (key : A → ℕ) where
  -- The row with the primary key of `row` is replaced by `row`.
  unfoldable pub save : A → List A → List A
  save row [] = []
  save row (x ∷ xs) = (if key x == key row then row else x) ∷ save row xs

  -- The row with this primary key is deleted.
  unfoldable pub delete_row : ℕ → List A → List A
  delete_row k [] = []
  delete_row k (x ∷ xs) = if key x == k then delete_row k xs else x ∷ delete_row k xs

  -- No two rows have the same primary key.
  abbrev pub HasUniqueKeys : List A → Type 0
  HasUniqueKeys [] = Unit
  HasUniqueKeys (x ∷ xs) = All (λ y. key y ≢ key x) xs × HasUniqueKeys xs

  pub All-save : (P : A → Type 0) (row : A) (xs : List A) → P row → All P xs → All P (save row xs)
  unfolding save
  All-save P row [] p h = tt
  All-save P row (x ∷ xs) p (q, h) = elim (Bool-cases (key x == key row)) [
    | inl same ↦ rw same (p, All-save P row xs p h)
    | inr other ↦ rw other (q, All-save P row xs p h)
  ]

  pub length-save : (row : A) (xs : List A) → length (save row xs) ≡ length xs
  unfolding save
  length-save row [] = refl
  length-save row (x ∷ xs) = ap suc (length-save row xs)

  pub save_fresh : (row : A) (xs : List A) → All (λ y. key y ≢ key row) xs → save row xs ≡ xs
  unfolding save
  save_fresh row [] h = refl
  save_fresh row (x ∷ xs) (ne, h) = ground (arith, save_fresh row xs h)

  save-HasUniqueKeys_head :
      (row : A) (k : ℕ) (xs : List A) → All (λ y. key y ≢ k) xs → All (λ y. key y ≢ k) (save row xs)
  unfolding save
  save-HasUniqueKeys_head row k [] h = tt
  save-HasUniqueKeys_head row k (x ∷ xs) (ne, h) = elim (Bool-cases (key x == key row)) [
    | inl same ↦ rw same (ground arith, save-HasUniqueKeys_head row k xs h)
    | inr other ↦ rw other (ne, save-HasUniqueKeys_head row k xs h)
  ]

  pub save-HasUniqueKeys : (row : A) (xs : List A) → HasUniqueKeys xs → HasUniqueKeys (save row xs)
  unfolding save
  save-HasUniqueKeys row [] h = tt
  save-HasUniqueKeys row (x ∷ xs) (ne, h) = elim (Bool-cases (key x == key row)) [
    | inl same ↦
        let e : key x ≡ key row = ground arith in
        rw same (save-HasUniqueKeys_head row (key row) xs (rw e at ne), save-HasUniqueKeys row xs h)
    | inr other ↦ rw other (save-HasUniqueKeys_head row (key x) xs ne, save-HasUniqueKeys row xs h)
  ]

  -- Saving a row over the row `r` that a query found leaves every query that excludes both alone.
  pub select-save :
      (p q : A → Bool) (row r : A) (xs : List A)
      → HasUniqueKeys xs
      → first p xs ≡ some r
      → key row ≡ key r
      → q r ≡ false
      → q row ≡ false
      → select q (save row xs) ≡ select q xs
  unfolding first select save
  select-save p q row r [] u e k qr qrow = cc
  select-save p q row r (x ∷ xs) (ne, u) e k qr qrow = elim (Bool-cases (p x)) [
    | inl here ↦
        let same : x ≡ r = ground arith in
        let rest : save row xs ≡ xs = save_fresh row xs (rw (same, ← k) at ne) in
        ground (arith, rest)
    | inr later ↦
        let found : first p xs ≡ some r = ground arith in
        let differ : key r ≢ key x = first-All (λ y. key y ≢ key x) p xs r found ne in
        ground (arith, select-save p q row r xs u found k qr qrow)
  ]

  -- A query by a test that the saved row passes and that fixes the primary key finds that row.
  pub first-save :
      (p q : A → Bool) (row r : A) (xs : List A)
      → HasUniqueKeys xs
      → first p xs ≡ some r
      → key row ≡ key r
      → q row ≡ true
      → ((y : A) → q y ≡ true → key y ≡ key row)
      → first q (save row xs) ≡ some row
  unfolding first save
  first-save p q row r [] u e k qrow fixes = cc
  first-save p q row r (x ∷ xs) (ne, u) e k qrow fixes = elim (Bool-cases (p x)) [
    | inl here ↦ let same : x ≡ r = ground arith in ground arith
    | inr later ↦
        let found : first p xs ≡ some r = ground arith in
        let differ : key r ≢ key x = first-All (λ y. key y ≢ key x) p xs r found ne in
        ground (arith, fixes x, first-save p q row r xs u found k qrow fixes)
  ]

  -- A query finds the row that was saved over what it found before.
  pub first-save_same :
      (p : A → Bool) (row r : A) (xs : List A)
      → first p xs ≡ some r
      → key row ≡ key r
      → p row ≡ true
      → first p (save row xs) ≡ some row
  unfolding first save
  first-save_same p row r [] e k h = cc e
  first-save_same p row r (x ∷ xs) e k h = elim (Bool-cases (p x)) [
    | inl here ↦ let same : x ≡ r = ground arith in ground arith
    | inr later ↦ ground (arith, first-save_same p row r xs (ground arith) k h)
  ]

  -- A row that a narrower query finds is found by its primary key alone.
  pub first_by_key :
      (q : A → Bool) (r : A) (xs : List A)
      → HasUniqueKeys xs
      → first (λ x. q x && (key x == key r)) xs ≡ some r
      → first (λ x. key x == key r) xs ≡ some r
  unfolding first
  first_by_key q r [] u e = cc e
  first_by_key q r (x ∷ xs) (ne, u) e = elim (Bool-cases (q x && (key x == key r))) [
    | inl here ↦ let same : x ≡ r = ground arith in ground arith
    | inr later ↦
        let found : first (λ x. q x && (key x == key r)) xs ≡ some r = ground arith in
        let differ : key r ≢ key x = first-All (λ y. key y ≢ key x) _ xs r found ne in
        ground (arith, first_by_key q r xs u found)
  ]

  pub append-HasUniqueKeys :
      (row : A) (xs : List A)
      → All (λ y. key y ≢ key row) xs
      → HasUniqueKeys xs
      → HasUniqueKeys (xs ++ row ∷ [])
  append-HasUniqueKeys row [] h u = (tt, tt)
  append-HasUniqueKeys row (x ∷ xs) (ne, h) (d, u) =
      (ne_append xs d, append-HasUniqueKeys row xs h u)
    where
      ne_append :
          (ys : List A) → All (λ y. key y ≢ key x) ys → All (λ y. key y ≢ key x) (ys ++ row ∷ [])
      ne_append [] t = (λ e. absurd (ne (sym e)), tt)
      ne_append (y ∷ ys) (n, t) = (n, ne_append ys t)
