-- ===== src/Admin/Names.antt =====
-- The names in the catalogue (app/modules/admin/connectors/service.py), against the partial unique index
-- of alembic/versions/008_connectors_finalize.py.
use ratinglift_backend_core.Common.{
  ℕ, String, Bool, true, false, ◌&&◌, ◌≡◌, ◌≢◌, ◌⊎◌, refl, ap, Option, none, some, List, [], ◌∷◌,
  ◌++◌, map, arith, inl, inr, is_some, Bool-cases, first, first-none, All, All_of_map,
}
use ratinglift_backend_core.Exec.{http, integrity_error, ok, err, raise_if}
use ratinglift_backend_core.Platform.{Platform, PlatformLaws}
use ratinglift_backend_core.Models.{Connector, DbSession}
use ratinglift_backend_core.Admin.Catalog.{
  is_alive, excludes, has_name, has_image, name_index, connector_id_of, name_clash, logo_clash,
  flush_with, assert_unique_name, new_connector, create_connector,
}

first_same :
    (p q : Connector → Bool) (xs : List Connector)
    → All (λ x. p x ≡ q x) xs
    → first p xs ≡ first q xs
unfolding first
first_same p q [] h = refl
first_same p q (x ∷ xs) (e, h) = ground (arith, first_same p q xs h)

-- whether a source that is not deleted has the name, in whatever case
abbrev pub is_taken : Platform → String → List Connector → Bool
is_taken os name rows = is_some (first (λ (c : Connector). is_alive c && has_name os name c) rows)

module _ (os : Platform) (laws : PlatformLaws os) where
  fresh_excluded :
      (name : String) (id : ℕ) (rows : List Connector)
      → All (λ (c : Connector). c.id ≢ id) rows
      → All
          (λ (c : Connector).
            (is_alive c && (has_name os name c && excludes (some id) c))
            ≡ (is_alive c && has_name os name c))
          rows
  fresh_excluded name id [] h = tt
  fresh_excluded name id (c ∷ rows) (ne, h) = (ground arith, fresh_excluded name id rows h)

  all_excluded :
      (name : String) (rows : List Connector)
      → All
          (λ (c : Connector).
            (is_alive c && (has_name os name c && excludes none c))
            ≡ (is_alive c && has_name os name c))
          rows
  all_excluded name [] = tt
  all_excluded name (c ∷ rows) = (ground arith, all_excluded name rows)

  no_image :
      (id : ℕ) (rows : List Connector)
      → All
          (λ (c : Connector). (is_alive c && (has_image os none c && excludes (some id) c)) ≡ false)
          rows
  no_image id [] = tt
  no_image id (c ∷ rows) = (ground arith, no_image id rows)

  new_name_clash :
      (name : String) (url : Option String) (rows : List Connector)
      → name_clash os (new_connector os name url rows) rows ≡ is_taken os (os.strip name) rows
  unfolding name_clash new_connector
  new_name_clash name url rows =
      let id = os.new_uuid (map connector_id_of rows) in
      ap is_some (
        first_same
          (λ (c : Connector). is_alive c && (has_name os (os.strip name) c && excludes (some id) c))
          (λ (c : Connector). is_alive c && has_name os (os.strip name) c) rows
          (fresh_excluded (os.strip name) id rows (
            All_of_map (λ u. u ≢ id) connector_id_of rows
              (laws.new_uuid_fresh (map connector_id_of rows)))))

  new_logo_clash :
      (name : String) (url : Option String) (rows : List Connector)
      → logo_clash os (new_connector os name url rows) rows ≡ false
  unfolding logo_clash new_connector
  new_logo_clash name url rows =
      let id = os.new_uuid (map connector_id_of rows) in
      ap is_some (
        first-none (λ (c : Connector). is_alive c && (has_image os none c && excludes (some id) c))
          rows (no_image id rows))

  asserted :
      (name : String) (s : DbSession)
      → assert_unique_name os name none s
        ≡ raise_if
            (is_taken os name s.current.connectors)
            (http 409 "A connector with this name already exists")
            s
  unfolding assert_unique_name
  asserted name s =
      ap (λ b. raise_if (is_some b) (http 409 "A connector with this name already exists") s)
        (first_same (λ (c : Connector). is_alive c && (has_name os name c && excludes none c))
          (λ (c : Connector). is_alive c && has_name os name c) s.current.connectors
          (all_excluded name s.current.connectors))

  -- A new source: 409 if its name, as it was given, is taken; a broken unique index, which no handler
  -- catches, if only the name without the spaces around it is taken; and otherwise success, with a row of
  -- the stripped name. Only the last changes anything.
  pub create_connector_lem :
      (name : String) (url : Option String) (s : DbSession)
      → let (r, s') = create_connector os name url s in
        let rows = s.current.connectors in
        ((is_taken os name rows ≡ true)
          × (r ≡ err (http 409 "A connector with this name already exists"))
          × (s' ≡ s))
        ⊎ ((is_taken os name rows ≡ false)
            × (is_taken os (os.strip name) rows ≡ true)
            × (r ≡ err (integrity_error name_index))
            × (s' ≡ s))
        ⊎ ((is_taken os name rows ≡ false)
            × (is_taken os (os.strip name) rows ≡ false)
            × (row : Connector) × (r ≡ ok row)
            × (row.name ≡ os.strip name)
            × (s' ≡ record s { current = record s.current { connectors = rows ++ row ∷ [] } }))
  unfolding create_connector flush_with new_connector
  create_connector_lem name url s =
      let rows = s.current.connectors in
      let check = asserted name s in
      let row = new_connector os name url rows in
      let clash = new_name_clash name url rows in
      let image = new_logo_clash name url rows in
      elim (Bool-cases (is_taken os name rows)) [
        | inl taken ↦ inl (taken, ground (arith, check, taken), ground (arith, check, taken))
        | inr free ↦ elim (Bool-cases (is_taken os (os.strip name) rows)) [
          | inl padded ↦ inr (
              inl (
                free,
                padded,
                ground (arith, check, free, clash, padded),
                ground (arith, check, free, clash, padded),
              ))
          | inr fresh ↦ inr (
              inr (
                free,
                fresh,
                row,
                ground (arith, check, free, clash, fresh, image),
                refl,
                ground (arith, check, free, clash, fresh, image),
              ))
        ]
      ]
