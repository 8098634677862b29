-- ===== src/Admin/Reorder.antt =====
-- The bulk change of the order in which sources are shown (app/modules/admin/connectors/service.py).
use ratinglift_backend_core.Common.{
  ℕ, suc, true, ◌≡◌, ◌≢◌, ◌⊎◌, refl, sym, ap, ◌∙◌, List, [], ◌∷◌, map, arith, inl, inr, ltb, ◌==◌,
  ◌<>◌, length, if◌then◌else◌, Bool-cases,
}
use ratinglift_backend_core.Exec.{http, ok, err, gets, ◌>>◌, bind_run}
use ratinglift_backend_core.Platform.{Platform}
use ratinglift_backend_core.Models.{Connector, DbSession, Db}
use ratinglift_backend_core.Admin.Catalog.{
  put_order, put_orders, missing_ids, joined, rows_of, reorder_connectors,
}
use ratinglift_backend_core.Admin.Routes.{as_items}

-- The order that a batch gives to a source: the last one that it names for it, or else the old one.
abbrev pub new_order : List (ℕ × ℕ) → ℕ → ℕ → ℕ
new_order [] which old = old
new_order ((i, n) ∷ items) which old = new_order items which (if which == i then n else old)

abbrev pub placed : List (ℕ × ℕ) → Connector → Connector
placed items c = record c { display_order = new_order items c.id c.display_order }

List-cases : {A : Type 0} (xs : List A) → (xs ≡ []) ⊎ ((y : A) × (ys : List A) × (xs ≡ y ∷ ys))
List-cases [] = inl refl
List-cases (y ∷ ys) = inr (y, ys, refl)

module _ (os : Platform) where
  placed_step :
      (i n : ℕ) (items : List (ℕ × ℕ)) (rows : List Connector)
      → map (placed items) (put_order os i n rows) ≡ map (placed ((i, n) ∷ items)) rows
  unfolding put_order
  placed_step i n items [] = refl
  placed_step i n items (c ∷ rows) = elim (Bool-cases (c.id == i)) [
    | inl its ↦ rw (its) (
        ap (λ cs. record c { display_order = new_order items c.id n } ∷ cs)
          (placed_step i n items rows))
    | inr other ↦ rw (other) (ap (λ cs. placed items c ∷ cs) (placed_step i n items rows))
  ]

  all_placed : (rows : List Connector) → map (placed []) rows ≡ rows
  all_placed [] = refl
  all_placed (c ∷ rows) = ap (λ cs. c ∷ cs) (all_placed rows)

  put-placed :
      (items : List (ℕ × ℕ)) (s : DbSession)
      → put_orders os (as_items items) s ≡ (
        ok tt,
        record s {
          current = record s.current { connectors = map (placed items) s.current.connectors };
        },
      )
  unfolding put_orders
  put-placed [] s =
      ap (λ cs. (ok tt, record s { current = record s.current { connectors = cs } }))
        (sym (all_placed s.current.connectors))
  put-placed ((i, n) ∷ items) s =
      put-placed items (record s {
        current = record s.current { connectors = put_order os i n s.current.connectors };
      })
      ∙ ap (λ cs. (ok tt, record s { current = record s.current { connectors = cs } }))
          (placed_step i n items s.current.connectors)

  -- A batch of orders is taken as a whole or not at all. If it names an identifier that no source has that
  -- is not deleted, the answer is 404 with all of those, and nothing has changed. Otherwise it succeeds,
  -- and every source has the last order that the batch names for it, or else the one it had; nothing
  -- else of any row changes.
  pub reorder_connectors_lem :
      (items : List (ℕ × ℕ)) (s : DbSession)
      → let (r, s') = reorder_connectors os (as_items items) s in
        let missing = missing_ids os (as_items items) s.current.connectors in
        ((missing ≢ [])
          × (r ≡ err (http 404 ("Connector(s) not found: " <> joined os missing)))
          × (s' ≡ s))
        ⊎ ((missing ≡ [])
            × (r ≡ ok (rows_of os (as_items items) s'.current.connectors))
            × (s' ≡ record s {
              current = record s.current { connectors = map (placed items) s.current.connectors };
            }))
  unfolding reorder_connectors
  reorder_connectors_lem items s =
      let rows_now : Db (List Connector) =
        gets (λ s. rows_of os (as_items items) s.current.connectors) in
      let placed_all = put-placed items s in
      let run =
        bind_run (put_orders os (as_items items)) (λ _. rows_now) s tt (ap (λ p. p.0) placed_all)
        ∙ ap (λ p. rows_now p.1) placed_all in
      elim (List-cases (missing_ids os (as_items items) s.current.connectors)) [
        | inl all ↦
            let go : reorder_connectors os (as_items items) s
                ≡ (put_orders os (as_items items) >> rows_now) s =
              rw (all) refl in
            let end = go ∙ run in
            inr (
              all,
              ap (λ p. p.0) end
                  ∙ ap (λ (s' : DbSession). ok (rows_of os (as_items items) s'.current.connectors))
                      (sym (ap (λ p. p.1) end)),
              ap (λ p. p.1) end,
            )
        | inr (i, rest, some_missing) ↦
            let full : ltb 0 (suc (length rest)) ≡ true = ground arith in
            inl (
              λ e. cc (sym some_missing ∙ e),
              rw (some_missing, full) refl,
              rw (some_missing, full) refl,
            )
      ]
