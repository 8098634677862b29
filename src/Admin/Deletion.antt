-- ===== src/Admin/Deletion.antt =====
-- Deleting a source and taking it back (app/modules/admin/connectors/service.py).
use ratinglift_backend_core.Common.{
  Bool, true, false, ◌&&◌, ◌≡◌, ◌≢◌, ◌⊎◌, refl, ap, ◌∙◌, none, some, List, [], ◌∷◌, arith, inl, inr,
  ◌==◌, Bool-cases, Option-cases, first, first-none, first-All_none, first-save_same, first_sound,
  save, All-save,
}
use ratinglift_backend_core.Exec.{http, ok, err, or_raise}
use ratinglift_backend_core.Platform.{Platform}
use ratinglift_backend_core.Models.{Connector, DbSession}
use ratinglift_backend_core.Admin.Catalog.{
  Wording, is_alive, excludes, has_name, has_image, connector_id_of, name_clash, logo_clash,
  flush_with, attachments, attached_detail, assert_unique_name, assert_unique_logo_hash,
  get_connector_or_404, get_connector_including_deleted_or_404, soft_delete_connector,
  restore_connector,
}

save-save :
    (a b : Connector) (rows : List Connector)
    → b.id ≡ a.id
    → save connector_id_of b (save connector_id_of a rows) ≡ save connector_id_of b rows
unfolding save
save-save a b [] e = refl
save-save a b (c ∷ rows) e = ground (arith, save-save a b rows e)

hidden :
    (row : Connector) (rows : List Connector)
    → row.is_deleted ≡ true
    → first (λ (c : Connector). is_alive c && (c.id == row.id)) (save connector_id_of row rows)
      ≡ none
unfolding first save
hidden row [] gone = refl
hidden row (c ∷ rows) gone = ground (arith, hidden row rows gone)

-- A deleted source, as the service leaves it.
abbrev pub deleted : Platform → Connector → Connector
deleted os c = record c { is_deleted = true; deleted_at = some os.now; is_active = false }

-- The source that comes back is not active.
abbrev pub brought_back : Connector → Connector
brought_back c = record c { is_active = false }

module _ (os : Platform) (w : Wording) where
  dead_fits :
      (c : Connector) (rows : List Connector)
      → (name_clash os (deleted os c) rows ≡ false) × (logo_clash os (deleted os c) rows ≡ false)
  unfolding name_clash logo_clash
  dead_fits c rows = (refl, refl)

  -- the queries that found no other row find none after the deletion
  still_none :
      (p : Connector → Bool) (c : Connector) (rows : List Connector)
      → first p rows ≡ none
      → p (deleted os c) ≡ false
      → first p (save connector_id_of (deleted os c) rows) ≡ none
  still_none p c rows none_yet dead = first-none p (save connector_id_of (deleted os c) rows) (
      All-save connector_id_of (λ x. p x ≡ false) (deleted os c) rows dead
        (first-All_none p rows none_yet))

  no_name :
      (c : Connector) (rows : List Connector)
      → c.is_deleted ≡ false
      → name_clash os c rows ≡ false
      → first
          (λ (x : Connector). is_alive x && (has_name os c.name x && excludes (some c.id) x))
          rows
        ≡ none
  unfolding name_clash
  no_name c rows live fits = ground arith

  no_logo :
      (c : Connector) (rows : List Connector)
      → c.is_deleted ≡ false
      → logo_clash os c rows ≡ false
      → first
          (λ (x : Connector).
            is_alive x && (has_image os c.logo_sha256 x && excludes (some c.id) x))
          rows
        ≡ none
  unfolding logo_clash
  no_logo c rows live fits = ground arith

  deletes :
      (c : Connector) (s : DbSession)
      → c.is_deleted ≡ false
      → attachments c.id s.current.property_connectors ≡ 0
      → soft_delete_connector os w c s ≡ (
        ok (deleted os c),
        record s {
          current = record s.current {
            connectors = save connector_id_of (deleted os c) s.current.connectors;
          };
        },
      )
  unfolding soft_delete_connector flush_with
  deletes c s live unattached = let fits = dead_fits c s.current.connectors in ground (arith, fits)

  refuses :
      (c : Connector) (s : DbSession)
      → c.is_deleted ≡ false
      → attachments c.id s.current.property_connectors ≢ 0
      → soft_delete_connector os w c s
        ≡ (err (http 409 (attached_detail w (attachments c.id s.current.property_connectors))), s)
  unfolding soft_delete_connector
  refuses c s live attached = ground arith

  restores :
      (c : Connector) (s : DbSession)
      → c.is_deleted ≡ false
      → first
          (λ (x : Connector). is_alive x && (has_name os c.name x && excludes (some c.id) x))
          s.current.connectors
        ≡ none
      → first
          (λ (x : Connector).
            is_alive x && (has_image os c.logo_sha256 x && excludes (some c.id) x))
          s.current.connectors
        ≡ none
      → c.deleted_at ≡ none
      → restore_connector os (deleted os c) s ≡ (
        ok (brought_back c),
        record s {
          current = record s.current {
            connectors = save connector_id_of (brought_back c) s.current.connectors;
          };
        },
      )
  unfolding restore_connector flush_with assert_unique_name assert_unique_logo_hash name_clash
      logo_clash
  restores c s live name image never = elim (Option-cases c.logo_sha256) [
    | inl plain ↦ ground (arith, name, image)
    | inr (digest, drawn) ↦ ground (arith, name, image)
  ]

  -- Deleting a source that is not deleted. While a property has it attached, the answer is 409 and nothing
  -- changes. Otherwise the source is found no longer, except to be taken back; and taking it back at once
  -- succeeds and leaves the table as it was, but for the source being inactive. The source's name and image
  -- are no other's, as the unique indexes have it.
  pub soft_delete_connector-restore_connector :
      (c : Connector) (s : DbSession)
      → first (λ (x : Connector). x.id == c.id) s.current.connectors ≡ some c
      → c.is_deleted ≡ false
      → c.deleted_at ≡ none
      → name_clash os c s.current.connectors ≡ false
      → logo_clash os c s.current.connectors ≡ false
      → let (r, s') = soft_delete_connector os w c s in
        ((attachments c.id s.current.property_connectors ≢ 0)
          × (r
              ≡ err (http 409 (attached_detail w (attachments c.id s.current.property_connectors))))
          × (s' ≡ s))
        ⊎ ((attachments c.id s.current.property_connectors ≡ 0)
            × (r ≡ ok (deleted os c))
            × ((get_connector_or_404 os c.id s').0 ≡ err (http 404 "Connector not found"))
            × ((get_connector_including_deleted_or_404 os c.id s').0 ≡ ok (deleted os c))
            × (restore_connector os (deleted os c) s' ≡ (
              ok (brought_back c),
              record s {
                current = record s.current {
                  connectors = save connector_id_of (brought_back c) s.current.connectors;
                };
              },
            )))
  unfolding get_connector_or_404 get_connector_including_deleted_or_404
  soft_delete_connector-restore_connector c s found live never name logo =
      let rows = s.current.connectors in
      let s1 : DbSession = record s {
        current = record s.current { connectors = save connector_id_of (deleted os c) rows };
      } in
      elim (Bool-cases (attachments c.id s.current.property_connectors == 0)) [
        | inr attached ↦
            let some_left : attachments c.id s.current.property_connectors ≢ 0 =
              λ e. ground arith in
            let refused = refuses c s live some_left in
            inl (some_left, ap (λ p. p.0) refused, ap (λ p. p.1) refused)
        | inl unattached ↦
            let free : attachments c.id s.current.property_connectors ≡ 0 = ground arith in
            let run = deletes c s live free in
            let gone = hidden (deleted os c) rows refl in
            let kept =
              first-save_same connector_id_of (λ (x : Connector). x.id == c.id) (deleted os c) c
                rows found refl (first_sound (λ (x : Connector). x.id == c.id) rows c found) in
            let name' =
              still_none
                (λ (x : Connector). is_alive x && (has_name os c.name x && excludes (some c.id) x))
                c rows (no_name c rows live name) refl in
            let logo' =
              still_none
                (λ (x : Connector).
                  is_alive x && (has_image os c.logo_sha256 x && excludes (some c.id) x))
                c rows (no_logo c rows live logo) refl in
            let back = restores c s1 live name' logo' never in
            let twice = save-save (deleted os c) (brought_back c) rows refl in
            inr (
              free,
              ap (λ p. p.0) run,
              ap (λ p. (get_connector_or_404 os c.id p.1).0) run
                  ∙ ap (λ o. (or_raise o (http 404 "Connector not found") s1).0) gone,
              ap (λ p. (get_connector_including_deleted_or_404 os c.id p.1).0) run
                  ∙ ap (λ o. (or_raise o (http 404 "Connector not found") s1).0) kept,
              ap (λ p. restore_connector os (deleted os c) p.1) run
                  ∙ back
                  ∙ ap
                      (λ cs. (
                        ok (brought_back c),
                        record s { current = record s.current { connectors = cs } },
                      ))
                      twice,
            )
      ]
