-- ===== src/Binding/Deactivation.antt =====
-- `get_credentials` of app/modules/property_connector/service.py after `deactivate_connector`.
use ratinglift_backend_core.Common.{
  ℕ, Bool, true, false, not, ◌&&◌, ◌≡◌, ◌≢◌, refl, sym, ap, ◌∙◌, inl, inr, Option, none, some, List,
  [], ◌∷◌, arith, ◌==◌, if◌then◌else◌, Bool-cases, Option-cases, All-map, HasUniqueKeys, first,
  first-All, first-none, first_sound, first-save_same, save, save-HasUniqueKeys,
}
use ratinglift_backend_core.Exec.{
  gets, lift, or_raise, pure, ok, err, http, ◌>>=◌, ◌>>◌, bind_ok, bind_err, Result-cases,
}
use ratinglift_backend_core.Platform.{Platform}
use ratinglift_backend_core.Values.{Value}
use ratinglift_backend_core.Models.{Property, Connector, PropertyConnector, DbSession, Db}
use ratinglift_backend_core.Audit.{UuidLike, id}
use ratinglift_backend_core.Tenancy.Context.{RequestContext}
use ratinglift_backend_core.Property.Service.{coerce_uuid}
use ratinglift_backend_core.Property.Lookup.{get_property_by_id_state}
use ratinglift_backend_core.Binding.Rows.{
  Cipher, Annotated, annotate, snapshot, save_binding, inactive_detail,
}
use ratinglift_backend_core.Binding.Service.{
  get_owned_property, get_owned_property_connector, deactivate_connector, get_credentials,
}
use ratinglift_backend_core.Binding.Stored.{binding_id, is_live}
use ratinglift_backend_core.Binding.Credentials.{owned_property}

other_row : (k : ℕ) (y : PropertyConnector) → y.id ≢ k → is_live k y ≡ false
other_row k y ne = ground arith

-- If the row with an identifier is inactive, no row with it is live.
first-is_live :
    (q : PropertyConnector → Bool) (r : PropertyConnector) (rows : List PropertyConnector)
    → HasUniqueKeys binding_id rows
    → first q rows ≡ some r
    → r.is_active ≡ false
    → first (is_live r.id) rows ≡ none
unfolding first
first-is_live q r [] u e off = cc e
first-is_live q r (x ∷ rows) (ne, u) e off = elim (Bool-cases (q x)) [
  | inl here ↦
      let same : x ≡ r = ground arith in
      let rest =
        first-none (is_live r.id) rows (All-map (λ y n. other_row r.id y (rw same at n)) rows ne) in
      ground (arith, rest)
  | inr later ↦
      let found : first q rows ≡ some r = ground arith in
      let differ : r.id ≢ x.id = first-All (λ y. y.id ≢ x.id) q rows r found ne in
      ground (arith, first-is_live q r rows u found off)
]

abbrev is_bound : ℕ → ℕ → PropertyConnector → Bool
is_bound k p r = (r.id == k) && (r.property_id == p)

module _ (os : Platform) (ctx : RequestContext) where
  get_owned_property_state :
      (pid : UuidLike) (s : DbSession) → (get_owned_property os ctx pid s).1 ≡ s
  get_owned_property_state pid s =
      ap (λ x. x.1) (owned_property os ctx pid s) ∙ get_property_by_id_state os ctx pid s

  -- the lookup of a binding, once its property is found
  abbrev binding_of : UuidLike → Property → Db (PropertyConnector × Option Connector)
  binding_of pcid prop = do
    pc_id ← lift (coerce_uuid os "Invalid property_connector id" pcid)
    rows ← gets (λ s. s.current.property_connectors)
    connectors ← gets (λ s. s.current.connectors)
    pc ←
        or_raise
          (first (λ (r : PropertyConnector). (r.id == pc_id) && (r.property_id == prop.id)) rows)
          (http 404 "Property connector not found")
    pure (pc, first (λ (c : Connector). c.id == pc.connector_id) connectors)

  binding_found :
      (pcid : UuidLike) (prop : Property) (s : DbSession)
      (found : PropertyConnector × Option Connector)
      → (binding_of pcid prop s).0 ≡ ok found
      → (k : ℕ) × (first (is_bound k prop.id) s.current.property_connectors ≡ some found.0)
        × ((binding_of pcid prop s).1 ≡ s)
  binding_found pcid prop s found h =
      elim (Result-cases (coerce_uuid os "Invalid property_connector id" pcid)) [
        | inl (e, bad) ↦ absurd (ground (arith, bad))
        | inr (k, good) ↦
            elim (Option-cases (first (is_bound k prop.id) s.current.property_connectors)) [
              | inl missing ↦ absurd (ground (arith, good, missing))
              | inr (pc, here) ↦ (k, ground (arith, good, here), ground (arith, good, here))
            ]
      ]

  -- what the lookup of a binding finds
  get_binding :
      (pid pcid : UuidLike) (s : DbSession) (found : PropertyConnector × Option Connector)
      → (get_owned_property_connector os ctx pid pcid s).0 ≡ ok found
      → (k p : ℕ) × (first (is_bound k p) s.current.property_connectors ≡ some found.0)
        × ((get_owned_property_connector os ctx pid pcid s).1 ≡ s)
  unfolding get_owned_property_connector
  get_binding pid pcid s found h =
      let state = get_owned_property_state pid s in
      elim (Result-cases (get_owned_property os ctx pid s).0) [
        | inl (e, bad) ↦
            let run = bind_err (get_owned_property os ctx pid) (binding_of pcid) s e bad state in
            absurd (ground (arith, run))
        | inr (prop, got) ↦
            let run = bind_ok (get_owned_property os ctx pid) (binding_of pcid) s prop got state in
            let there = binding_found pcid prop s found (ap (λ x. x.0) (sym run) ∙ h) in
            (there.0, prop.id, there.1, ap (λ x. x.1) run ∙ there.2)
      ]

  no_credentials :
      (cipher : Cipher) (k : ℕ) (s : DbSession)
      → first (is_live k) s.current.property_connectors ≡ none
      → get_credentials os cipher (id k) s ≡ (err (http 404 inactive_detail), s)
  unfolding get_credentials coerce_uuid
  no_credentials cipher k s e = ground (arith, e)

  -- the rest of `deactivate_connector`
  abbrev switch_off : PropertyConnector × Option Connector → Db (Annotated × Value × Value × Bool)
  switch_off (pc, connector) =
      if not pc.is_active
      then pure (annotate pc connector, snapshot os pc, snapshot os pc, false)
      else do
        let row : PropertyConnector = record pc { is_active = false }
        save_binding row
        pure (annotate row connector, snapshot os pc, snapshot os row, true)

  binding-annotate : (pc : PropertyConnector) (c : Option Connector) → (annotate pc c).binding ≡ pc
  unfolding annotate
  binding-annotate pc none = refl
  binding-annotate pc (some c) = refl

  switched_off :
      (k p : ℕ) (pc : PropertyConnector) (c : Option Connector) (s : DbSession)
      (r : Annotated × Value × Value × Bool)
      → HasUniqueKeys binding_id s.current.property_connectors
      → first (is_bound k p) s.current.property_connectors ≡ some pc
      → (switch_off (pc, c) s).0 ≡ ok r
      → (r.0.binding.id ≡ pc.id)
        × (first (is_live pc.id) (switch_off (pc, c) s).1.current.property_connectors ≡ none)
  unfolding save_binding
  switched_off k p pc c s r unique e h = elim (Bool-cases pc.is_active) [
    | inr off ↦
        let same : r.0 ≡ annotate pc c = ground arith in
        let live = first-is_live (is_bound k p) pc s.current.property_connectors unique e off in
        (
          ap (λ (x : Annotated). x.binding.id) same ∙ ap binding_id (binding-annotate pc c),
          ground (arith, live),
        )
    | inl on ↦
        let row : PropertyConnector = record pc { is_active = false } in
        let same : r.0 ≡ annotate row c = ground arith in
        let rows = s.current.property_connectors in
        let saved =
          first-save_same binding_id (is_bound k p) row pc rows e refl
            (first_sound (is_bound k p) rows pc e) in
        let live =
          first-is_live (is_bound k p) row (save binding_id row rows)
            (save-HasUniqueKeys binding_id row rows unique) saved refl in
        (
          ap (λ (x : Annotated). x.binding.id) same ∙ ap binding_id (binding-annotate row c),
          ground (arith, live),
        )
  ]

  -- After a deactivation of a binding that succeeds, whether or not it changed anything, no worker
  -- gets its credentials: the answer is 404. Identifiers of bindings are unique before.
  pub deactivate_connector-get_credentials :
      (cipher : Cipher) (pid pcid : UuidLike) (s : DbSession) (r : Annotated × Value × Value × Bool)
      → HasUniqueKeys binding_id s.current.property_connectors
      → (deactivate_connector os ctx pid pcid s).0 ≡ ok r
      → let after = (deactivate_connector os ctx pid pcid s).1 in
        get_credentials os cipher (id r.0.binding.id) after
        ≡ (err (http 404 inactive_detail), after)
  unfolding deactivate_connector
  deactivate_connector-get_credentials cipher pid pcid s r unique h =
      let after = (deactivate_connector os ctx pid pcid s).1 in
      elim (Result-cases (get_owned_property_connector os ctx pid pcid s).0) [
        | inl (e, bad) ↦
            let failed : (deactivate_connector os ctx pid pcid s).0 ≡ err e =
              rw (bad, deactivate_connector, ◌>>=◌) refl in
            absurd (ground (arith, failed))
        | inr (found, got) ↦
            let (k, p, there, state) = get_binding pid pcid s found got in
            let run =
              bind_ok (get_owned_property_connector os ctx pid pcid) switch_off s found got state in
            let (same, gone) =
              switched_off k p found.0 found.1 s r unique there (ap (λ x. x.0) (sym run) ∙ h) in
            rw same (
              no_credentials cipher found.0.id after
                (ap (λ x. first (is_live found.0.id) x.1.current.property_connectors) run ∙ gone))
      ]
