-- ===== src/Binding/Stored.antt =====
-- What `activate_connector` of app/modules/property_connector/service.py leaves in the table, and how
-- `get_credentials` reads it.
use ratinglift_backend_core.Common.{
  ℕ, String, Bool, true, false, ◌&&◌, ◌≡◌, ◌≢◌, refl, ◌∙◌, inl, inr, Option, none, some, [], ◌∷◌,
  ◌++◌, map, arith, ◌==◌, Bool-cases, Option-cases, All, All_of_map, All-map, HasUniqueKeys, first,
  save, first-save, first-append, first-none, first_sound,
}
use ratinglift_backend_core.Exec.{ok, err, integrity_error}
use ratinglift_backend_core.Platform.{Platform, PlatformLaws}
use ratinglift_backend_core.Values.{Value}
use ratinglift_backend_core.Models.{Property, Connector, PropertyConnector, Database, DbSession}
use ratinglift_backend_core.Audit.{id}
use ratinglift_backend_core.Property.Service.{coerce_uuid}
use ratinglift_backend_core.Binding.Rows.{
  Cipher, CipherLaws, ActivateConnector, Annotated, same_pair, annotate, flush_binding,
  save_binding, renewed, plaintext, credentials,
}
use ratinglift_backend_core.Binding.Service.{new_binding, bind, get_credentials}

abbrev pub binding_id : PropertyConnector → ℕ
binding_id r = r.id

-- The worker's query for an active binding.
abbrev pub is_live : ℕ → PropertyConnector → Bool
is_live k r = (r.id == k) && r.is_active

-- `row` can be read by its identifier, and its property too.
pub record IsStored (d : Database) (row : PropertyConnector) (prop : Property) : Type 0 where
  pub live : first (is_live row.id) d.property_connectors ≡ some row
  pub property : first (λ (p : Property). p.id == row.property_id) d.properties ≡ some prop

flush_binding_free :
    (row : PropertyConnector) (s : DbSession)
    → first (same_pair row.property_id row.connector_id) s.current.property_connectors ≡ none
    → flush_binding row s ≡ (
      ok tt,
      record s {
        current = record s.current {
          property_connectors = s.current.property_connectors ++ row ∷ [];
        };
      },
    )
unfolding flush_binding
flush_binding_free row s free = rw free

flush_binding_taken :
    (row old : PropertyConnector) (s : DbSession)
    → first (same_pair row.property_id row.connector_id) s.current.property_connectors ≡ some old
    → flush_binding row s ≡ (err (integrity_error "uq_property_connectors_property_connector"), s)
unfolding flush_binding
flush_binding_taken row old s taken = rw taken

no_match : (r row : PropertyConnector) → r.id ≢ row.id → is_live row.id r ≡ false
no_match r row ne = ground arith

module _ (os : Platform) (cipher : Cipher) (laws : CipherLaws cipher) where
  plaintext-encrypt : (s : String) → plaintext cipher (some (cipher.encrypt s)) ≡ ok (some s)
  unfolding plaintext
  plaintext-encrypt s = rw (laws.encrypt-truthy s, laws.decrypt-encrypt s)

  -- What is read back of a stored binding with an encrypted secret.
  pub credentials_of :
      (row : PropertyConnector) (prop : Property) (secret : String) (s : DbSession)
      → IsStored s.current row prop
      → row.api_secret ≡ some (cipher.encrypt secret)
      → get_credentials os cipher (id row.id) s ≡ (
        ok (
            credentials row prop
              (first (λ (c : Connector). c.id == row.connector_id) s.current.connectors)
              (some secret)),
        s,
      )
  unfolding get_credentials coerce_uuid
  credentials_of row prop secret s stored e =
      let plain = plaintext-encrypt secret in ground (arith, stored.live, stored.property, plain)

  -- A new binding is read back.
  IsStored-new :
      (row : PropertyConnector) (prop : Property) (d : Database)
      → All (λ (r : PropertyConnector). r.id ≢ row.id) d.property_connectors
      → row.is_active ≡ true
      → first (λ (p : Property). p.id == row.property_id) d.properties ≡ some prop
      → IsStored (record d { property_connectors = d.property_connectors ++ row ∷ [] }) row prop
  IsStored-new row prop d fresh on e = record {
    live =
        first-append (is_live row.id) d.property_connectors row (
          first-none (is_live row.id) d.property_connectors
            (All-map (λ r ne. no_match r row ne) d.property_connectors fresh))
        ∙ (ground arith);
    property = e;
  }

  -- A binding that is saved over an older version is read back.
  IsStored-again :
      (p : PropertyConnector → Bool) (old row : PropertyConnector) (prop : Property) (d : Database)
      → HasUniqueKeys binding_id d.property_connectors
      → first p d.property_connectors ≡ some old
      → row.id ≡ old.id
      → row.is_active ≡ true
      → first (λ (p : Property). p.id == row.property_id) d.properties ≡ some prop
      → IsStored
          (record d { property_connectors = save binding_id row d.property_connectors })
          row
          prop
  IsStored-again p old row prop d u found ei on e = record {
    live =
        first-save binding_id p (is_live row.id) row old d.property_connectors u found ei
          (ground arith) (λ y h. ground arith);
    property = e;
  }

  -- What an activation leaves behind: the binding that it returns can be read, and carries the
  -- payload with the secret encrypted.
  pub record IsBound (secret : String) (payload : ActivateConnector) (prop : Property)
      (connector : Connector) (row : PropertyConnector) (s' : DbSession) : Type 0 where
    pub stored : IsStored s'.current row prop
    pub has_secret : row.api_secret ≡ some secret
    pub has_key : row.api_key ≡ payload.api_key
    pub has_scopes : row.scopes ≡ payload.scopes
    pub has_config : row.config ≡ payload.config
    pub has_url : row.base_url ≡ payload.base_url
    pub has_connector : row.connector_id ≡ connector.id

  module _ (os_laws : PlatformLaws os) (secret : String) (payload : ActivateConnector)
      (prop : Property) (connector : Connector) (s : DbSession)
      (unique : HasUniqueKeys binding_id s.current.property_connectors)
      (has_property : first (λ (p : Property). p.id == prop.id) s.current.properties
        ≡ some prop) where
    fresh :
        All
          (λ (r : PropertyConnector).
            r.id ≢ os.new_uuid (map binding_id s.current.property_connectors))
          s.current.property_connectors
    fresh =
        All_of_map (λ u. u ≢ _) binding_id s.current.property_connectors (os_laws.new_uuid_fresh _)

    pub bind_again :
        (old : PropertyConnector) (r : Annotated × Option Value × Value)
        → first (same_pair prop.id connector.id) s.current.property_connectors ≡ some old
        → (bind os secret payload prop connector (some old) s).0 ≡ ok r
        → IsBound secret payload prop connector r.0.binding
            (bind os secret payload prop connector (some old) s).1
    unfolding bind save_binding annotate renewed
    bind_again old r found h = elim (Bool-cases old.is_active) [
      | inl on ↦ absurd (ground arith)
      | inr off ↦
          let row = renewed secret payload old in
          let pair =
            first_sound (same_pair prop.id connector.id) s.current.property_connectors old found in
          let in_prop : old.property_id ≡ prop.id = ground (arith, pair) in
          let to_connector : old.connector_id ≡ connector.id = ground (arith, pair) in
          let same : r.0.binding ≡ row = ground arith in
          let after : (bind os secret payload prop connector (some old) s).1
              ≡ (save_binding row s).1 =
            ground arith in
          rw (same, after)
            (record {
              stored =
                  IsStored-again (same_pair prop.id connector.id) old row prop s.current unique
                    found refl refl (rw in_prop has_property);
              has_secret = refl;
              has_key = refl;
              has_scopes = refl;
              has_config = refl;
              has_url = refl;
              has_connector = to_connector;
            })
    ]

    pub bind_new :
        (r : Annotated × Option Value × Value)
        → (bind os secret payload prop connector none s).0 ≡ ok r
        → IsBound secret payload prop connector r.0.binding
            (bind os secret payload prop connector none s).1
    unfolding bind annotate new_binding
    bind_new r h =
        let row = new_binding os secret payload prop connector s.current.property_connectors in
        elim (Option-cases (first (same_pair prop.id connector.id) s.current.property_connectors)) [
          | inr (old, taken) ↦ absurd (ground (arith, flush_binding_taken row old s taken))
          | inl free ↦
              let added = flush_binding_free row s free in
              let same : r.0.binding ≡ row = ground (arith, added) in
              let after : (bind os secret payload prop connector none s).1 ≡ record s {
                current = record s.current {
                  property_connectors = s.current.property_connectors ++ row ∷ [];
                };
              } =
                ground (arith, added) in
              rw (same, after)
                (record {
                  stored = IsStored-new row prop s.current fresh refl has_property;
                  has_secret = refl;
                  has_key = refl;
                  has_scopes = refl;
                  has_config = refl;
                  has_url = refl;
                  has_connector = refl;
                })
        ]
