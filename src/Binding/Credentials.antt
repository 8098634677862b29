-- ===== src/Binding/Credentials.antt =====
-- What the workers are given: `get_credentials` of app/modules/property_connector/service.py after
-- `activate_connector`.
use ratinglift_backend_core.Common.{
  ℕ, not, ◌&&◌, ◌≡◌, refl, sym, ap, ◌∙◌, inl, inr, Option, some, arith, ◌==◌, Option-cases,
  HasUniqueKeys, first, first_sound, first_by_key,
}
use ratinglift_backend_core.Exec.{ok, err, Error, ◌>>=◌, bind_ok, Result-cases}
use ratinglift_backend_core.Platform.{Platform, PlatformLaws}
use ratinglift_backend_core.Values.{Value}
use ratinglift_backend_core.Models.{Property, Connector, PropertyConnector, DbSession, Db}
use ratinglift_backend_core.Audit.{UuidLike, id}
use ratinglift_backend_core.Tenancy.Context.{RequestContext}
use ratinglift_backend_core.Property.Service.{get_property_by_id}
use ratinglift_backend_core.Property.Lookup.{
  IsOwned, get_property_by_id-IsOwned, get_property_by_id_state,
}
use ratinglift_backend_core.Property.Invariant.{id_of}
use ratinglift_backend_core.Binding.Rows.{
  Cipher, CipherLaws, ActivateConnector, Annotated, ConnectorCredentials, same_pair, credentials,
}
use ratinglift_backend_core.Binding.Service.{
  get_owned_property, get_active_connector, bind, activate_connector, get_credentials,
}
use ratinglift_backend_core.Binding.Stored.{
  binding_id, IsBound, credentials_of, bind_again, bind_new,
}

-- The two lookups of a property are the same code.
pub owned_property :
    (os : Platform) (ctx : RequestContext) (pid : UuidLike) (s : DbSession)
    → get_owned_property os ctx pid s ≡ get_property_by_id os ctx pid s
unfolding get_owned_property get_property_by_id
owned_property os ctx pid s = refl

get_active_connector_state :
    (os : Platform) (c : ℕ) (s : DbSession) → (get_active_connector os c s).1 ≡ s
unfolding get_active_connector
get_active_connector_state os c s = ground arith

-- The credentials that a worker reads are those of the payload, for this property.
pub record Delivers (payload : ActivateConnector) (prop : Property) (creds : ConnectorCredentials)
    : Type 0 where
  pub secret : creds.api_secret ≡ some payload.api_secret
  pub api_key : creds.api_key ≡ payload.api_key
  pub scopes : creds.scopes ≡ payload.scopes
  pub config : creds.config ≡ payload.config
  pub base_url : creds.base_url ≡ payload.base_url
  pub connector : creds.connector_id ≡ payload.connector_id
  pub property : creds.property_id ≡ prop.id
  pub tenant : creds.tenant_id ≡ prop.tenant_id

get_active_connector_id :
    (os : Platform) (c : ℕ) (connector : Connector) (s : DbSession)
    → (get_active_connector os c s).0 ≡ ok connector
    → connector.id ≡ c
unfolding get_active_connector
get_active_connector_id os c connector s h =
    elim (Option-cases
      (first (λ (x : Connector). (x.id == c) && not x.is_deleted) s.current.connectors)) [
        | inl missing ↦ absurd (ground arith)
        | inr (x, found) ↦
            let passed = first_sound _ s.current.connectors x found in
            let same : x ≡ connector = ground arith in ground (arith, passed)
      ]

module _ (os : Platform) (os_laws : PlatformLaws os) (cipher : Cipher)
    (laws : CipherLaws cipher) where
  delivers :
      (payload : ActivateConnector) (prop : Property) (connector : Connector)
      (row : PropertyConnector) (s' : DbSession)
      → connector.id ≡ payload.connector_id
      → IsBound os cipher laws (cipher.encrypt payload.api_secret) payload prop connector row s'
      → (creds : ConnectorCredentials) × (get_credentials os cipher (id row.id) s' ≡ (ok creds, s'))
        × Delivers payload prop creds
  unfolding credentials
  delivers payload prop connector row s' ec b = (
    credentials row prop (first (λ (c : Connector). c.id == row.connector_id) s'.current.connectors)
        (some payload.api_secret),
    credentials_of os cipher laws row prop payload.api_secret s' b.stored b.has_secret,
    record {
      secret = refl;
      api_key = b.has_key;
      scopes = b.has_scopes;
      config = b.has_config;
      base_url = b.has_url;
      connector = b.has_connector ∙ ec;
      property = refl;
      tenant = refl;
    },
  )

  activated :
      (ctx : RequestContext) (pid : UuidLike) (payload : ActivateConnector) (s : DbSession)
      (prop : Property) (connector : Connector)
      → (get_owned_property os ctx pid s).0 ≡ ok prop
      → (get_active_connector os payload.connector_id s).0 ≡ ok connector
      → activate_connector os cipher ctx pid payload s
        ≡ bind os
            (cipher.encrypt payload.api_secret)
            payload
            prop
            connector
            (first (same_pair prop.id connector.id) s.current.property_connectors)
            s
  unfolding activate_connector
  activated ctx pid payload s prop connector got active =
      let state =
        ap (λ x. x.1) (owned_property os ctx pid s) ∙ get_property_by_id_state os ctx pid s in
      let state' = get_active_connector_state os payload.connector_id s in
      let find : Property → Db Connector = λ p. get_active_connector os payload.connector_id in
      let rest : Property → Connector → Db (Annotated × Option Value × Value) = λ p c s'.
        bind os (cipher.encrypt payload.api_secret) payload p c
          (first (same_pair p.id c.id) s'.current.property_connectors) s' in
      bind_ok (get_owned_property os ctx pid) (λ p. find p >>= rest p) s prop got state
      ∙ bind_ok (find prop) (rest prop) s connector active state'

  no_property :
      (ctx : RequestContext) (pid : UuidLike) (payload : ActivateConnector) (s : DbSession)
      (e : Error)
      → (get_owned_property os ctx pid s).0 ≡ err e
      → (activate_connector os cipher ctx pid payload s).0 ≡ err e
  unfolding activate_connector
  no_property ctx pid payload s e bad = rw (bad, activate_connector, ◌>>=◌) refl

  no_connector :
      (ctx : RequestContext) (pid : UuidLike) (payload : ActivateConnector) (s : DbSession)
      (prop : Property) (e : Error)
      → (get_owned_property os ctx pid s).0 ≡ ok prop
      → (get_active_connector os payload.connector_id s).0 ≡ err e
      → (activate_connector os cipher ctx pid payload s).0 ≡ err e
  unfolding activate_connector
  no_connector ctx pid payload s prop e got bad =
      let state =
        ap (λ x. x.1) (owned_property os ctx pid s) ∙ get_property_by_id_state os ctx pid s in
      rw (got, state, activate_connector, ◌>>=◌, bad) refl

  bind-IsBound :
      (payload : ActivateConnector) (prop : Property) (connector : Connector) (s : DbSession)
      (r : Annotated × Option Value × Value)
      → HasUniqueKeys binding_id s.current.property_connectors
      → first (λ (p : Property). p.id == prop.id) s.current.properties ≡ some prop
      → (bind os
          (cipher.encrypt payload.api_secret)
          payload
          prop
          connector
          (first (same_pair prop.id connector.id) s.current.property_connectors)
          s).0
        ≡ ok r
      → IsBound os cipher laws
          (cipher.encrypt payload.api_secret)
          payload
          prop
          connector
          r.0.binding
          (bind os
            (cipher.encrypt payload.api_secret)
            payload
            prop
            connector
            (first (same_pair prop.id connector.id) s.current.property_connectors)
            s).1
  bind-IsBound payload prop connector s r unique has h =
      elim (Option-cases (first (same_pair prop.id connector.id) s.current.property_connectors)) [
        | inl free ↦
            let run =
              ap (λ o. bind os (cipher.encrypt payload.api_secret) payload prop connector o s)
                free in
            rw run (
              bind_new os cipher laws os_laws (cipher.encrypt payload.api_secret) payload prop
                connector s unique has r (ap (λ x. x.0) (sym run) ∙ h))
        | inr (old, taken) ↦
            let run =
              ap (λ o. bind os (cipher.encrypt payload.api_secret) payload prop connector o s)
                taken in
            rw run (
              bind_again os cipher laws os_laws (cipher.encrypt payload.api_secret) payload prop
                connector s unique has old r taken (ap (λ x. x.0) (sym run) ∙ h))
      ]

  -- Whenever an activation of a connector succeeds, for the first time or again, a worker that asks
  -- for the credentials of the binding that it returns receives the secret of the payload in plain
  -- text, with the payload's key, scopes, configuration and base url, for a property of the
  -- tenant of the context. Identifiers of properties and bindings are unique before, the cipher
  -- decrypts what it encrypts, and a new identifier is unused.
  pub activate_connector-get_credentials :
      (ctx : RequestContext) (pid : UuidLike) (payload : ActivateConnector) (s : DbSession)
      (r : Annotated × Option Value × Value)
      → HasUniqueKeys id_of s.current.properties
      → HasUniqueKeys binding_id s.current.property_connectors
      → (activate_connector os cipher ctx pid payload s).0 ≡ ok r
      → let s' = (activate_connector os cipher ctx pid payload s).1 in
        (prop : Property) × IsOwned os ctx s.current prop
        × (creds : ConnectorCredentials) × (get_credentials os cipher (id r.0.binding.id) s'
            ≡ (ok creds, s'))
        × Delivers payload prop creds
  activate_connector-get_credentials ctx pid payload s r unique_props unique h =
      elim (Result-cases (get_owned_property os ctx pid s).0) [
        | inl (e, bad) ↦ absurd (ground (arith, no_property ctx pid payload s e bad))
        | inr (prop, got) ↦ elim (Result-cases (get_active_connector os payload.connector_id s).0) [
          | inl (e, bad) ↦ absurd (ground (arith, no_connector ctx pid payload s prop e got bad))
          | inr (connector, active) ↦
              let runs = activated ctx pid payload s prop connector got active in
              let owned =
                (get_property_by_id-IsOwned os ctx pid s prop
                  (sym (ap (λ x. x.0) (owned_property os ctx pid s)) ∙ got)).0 in
              let bound =
                bind-IsBound payload prop connector s r unique
                  (first_by_key id_of _ prop s.current.properties unique_props owned.found)
                  (ap (λ x. x.0) (sym runs) ∙ h) in
              let read =
                delivers payload prop connector r.0.binding _
                  (get_active_connector_id os payload.connector_id connector s active) bound in
              (prop, owned, read.0, rw runs read.1, read.2)
        ]
      ]
