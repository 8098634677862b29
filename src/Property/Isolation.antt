-- ===== src/Property/Isolation.antt =====
-- The property routes keep the table well-formed, and a request never touches another tenant.
use ratinglift_backend_core.Common.{
  ℕ, String, true, false, ◌≡◌, ◌≢◌, refl, ap, ◌∙◌, Option, some, List, map, arith, ◌==◌, ==_iff,
  All, All_of_map, select, select-append, select-save, first-All, inl, inr, Bool-cases,
}
use ratinglift_backend_core.Platform.{Platform, PlatformLaws}
use ratinglift_backend_core.Models.{Property, Database, DbSession, with_db}
use ratinglift_backend_core.Audit.{Entry, log_action}
use ratinglift_backend_core.Tenancy.Context.{RequestContext, text_of}
use ratinglift_backend_core.Property.Service.{flush_new, flush_changed, tenant_known}
use ratinglift_backend_core.Property.Routes.{Call, serve}
use ratinglift_backend_core.Property.Lookup.{IsOwned}
use ratinglift_backend_core.Property.Invariant.{
  id_of, IsValid, IsValidSession, flush_new-IsValid, flush_changed-IsValid,
}
use ratinglift_backend_core.Property.Induction.{IsNew, serve_induction}

-- the properties of one tenant
abbrev pub rows_of : ℕ → Database → List Property
rows_of t d = select (λ (r : Property). r.tenant_id == t) d.properties

module _ (os : Platform) (laws : PlatformLaws os) (ctx : RequestContext)
    (request_ip : Option String) where
  IsNew-fresh :
      (row : Property) (s : DbSession)
      → IsNew os ctx s row
      → All (λ (y : Property). y.id ≢ row.id) s.current.properties
  IsNew-fresh row s new = rw new.new_id (
      All_of_map (λ u. u ≢ _) (λ (r : Property). r.id) s.current.properties
        (laws.new_uuid_fresh (map (λ (r : Property). r.id) s.current.properties)))

  pub new-IsValid :
      (row : Property) (s : DbSession)
      → IsNew os ctx s row
      → IsValidSession s
      → IsValidSession (flush_new row s).1
  new-IsValid row s new v = flush_new-IsValid row s v (IsNew-fresh row s new)

  pub change-IsValid :
      (prop row : Property) (s : DbSession)
      → IsOwned os ctx s.current prop
      → row.id ≡ prop.id
      → row.tenant_id ≡ prop.tenant_id
      → IsValidSession s
      → IsValidSession (flush_changed row s).1
  change-IsValid prop row s owned ei et v = flush_changed-IsValid row s v (
      rw et (
        first-All (λ (p : Property). tenant_known p.tenant_id s.current.tenants ≡ true) _
          s.current.properties prop owned.found v.after.known_tenants))

  pub log-IsValid :
      (e : Entry) (s : DbSession) → IsValidSession s → IsValidSession (log_action os e s).1
  unfolding log_action
  log-IsValid e s v = record {
    before = v.before;
    after = record {
      unique_ids = v.after.unique_ids;
      unique_places = v.after.unique_places;
      known_tenants = v.after.known_tenants;
    };
  }

  -- Whatever the request, and whether it succeeds or fails, the committed table of properties stays
  -- well-formed: identifiers are unique, no tenant has a place id twice, and every tenant exists.
  pub serve-IsValid :
      (call : Call) (d : Database)
      → IsValid d
      → IsValid (with_db (serve os ctx request_ip call) d).1
  unfolding with_db
  serve-IsValid call d v =
      (serve_induction os ctx request_ip IsValidSession new-IsValid change-IsValid
        (λ s v. record { before = v.before; after = v.before }) log-IsValid
        (λ s v. record { before = v.after; after = v.after }) call
        (record { committed = d; current = d }) (record { before = v; after = v })).before

  record Untouched (other : ℕ) (rows : List Property) (s : DbSession) : Type 0 where
    valid : IsValidSession s
    committed_rows : rows_of other s.committed ≡ rows
    current_rows : rows_of other s.current ≡ rows

  module _ (other : ℕ) (elsewhere : os.parse_uuid (text_of ctx.tenant_id) ≢ some other)
      (rows : List Property) where
    not_ours :
        (row : Property)
        → os.parse_uuid (text_of ctx.tenant_id) ≡ some row.tenant_id
        → (row.tenant_id == other) ≡ false
    not_ours row e = elim (Bool-cases (row.tenant_id == other)) [
      | inl same ↦ absurd (elsewhere (e ∙ ap some ((==_iff _ _).0 same)))
      | inr differ ↦ differ
    ]

    new_rows :
        (row : Property) (s : DbSession)
        → (row.tenant_id == other) ≡ false
        → rows_of other (flush_new row s).1.current ≡ rows_of other s.current
    unfolding flush_new
    new_rows row s ne =
        ground
          (arith, select-append (λ (r : Property). r.tenant_id == other) s.current.properties row)

    new_committed : (row : Property) (s : DbSession) → (flush_new row s).1.committed ≡ s.committed
    unfolding flush_new
    new_committed row s = ground arith

    changed_rows :
        (prop row : Property) (s : DbSession)
        → IsValidSession s
        → IsOwned os ctx s.current prop
        → row.id ≡ prop.id
        → (prop.tenant_id == other) ≡ false
        → (row.tenant_id == other) ≡ false
        → rows_of other (flush_changed row s).1.current ≡ rows_of other s.current
    unfolding flush_changed
    changed_rows prop row s v owned ei ne ne' =
        let same =
          select-save id_of _ (λ (r : Property). r.tenant_id == other) row prop s.current.properties
            v.after.unique_ids owned.found ei ne ne' in
        ground (arith, same)

    changed_committed :
        (row : Property) (s : DbSession) → (flush_changed row s).1.committed ≡ s.committed
    unfolding flush_changed
    changed_committed row s = ground arith

    at_new :
        (row : Property) (s : DbSession)
        → IsNew os ctx s row
        → Untouched other rows s
        → Untouched other rows (flush_new row s).1
    at_new row s new u = record {
      valid = new-IsValid row s new u.valid;
      committed_rows = ap (rows_of other) (new_committed row s) ∙ u.committed_rows;
      current_rows = new_rows row s (not_ours row new.own_tenant) ∙ u.current_rows;
    }

    owned_tenant :
        (prop : Property) (d : Database)
        → IsOwned os ctx d prop
        → os.parse_uuid (text_of ctx.tenant_id) ≡ some prop.tenant_id
    owned_tenant prop d owned = rw owned.from_context owned.parsed

    at_change :
        (prop row : Property) (s : DbSession)
        → IsOwned os ctx s.current prop
        → row.id ≡ prop.id
        → row.tenant_id ≡ prop.tenant_id
        → Untouched other rows s
        → Untouched other rows (flush_changed row s).1
    at_change prop row s owned ei et u =
        let ne = not_ours prop (owned_tenant prop s.current owned) in
        record {
          valid = change-IsValid prop row s owned ei et u.valid;
          committed_rows = ap (rows_of other) (changed_committed row s) ∙ u.committed_rows;
          current_rows = changed_rows prop row s u.valid owned ei ne (rw et ne) ∙ u.current_rows;
        }

    at_log :
        (e : Entry) (s : DbSession)
        → Untouched other rows s
        → Untouched other rows (log_action os e s).1
    unfolding log_action
    at_log e s u = record {
      valid = log-IsValid e s u.valid;
      committed_rows = u.committed_rows;
      current_rows = u.current_rows;
    }

    keeps_rows :
        (call : Call) (s : DbSession)
        → Untouched other rows s
        → Untouched other rows (serve os ctx request_ip call s).1
    keeps_rows =
        serve_induction os ctx request_ip (Untouched other rows) at_new at_change
          (λ s u. record {
            valid = record { before = u.valid.before; after = u.valid.before };
            committed_rows = u.committed_rows;
            current_rows = u.committed_rows;
          })
          at_log
          (λ s u. record {
            valid = record { before = u.valid.after; after = u.valid.after };
            committed_rows = u.current_rows;
            current_rows = u.current_rows;
          })

  -- A request in the context of one tenant leaves the properties of every other tenant exactly as
  -- they were, whichever route it calls, with whatever identifiers, and however it ends. The table
  -- is taken to be well-formed before.
  pub serve-isolated :
      (call : Call) (other : ℕ) (d : Database)
      → IsValid d
      → os.parse_uuid (text_of ctx.tenant_id) ≢ some other
      → rows_of other (with_db (serve os ctx request_ip call) d).1 ≡ rows_of other d
  unfolding with_db
  serve-isolated call other d v elsewhere =
      (keeps_rows other elsewhere (rows_of other d) call (record { committed = d; current = d })
        (record {
          valid = record { before = v; after = v };
          committed_rows = refl;
          current_rows = refl;
        })).committed_rows
