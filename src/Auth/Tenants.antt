-- ===== src/Auth/Tenants.antt =====
-- Which tenant a new account gets (app/modules/auth/service.py).
use ratinglift_backend_core.Common.{
  ℕ, suc, String, ◌≡◌, ◌⊎◌, refl, Option, none, some, List, [], ◌∷◌, ◌++◌, length, arith, inl, inr,
  Option-cases, first,
}
use ratinglift_backend_core.Exec.{ok}
use ratinglift_backend_core.Platform.{Platform}
use ratinglift_backend_core.Models.{Tenant, DbSession}
use ratinglift_backend_core.Auth.Signup.{
  TextOps, is_named, free_name, requested_name, new_tenant, get_or_create_tenant,
}

module _ (os : Platform) (texts : TextOps) where
  -- The loop for a free name stops at its first test, since the name has just been looked up.
  free_at_once :
      (n suffix : ℕ) (name : String) (rows : List Tenant)
      → first (is_named name) rows ≡ none
      → free_name texts (suc n) name name suffix rows ≡ some name
  unfolding free_name
  free_at_once n suffix name rows free = rw (free) refl

  -- With no tenant of the requested name, a new one is made.
  pub made :
      (tenant_name : Option String) (email : String) (s : DbSession)
      → let name = requested_name os texts tenant_name email in
        first (is_named name) s.current.tenants ≡ none
        → let t = new_tenant os texts name s.current.tenants in
          get_or_create_tenant os texts tenant_name email s ≡ (
            ok t,
            record s { current = record s.current { tenants = s.current.tenants ++ t ∷ [] } },
          )
  unfolding get_or_create_tenant
  made tenant_name email s free =
      let name = requested_name os texts tenant_name email in
      let stops = free_at_once (length s.current.tenants) 1 name s.current.tenants free in
      ground (arith, stops)

  -- With one, that one is taken.
  pub taken :
      (tenant_name : Option String) (email : String) (t : Tenant) (s : DbSession)
      → first (is_named (requested_name os texts tenant_name email)) s.current.tenants ≡ some t
      → get_or_create_tenant os texts tenant_name email s ≡ (ok t, s)
  unfolding get_or_create_tenant
  taken tenant_name email t s found = ground arith

  -- The tenant of a new account, whatever name is asked for: a tenant that has the requested name is
  -- taken as it is, and nothing changes; or else there is none, and one with just that name joins the
  -- table. No third case: the search for a free name always ends.
  pub get_or_create_tenant_lem :
      (tenant_name : Option String) (email : String) (s : DbSession)
      → let (r, s') = get_or_create_tenant os texts tenant_name email s in
        let name = requested_name os texts tenant_name email in
        ((t : Tenant) × (first (is_named name) s.current.tenants ≡ some t) × (r ≡ ok t) × (s' ≡ s))
        ⊎ ((t : Tenant) × (first (is_named name) s.current.tenants ≡ none)
            × (r ≡ ok t)
            × (t.name ≡ name)
            × (s' ≡ record s {
              current = record s.current { tenants = s.current.tenants ++ t ∷ [] };
            }))
  unfolding get_or_create_tenant new_tenant
  get_or_create_tenant_lem tenant_name email s =
      let name = requested_name os texts tenant_name email in
      elim (Option-cases (first (is_named name) s.current.tenants)) [
        | inl free ↦
            let stops = free_at_once (length s.current.tenants) 1 name s.current.tenants free in
            inr (
              new_tenant os texts name s.current.tenants,
              free,
              ground (arith, stops),
              refl,
              ground (arith, stops),
            )
        | inr (t, taken) ↦ inl (t, taken, ground arith, ground arith)
      ]
