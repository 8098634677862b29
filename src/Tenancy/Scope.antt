-- ===== src/Tenancy/Scope.antt =====
-- Which tenant a request that passes the middleware acts for.
use ratinglift_backend_core.Common.{
  String, true, false, not, ◌&&◌, ◌||◌, if◌then◌else◌, ◌≡◌, ◌↔◌, inl, inr, Option, some, arith,
  truthy, Option-cases,
}
use ratinglift_backend_core.Exec.{ok}
use ratinglift_backend_core.Platform.{Platform}
use ratinglift_backend_core.Tenancy.Context.{
  Claims, Request, RequestState, RequestContext, present, require_tenant_context,
}
use ratinglift_backend_core.Tenancy.Middleware.{
  Jwt, call_next, is_public, is_admin_path, is_tenant_path, request_claims, authenticated_state,
  dispatch,
}

-- What entitles a request with these claims to reach a route that is not public.
abbrev pub MayPass : Request → Claims → Type 0
MayPass req c =
    (truthy c.user_id ≡ true)
    × ((not (is_admin_path req.path) || c.is_admin) ≡ true)
    × ((not (is_tenant_path req.path && c.is_admin) || truthy req.query_tenant_id) ≡ true)

-- The tenant that a request to a tenant route acts for: the token's, or, for an admin, the one
-- named in the query.
abbrev pub tenant_of : Request → Claims → Option String
tenant_of req c = elim c.is_admin [ true ↦ present req.query_tenant_id | false ↦ c.tenant_id ]

module _ (os : Platform) (jwt : Jwt) where
  passes :
      (req : Request) (st st' : RequestState)
      → is_public req.path ≡ false
      → dispatch os jwt req st ≡ call_next st'
      → (c : Claims) × (request_claims os jwt req ≡ some c) × MayPass req c
  unfolding dispatch authenticated_state
  passes req st st' private e = elim (Option-cases (request_claims os jwt req)) [
    | inl missing ↦ absurd (ground (arith, missing))
    | inr (c, found) ↦
        (c, found, (ground (arith, found), ground (arith, found), ground (arith, found)))
  ]

  next_state : Request → RequestState → RequestState
  next_state req st =
      if is_tenant_path req.path && st.is_admin
      then record st {
        tenant_id = present req.query_tenant_id;
        tenant_id_from_token = present req.query_tenant_id;
      }
      else st

  lets_pass :
      (req : Request) (st : RequestState) (c : Claims)
      → is_public req.path ≡ false
      → request_claims os jwt req ≡ some c
      → MayPass req c
      → dispatch os jwt req st ≡ call_next (next_state req (authenticated_state os jwt req st))
  unfolding dispatch authenticated_state next_state
  lets_pass req st c private found may = ground (arith, found)

  -- A request reaches a route that is not public exactly when it carries a valid token with a user,
  -- has the admin claim if the route is an admin route, and, if the route is a tenant route and
  -- the token an admin's, names a tenant in the query.
  pub dispatch_iff :
      (req : Request) (st : RequestState)
      → is_public req.path ≡ false
      → ((st' : RequestState) × (dispatch os jwt req st ≡ call_next st'))
        ↔ ((c : Claims) × (request_claims os jwt req ≡ some c) × MayPass req c)
  dispatch_iff req st private = (
    λ p. passes req st p.0 private p.1,
    λ p. (next_state req (authenticated_state os jwt req st), lets_pass req st p.0 private p.1 p.2),
  )

  -- On a tenant route that is not public, a request that passes the middleware and whose guard
  -- `require_tenant_context` succeeds acts as the token's user, in a tenant that is named: the
  -- token's own tenant for a user who is no admin, whatever the query says, and the tenant of the
  -- query for an admin.
  pub tenant_context_scope :
      (req : Request) (st st' : RequestState) (ctx : RequestContext)
      → is_public req.path ≡ false
      → is_tenant_path req.path ≡ true
      → dispatch os jwt req st ≡ call_next st'
      → require_tenant_context req st' ≡ ok ctx
      → (c : Claims) × (request_claims os jwt req ≡ some c)
        × (c.user_id ≡ some ctx.user_id)
        × (ctx.tenant_id ≡ tenant_of req c)
        × (truthy ctx.tenant_id ≡ true)
        × (ctx.is_admin ≡ c.is_admin)
  unfolding dispatch authenticated_state require_tenant_context
  tenant_context_scope req st st' ctx private tenant e h =
      elim (Option-cases (request_claims os jwt req)) [
        | inl missing ↦ absurd (ground (arith, missing))
        | inr (c, found) ↦ (
          c,
          found,
          ground (arith, found),
          ground (arith, found),
          ground (arith, found),
          ground (arith, found),
        )
      ]
