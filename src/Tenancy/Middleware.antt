-- ===== src/Tenancy/Middleware.antt =====
-- app/core/middleware.py: `TenantContextMiddleware` decodes the bearer token and keeps tenant
-- routes and admin routes apart. `RequestContextMiddleware` is not modelled.
use ratinglift_backend_core.Common.{
  ℕ, String, Bool, false, ◌&&◌, ◌||◌, not, Option, none, some, List, [], ◌∷◌, truthy, str_eq,
  starts_with, if◌then◌else◌,
}
use ratinglift_backend_core.Platform.{Platform}
use ratinglift_backend_core.Tenancy.Context.{Claims, Request, RequestState, present}

-- what `jwt.decode` returns or raises
pub data Decoded : Type 0 where
  payload : Claims → Decoded
  expired invalid : Decoded

-- `jwt.decode(token, secret)`, `header.split(None, 1)` and the two configured secrets
pub record Jwt : Type 0 where
  pub decode : String → String → Decoded
  pub split_once : String → List String
  pub jwt_secret : String
  pub admin_jwt_secret : String

pub data Outcome : Type 0 where
  respond : ℕ → String → Outcome
  call_next : RequestState → Outcome

abbrev pub admin_path_prefix : String
admin_path_prefix = "/api/v1/admin"

abbrev pub tenant_path_prefix : String
tenant_path_prefix = "/api/v1"

abbrev pub public_path_prefixes : List String
public_path_prefixes =
    "/api/v1/auth" ∷ "/api/v1/admin/auth" ∷ "/docs" ∷ "/redoc" ∷ "/openapi.json" ∷ "/health"
    ∷ "/ready" ∷ "/live" ∷ "/media" ∷ []

abbrev pub public_exact_paths : List String
public_exact_paths =
    "/" ∷ "/docs" ∷ "/redoc" ∷ "/openapi.json" ∷ "/health" ∷ "/ready" ∷ "/live" ∷ []

any_text : (String → Bool) → List String → Bool
any_text p [] = false
any_text p (x ∷ xs) = p x || any_text p xs

unfoldable pub is_public : String → Bool
unfolding any_text
is_public path =
    any_text (str_eq path) public_exact_paths || any_text (starts_with path) public_path_prefixes

unfoldable pub is_admin_path : String → Bool
is_admin_path path = starts_with path admin_path_prefix

unfoldable pub is_tenant_path : String → Bool
unfolding is_admin_path
is_tenant_path path = starts_with path tenant_path_prefix && not (is_admin_path path)

module _ (os : Platform) (jwt : Jwt) where
  -- the loop over the two secrets: an expired token ends it, an invalid one goes on
  unfoldable pub decode_jwt : String → Option Claims
  decode_jwt token = elim (jwt.decode token jwt.jwt_secret) [
    | payload c ↦ some c
    | expired ↦ none
    | invalid ↦ elim (jwt.decode token jwt.admin_jwt_secret) [
      | payload c ↦ some c
      | expired ↦ none
      | invalid ↦ none
    ]
  ]

  bearer_parts : List String → Option String
  bearer_parts (scheme ∷ rest ∷ []) =
      if str_eq (os.lower scheme) "bearer" then present (some (os.strip rest)) else none
  bearer_parts _ = none

  unfoldable pub extract_bearer : Request → Option String
  unfolding bearer_parts
  extract_bearer req = elim (present req.authorization) [
    | none ↦ none
    | some header ↦ bearer_parts (jwt.split_once header)
  ]

  -- the claims of the request's token, if it has a valid one
  unfoldable pub request_claims : Request → Option Claims
  request_claims req = elim (extract_bearer req) [ none ↦ none | some token ↦ decode_jwt token ]

  -- the authentication state before the path is looked at
  unfoldable pub authenticated_state : Request → RequestState → RequestState
  authenticated_state req st = elim (request_claims req) [
    | none ↦ record st {
      user_id = none;
      role = none;
      is_admin = false;
      tenant_id_from_token = none;
    }
    | some c ↦ record {
      user_id = c.user_id;
      role = c.role;
      is_admin = c.is_admin;
      tenant_id_from_token = c.tenant_id;
      tenant_id = if truthy c.tenant_id then c.tenant_id else st.tenant_id;
    }
  ]

  isolate : Request → RequestState → Outcome
  isolate req st =
      if not (truthy st.user_id)
      then respond 401 "Authentication required"
      else if is_admin_path req.path && not st.is_admin
      then respond 403 "Admin privileges required"
      else if is_tenant_path req.path && st.is_admin
      then elim (present req.query_tenant_id) [
        | none ↦ respond 403 "Admin must specify ?tenant_id=<uuid> when calling tenant routes"
        | some override ↦
            call_next
              (record st { tenant_id = some override; tenant_id_from_token = some override })
      ]
      else call_next st

  unfoldable pub dispatch : Request → RequestState → Outcome
  unfolding isolate
  dispatch req st =
      let st' = authenticated_state req st in
      if is_public req.path then call_next st' else isolate req st'
