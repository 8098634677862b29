-- ===== src/Tests/Access.antt =====
-- The theorems on tokens and tenants, at a sample request.
use ratinglift_backend_core.Common.{
  true, false, ◌&&◌, ◌≡◌, ◌↔◌, refl, none, some, [], ◌∷◌, truthy, str_eq, if◌then◌else◌,
}
use ratinglift_backend_core.Exec.{ok}
use ratinglift_backend_core.Tenancy.Context.{Claims, Request, RequestState, require_tenant_context}
use ratinglift_backend_core.Tenancy.Middleware.{
  Jwt, payload, invalid, call_next, is_public, is_tenant_path, request_claims, dispatch,
  extract_bearer, decode_jwt, authenticated_state,
}
use ratinglift_backend_core.Tenancy.Scope.{MayPass, tenant_of, dispatch_iff, tenant_context_scope}
use ratinglift_backend_core.Tests.World.{os, ctx}

abbrev claims : Claims
claims = record {
  user_id = some "x";
  tenant_id = some "xx";
  role = some "OWNER";
  is_admin = false;
  jti = none;
}

abbrev jwt : Jwt
jwt = record {
  decode =
      λ token secret. if str_eq token "good" && str_eq secret "s" then payload claims else invalid;
  split_once = λ header. "bearer" ∷ "good" ∷ [];
  jwt_secret = "s";
  admin_jwt_secret = "t";
}

-- The query names another tenant, in vain.
abbrev request : Request
request = record {
  path = "/api/v1/properties";
  authorization = some "bearer good";
  query_tenant_id = some "xxx";
}

abbrev fresh : RequestState
fresh = record {
  user_id = none;
  role = none;
  is_admin = false;
  tenant_id_from_token = none;
  tenant_id = none;
}

abbrev authenticated : RequestState
authenticated = record {
  user_id = some "x";
  role = some "OWNER";
  is_admin = false;
  tenant_id_from_token = some "xx";
  tenant_id = some "xx";
}

private_path : is_public "/api/v1/properties" ≡ false
unfolding is_public
private_path = refl

tenant_path : is_tenant_path "/api/v1/properties" ≡ true
unfolding is_tenant_path
tenant_path = refl

passes_on : dispatch os jwt request fresh ≡ call_next authenticated
unfolding dispatch extract_bearer decode_jwt request_claims authenticated_state is_public
    is_tenant_path
passes_on = refl

guarded : require_tenant_context request authenticated ≡ ok ctx
unfolding require_tenant_context
guarded = refl

dispatch_iff_example :
    ((st : RequestState) × (dispatch os jwt request fresh ≡ call_next st))
    ↔ ((c : Claims) × (request_claims os jwt request ≡ some c) × MayPass request c)
dispatch_iff_example = dispatch_iff os jwt request fresh private_path

tenant_context_scope_example :
    (c : Claims) × (request_claims os jwt request ≡ some c)
    × (c.user_id ≡ some "x")
    × (some "xx" ≡ tenant_of request c)
    × (truthy (some "xx") ≡ true)
    × (false ≡ c.is_admin)
tenant_context_scope_example =
    tenant_context_scope os jwt request fresh authenticated ctx private_path tenant_path passes_on
      guarded
