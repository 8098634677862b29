-- ===== src/Tenancy/Context.antt =====
-- app/core/dependencies.py: the request context, the guards of tenant and admin routes, and the
-- filter that every tenant-scoped query goes through.
use ratinglift_backend_core.Common.{
  ◌≡◌, String, Bool, true, Option, none, some, truthy, if◌then◌else◌, str_eq, ◌&&◌, not, List, ◌==◌,
  ℕ, select,
}
use ratinglift_backend_core.Exec.{Result, ok, err, Error, http, data_error}
use ratinglift_backend_core.Platform.{Platform}

-- The payload of a token; a claim that is absent or null is `none`.
pub record Claims : Type 0 where
  pub user_id : Option String
  pub tenant_id : Option String
  pub role : Option String
  pub is_admin : Bool
  pub jti : Option String

-- what the code reads of a request
pub record Request : Type 0 where
  pub path : String
  pub authorization : Option String
  pub query_tenant_id : Option String

-- `request.state`
pub record RequestState : Type 0 where
  pub user_id : Option String
  pub role : Option String
  pub is_admin : Bool
  pub tenant_id_from_token : Option String
  pub tenant_id : Option String

pub record RequestContext : Type 0 where
  pub user_id : String
  pub tenant_id : Option String
  pub role : Option String
  pub is_admin : Bool

-- a text that is neither missing nor empty
abbrev pub present : Option String → Option String
present o = if truthy o then o else none

unfoldable pub get_current_context : RequestState → Result RequestContext
get_current_context st = elim (present st.user_id) [
  | none ↦ err (http 401 "Authentication required")
  | some u ↦ ok (record {
    user_id = u;
    tenant_id = present st.tenant_id_from_token;
    role = st.role;
    is_admin = st.is_admin;
  })
]

scoped : Request → RequestContext → Result RequestContext
scoped req ctx =
    if ctx.is_admin
    then elim (present req.query_tenant_id) [
      | none ↦ err (http 403 "Admin must specify tenant_id query parameter for tenant routes")
      | some override ↦ ok (record ctx { tenant_id = some override; is_admin = true })
    ]
    else if truthy ctx.tenant_id
    then ok ctx
    else err (http 403 "tenant_id is required")

unfoldable pub require_tenant_context : Request → RequestState → Result RequestContext
unfolding get_current_context scoped
require_tenant_context req st = elim (get_current_context st) [
  | err e ↦ err e
  | ok ctx ↦ scoped req ctx
]

unfoldable pub require_admin_context : RequestState → Result RequestContext
unfolding get_current_context
require_admin_context st = elim (get_current_context st) [
  | err e ↦ err e
  | ok ctx ↦ if ctx.is_admin then ok ctx else err (http 403 "Admin privileges required")
]

-- `filter_by_tenant` and the run of the query: the rows whose `tenant_id` is the given one. A
-- text that is no UUID is refused by the database driver.
unfoldable pub filter_by_tenant :
    {A : Type 0} → Platform → (A → ℕ) → Option String → List A → Result (List A)
filter_by_tenant os owner none rows = err (http 403 "tenant_id is required")
filter_by_tenant os owner (some t) rows = elim (os.parse_uuid t) [
  | none ↦ err data_error
  | some u ↦ ok (select (λ r. owner r == u) rows)
]

abbrev pub text_of : Option String → String
text_of none = "None"
text_of (some s) = s

-- The exception, if one is raised.
unfoldable pub assert_same_tenant : RequestContext → Option String → Option Error
assert_same_tenant ctx resource =
    if ctx.is_admin
      && truthy ctx.tenant_id
      && truthy resource
      && str_eq (text_of resource) (text_of ctx.tenant_id)
    then none
    else if ctx.is_admin && not (truthy ctx.tenant_id)
    then none
    else if str_eq (text_of resource) (text_of ctx.tenant_id)
    then none
    else some (http 403 "Cross-tenant access denied")

pub filter_by_tenant_found :
    {A : Type 0} (os : Platform) (owner : A → ℕ) (tenant_id : Option String) (rows : List A)
    {text : String} {t : ℕ}
    → tenant_id ≡ some text
    → os.parse_uuid text ≡ some t
    → filter_by_tenant os owner tenant_id rows ≡ ok (select (λ r. owner r == t) rows)
unfolding filter_by_tenant
filter_by_tenant_found os owner tenant_id rows et ep = rw (et, ep, filter_by_tenant)
