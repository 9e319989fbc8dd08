-- ===== src/Tests/Routes.antt =====
-- Tests of the route table.
use burnell.Prelude.{
  ◌≡◌, ◌≢◌, ◌⊎◌, refl, Bool, false, List, [], ◌∷◌, Option, none, some, if◌then◌else◌,
}
use burnell.Text.{
  Text, codes, ◌==◌, cut, has_prefix, replace_first, trim_space, trim_left, split, join,
}
use burnell.Assoc.{lookup, insert, delete}
use burnell.Util.{str_contains}
use burnell.Route.Request.{Request, header_get, header_set}
use burnell.Route.Subject.{extract_tenant, extract_from, verify_subject, verify_from}
use burnell.Route.Middleware.{
  pass, token_str, injected_subs, auth_verify_tenant_jwt, verify_route_tenant,
}
use burnell.Route.Router.{
  Route, Method, tenant_jwt, super_role, select, serve, allows, one_of_methods, run_guard,
  path_prefix, tenant_management_handler, direct_broker_proxy_handler,
}
use burnell.Route.Router.Management.{service_routes, aggregate_routes}
use burnell.Route.Router.Namespaces.{broker_routes, namespace_policy_routes, bundle_routes}
use burnell.Route.Router.Table.{new_router, routes_before}
use burnell.Route.Router.Laws.{
  names_tenant, TenantToken, tenant_isolation, bundle_template, bundle_hides_delete,
}
use burnell.Tests.Subjects.{guarded, request}

-- A matcher that knows one template, and takes every path for one of it.
only : Text → Bool → Text → Text → Option (List (Text × Text))
only known is_prefix template uri =
    if template == known then some ((codes "tenant", codes "t") ∷ []) else none

abbrev served : Request
served = header_set injected_subs (codes "t-1") request

tenant_template : Text
tenant_template = codes "/k/tenant/{tenant}"

request_is_served :
    serve (only tenant_template) guarded (new_router []) request
    ≡ some (tenant_management_handler, pass served)
unfolding serve select only tenant_template allows one_of_methods run_guard new_router routes_before
    service_routes ◌==◌ auth_verify_tenant_jwt verify_route_tenant token_str header_get header_set
    insert delete lookup verify_subject verify_from extract_tenant extract_from split join
    str_contains trim_space trim_left replace_first cut has_prefix
request_is_served = refl

tenant_isolation_example :
    (route : Route) × (vars : List (Text × Text)) × (select
        (only tenant_template)
        (new_router [])
        request
      ≡ some (route, vars))
    × ((names_tenant route.template ≡ false) ⊎ TenantToken guarded request vars)
tenant_isolation_example =
    tenant_isolation (only tenant_template) guarded [] request served tenant_management_handler refl
      request_is_served

abbrev deletion : Request
deletion = record request {
  method = codes "DELETE";
  uri = codes "/admin/v2/namespaces/t/n/backlogQuota";
}

abbrev bundle_route : Route
bundle_route =
    path_prefix bundle_template (Method.delete ∷ []) super_role direct_broker_proxy_handler

abbrev tenant_is_t : List (Text × Text)
tenant_is_t = (codes "tenant", codes "t") ∷ []

deletion-select :
    select (only bundle_template) (new_router []) deletion ≡ some (bundle_route, tenant_is_t)
unfolding select only allows one_of_methods new_router routes_before service_routes aggregate_routes
    broker_routes namespace_policy_routes bundle_routes ◌==◌
deletion-select = refl

only-same : only bundle_template Bool.true bundle_template deletion.uri ≡ some tenant_is_t
unfolding only ◌==◌
only-same = refl

bundle_hides_delete_example : bundle_route.guard ≢ tenant_jwt
bundle_hides_delete_example =
    bundle_hides_delete (only bundle_template) [] deletion bundle_route tenant_is_t tenant_is_t refl
      only-same deletion-select
