-- ===== src/Route/Router.antt =====
-- src/route/router.go: the routes, and how a request finds its handler.
pub mod Management
pub mod Namespaces
pub mod Resources
pub mod Table
pub mod Laws
use burnell.Prelude.{Bool, true, false, List, [], ◌∷◌, ◌||◌, Option, none, some, if◌then◌else◌}
use burnell.Text.{Text, codes, ◌==◌}
use burnell.Route.Request.{Request}
use burnell.Route.Middleware.{
  Verdict, Auth, no_auth, auth_verify_jwt, auth_verify_tenant_jwt, super_role_required, pass,
}

pub data Method : Type 0 where
  get : Method
  post : Method
  put : Method
  delete : Method

-- The wrapper around a route's handler. `unguarded` is the route of `WebsocketAuthProxyHandler`,
-- which looks for the token itself.
pub data Guard : Type 0 where
  open_to_anyone : Guard
  any_jwt : Guard
  tenant_jwt : Guard
  super_role : Guard
  unguarded : Guard

pub data Handler : Type 0 where
  status_page : Handler
  metrics_page : Handler
  token_subject_handler : Handler
  websocket_auth_proxy_handler : Handler
  tenant_usage_handler : Handler
  pulsar_federated_debug_prometheus_handler : Handler
  pulsar_federated_prometheus_handler : Handler
  tenant_management_handler : Handler
  pulsar_beam_get_topic_handler : Handler
  pulsar_beam_delete_topic_handler : Handler
  pulsar_beam_update_topic_handler : Handler
  tenant_topic_stats_handler : Handler
  function_logs_handler : Handler
  function_status_handler : Handler
  group_topics_by_namespace_handler : Handler
  direct_broker_proxy_handler : Handler
  broker_aggregator_handler : Handler
  cached_proxy_handler : Handler
  namespace_policy_proxy_handler : Handler
  namespace_limit_enforce_proxy_handler : Handler
  topic_proxy_handler : Handler
  restricted_tenants_proxy_handler : Handler
  direct_function_proxy_handler : Handler

-- No methods stands for every method.
pub record Route : Type 0 where
  pub is_prefix : Bool
  pub template : Text
  pub methods : List Method
  pub guard : Guard
  pub handler : Handler

-- `router.Path` and `router.PathPrefix`
abbrev pub path : Text → List Method → Guard → Handler → Route
path t ms g h = record { is_prefix = false; template = t; methods = ms; guard = g; handler = h }

abbrev pub path_prefix : Text → List Method → Guard → Handler → Route
path_prefix t ms g h = record {
  is_prefix = true;
  template = t;
  methods = ms;
  guard = g;
  handler = h;
}

abbrev pub method_name : Method → Text
method_name get = codes "GET"
method_name post = codes "POST"
method_name put = codes "PUT"
method_name delete = codes "DELETE"

unfoldable pub one_of_methods : List Method → Text → Bool
one_of_methods [] name = false
one_of_methods (m ∷ ms) name = method_name m == name || one_of_methods ms name

unfoldable pub allows : List Method → Text → Bool
allows [] name = true
allows (m ∷ ms) name = one_of_methods (m ∷ ms) name

-- The wrappers of middleware.go by their names.
unfoldable pub run_guard : Auth → Guard → Request → Verdict
run_guard auth open_to_anyone r = no_auth r
run_guard auth any_jwt r = auth_verify_jwt auth r
run_guard auth tenant_jwt r = auth_verify_tenant_jwt auth r
run_guard auth super_role r = super_role_required auth r
run_guard auth unguarded r = pass r

-- `path_vars` is the matching of a path against a template in gorilla/mux: the variables, if the
-- path matches. The first route that has the path and the method serves the request.
module _ (path_vars : Bool → Text → Text → Option (List (Text × Text))) where
  unfoldable pub select : List Route → Request → Option (Route × List (Text × Text))
  select [] r = none
  select (route ∷ routes) r =
      let later = select routes r in
      if allows route.methods r.method
      then elim (path_vars route.is_prefix route.template r.uri) [
        | none ↦ later
        | some vars ↦ some (route, vars)
      ]
      else later

  -- The handler that the request is for, and what its guard lets through to it.
  unfoldable pub serve : Auth → List Route → Request → Option (Handler × Verdict)
  unfolding select
  serve auth routes r = elim (select routes r) [
    | none ↦ none
    | some (route, vars) ↦
        some (route.handler, run_guard auth route.guard (record r { vars = vars }))
  ]
