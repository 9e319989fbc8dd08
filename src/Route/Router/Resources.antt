-- ===== src/Route/Router/Resources.antt =====
-- src/route/router.go: the routes to topics, schemas, tenants, functions, sources and sinks.
use burnell.Prelude.{List, [], ◌∷◌}
use burnell.Text.{codes}
use burnell.Route.Router.{
  Route, path_prefix, delete, get, post, put, any_jwt, super_role, tenant_jwt, cached_proxy_handler,
  direct_function_proxy_handler, restricted_tenants_proxy_handler, topic_proxy_handler,
}

-- Topics, quotas and schemas.
unfoldable pub topic_routes : List Route
topic_routes =
    path_prefix (codes "/admin/v2/persistent/{tenant}/{namespace}") (get ∷ post ∷ put ∷ delete ∷ [])
      tenant_jwt topic_proxy_handler
    ∷ path_prefix (codes "/admin/v2/non-persistent/{tenant}/{namespace}")
        (get ∷ post ∷ put ∷ delete ∷ []) tenant_jwt topic_proxy_handler
    ∷ path_prefix (codes "/admin/v2/resource-quotas") (get ∷ post ∷ delete ∷ []) super_role
        cached_proxy_handler
    ∷ path_prefix (codes "/admin/v2/schemas/{tenant}/{namespace}/{topic}/compatibility") (post ∷ [])
        tenant_jwt cached_proxy_handler
    ∷ path_prefix (codes "/admin/v2/schemas/{tenant}/{namespace}/{topic}/schema")
        (get ∷ post ∷ delete ∷ []) tenant_jwt cached_proxy_handler
    ∷ path_prefix (codes "/admin/v2/schemas/{tenant}/{namespace}/{topic}/schema/{version}")
        (get ∷ []) tenant_jwt cached_proxy_handler
    ∷ path_prefix (codes "/admin/v2/schemas/{tenant}/{namespace}/{topic}/schemas") (get ∷ [])
        tenant_jwt cached_proxy_handler
    ∷ path_prefix (codes "/admin/v2/schemas/{tenant}/{namespace}/{topic}/version") (post ∷ [])
        tenant_jwt cached_proxy_handler
    ∷ path_prefix (codes "/admin/v2/schemas/{tenant}") (get ∷ post ∷ delete ∷ []) tenant_jwt
        cached_proxy_handler
    ∷ []

-- Tenants.
unfoldable pub tenant_routes : List Route
tenant_routes =
    path_prefix (codes "/admin/v2/tenants/{tenant}") (get ∷ []) tenant_jwt cached_proxy_handler
    ∷ path_prefix (codes "/admin/v2/tenants") (get ∷ []) any_jwt restricted_tenants_proxy_handler
    ∷ path_prefix (codes "/admin/v2/tenants") (post ∷ put ∷ delete ∷ []) super_role
        cached_proxy_handler
    ∷ []

-- Functions, sources and sinks.
unfoldable pub function_routes : List Route
function_routes =
    path_prefix (codes "/admin/v3/functions/{tenant}") (get ∷ post ∷ put ∷ delete ∷ []) tenant_jwt
      direct_function_proxy_handler
    ∷ path_prefix (codes "/admin/v2/functions/{tenant}") (get ∷ post ∷ put ∷ delete ∷ []) tenant_jwt
        direct_function_proxy_handler
    ∷ path_prefix (codes "/admin/v3/sources/builtinsources") (get ∷ []) any_jwt
        direct_function_proxy_handler
    ∷ path_prefix (codes "/admin/v3/sources/reloadBuiltInSources") (post ∷ []) super_role
        direct_function_proxy_handler
    ∷ path_prefix (codes "/admin/v3/sources/{tenant}") (get ∷ post ∷ put ∷ delete ∷ []) tenant_jwt
        direct_function_proxy_handler
    ∷ path_prefix (codes "/admin/v3/sinks/builtinsinks") (get ∷ []) any_jwt
        direct_function_proxy_handler
    ∷ path_prefix (codes "/admin/v3/sinks/reloadBuiltInSinks") (post ∷ []) super_role
        direct_function_proxy_handler
    ∷ path_prefix (codes "/admin/v3/sinks/{tenant}") (get ∷ post ∷ put ∷ delete ∷ []) tenant_jwt
        direct_function_proxy_handler
    ∷ []
