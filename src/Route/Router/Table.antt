-- ===== src/Route/Router/Table.antt =====
-- src/route/router.go: `NewRouter`.
use burnell.Prelude.{List, [], ◌++◌, not, if◌then◌else◌}
use burnell.Text.{Text, ◌==◌}
use burnell.Route.Router.{Route}
use burnell.Route.Router.Management.{service_routes, beam_routes, aggregate_routes}
use burnell.Route.Router.Namespaces.{
  broker_routes, namespace_policy_routes, bundle_routes, namespace_routes,
}
use burnell.Route.Router.Resources.{topic_routes, tenant_routes, function_routes}

-- The routes that stand before and behind those of the bundles.
unfoldable pub routes_before : Text → List Route
routes_before pulsar_beam_topic =
    service_routes
    ++ ((if not (pulsar_beam_topic == []) then beam_routes else [])
        ++ (aggregate_routes ++ (broker_routes ++ namespace_policy_routes)))

unfoldable pub routes_behind : List Route
routes_behind = namespace_routes ++ (topic_routes ++ (tenant_routes ++ function_routes))

-- `NewRouter`, by the configured topic of Pulsar Beam.
unfoldable pub new_router : Text → List Route
unfolding routes_before
new_router pulsar_beam_topic = routes_before pulsar_beam_topic ++ (bundle_routes ++ routes_behind)
