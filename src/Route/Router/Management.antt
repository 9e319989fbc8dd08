-- ===== src/Route/Router/Management.antt =====
-- src/route/router.go: the routes that burnell answers itself.
use burnell.Prelude.{List, [], ◌∷◌}
use burnell.Text.{codes}
use burnell.Route.Router.{
  Route, path, path_prefix, delete, get, post, any_jwt, open_to_anyone, super_role, tenant_jwt,
  unguarded, function_logs_handler, function_status_handler, group_topics_by_namespace_handler,
  metrics_page, pulsar_beam_delete_topic_handler, pulsar_beam_get_topic_handler,
  pulsar_beam_update_topic_handler, pulsar_federated_debug_prometheus_handler,
  pulsar_federated_prometheus_handler, status_page, tenant_management_handler,
  tenant_topic_stats_handler, tenant_usage_handler, token_subject_handler,
  websocket_auth_proxy_handler,
}

-- `HealerRouter`
unfoldable pub healer_router : List Route
healer_router =
    path (codes "/liveness") (get ∷ []) open_to_anyone status_page
    ∷ path (codes "/metrics") (get ∷ []) open_to_anyone metrics_page
    ∷ []

-- The routes of the service, of metrics and of tenants.
unfoldable pub service_routes : List Route
service_routes =
    path (codes "/liveness") (get ∷ []) open_to_anyone status_page
    ∷ path (codes "/subject/{sub}") (get ∷ []) super_role token_subject_handler
    ∷ path_prefix (codes "/ws/") ([]) unguarded websocket_auth_proxy_handler
    ∷ path (codes "/metrics") (get ∷ []) open_to_anyone metrics_page
    ∷ path (codes "/tenantsusage") (get ∷ []) super_role tenant_usage_handler
    ∷ path (codes "/namespacesusage/{tenant}") (get ∷ []) tenant_jwt tenant_usage_handler
    ∷ path (codes "/pulsarmetrics/{tenant}") (get ∷ []) super_role
        pulsar_federated_debug_prometheus_handler
    ∷ path (codes "/pulsarmetrics") (get ∷ []) any_jwt pulsar_federated_prometheus_handler
    ∷ path (codes "/k/tenant/{tenant}") (get ∷ []) tenant_jwt tenant_management_handler
    ∷ path (codes "/k/tenant/{tenant}") (delete ∷ post ∷ []) super_role tenant_management_handler
    ∷ []

-- The routes of Pulsar Beam.
unfoldable pub beam_routes : List Route
beam_routes =
    path (codes "/pulsarbeam/v2/topic") (get ∷ []) any_jwt pulsar_beam_get_topic_handler
    ∷ path (codes "/pulsarbeam/v2/topic") (delete ∷ []) any_jwt pulsar_beam_delete_topic_handler
    ∷ path (codes "/pulsarbeam/v2/topic/{topicKey}") (get ∷ []) any_jwt
        pulsar_beam_get_topic_handler
    ∷ path (codes "/pulsarbeam/v2/topic/{topicKey}") (delete ∷ []) any_jwt
        pulsar_beam_delete_topic_handler
    ∷ path (codes "/pulsarbeam/v2/topic") (post ∷ []) any_jwt pulsar_beam_update_topic_handler
    ∷ []

-- Statistics, function logs and grouped topics.
unfoldable pub aggregate_routes : List Route
aggregate_routes =
    path (codes "/stats/topics/{tenant}") (get ∷ []) tenant_jwt tenant_topic_stats_handler
    ∷ path (codes "/function-logs/{tenant}/{namespace}/{function}") (get ∷ []) tenant_jwt
        function_logs_handler
    ∷ path (codes "/function-logs/{tenant}/{namespace}/{function}/{instance}") (get ∷ []) tenant_jwt
        function_logs_handler
    ∷ path (codes "/function-status/{tenant}/{namespace}/{function}") (get ∷ []) tenant_jwt
        function_status_handler
    ∷ path (codes "/admin/v2/topics/{tenant}") (get ∷ []) tenant_jwt
        group_topics_by_namespace_handler
    ∷ []
