-- ===== src/Route/Router/Namespaces.antt =====
-- src/route/router.go: the routes to namespaces, in the order in which they are looked up.
use burnell.Prelude.{List, [], ◌∷◌}
use burnell.Text.{codes}
use burnell.Route.Router.{
  Route, path_prefix, delete, get, post, put, super_role, tenant_jwt, broker_aggregator_handler,
  cached_proxy_handler, direct_broker_proxy_handler, namespace_limit_enforce_proxy_handler,
  namespace_policy_proxy_handler,
}

-- Bookies, brokers and clusters.
unfoldable pub broker_routes : List Route
broker_routes =
    path_prefix (codes "/admin/v2/bookies") (get ∷ post ∷ delete ∷ []) super_role
      direct_broker_proxy_handler
    ∷ path_prefix (codes "/admin/v2/broker-stats") (get ∷ []) super_role broker_aggregator_handler
    ∷ path_prefix (codes "/admin/v2/brokers") (get ∷ post ∷ delete ∷ []) super_role
        direct_broker_proxy_handler
    ∷ path_prefix (codes "/admin/v2/clusters") (get ∷ post ∷ put ∷ delete ∷ []) super_role
        cached_proxy_handler
    ∷ []

-- The policies and settings of a namespace.
unfoldable pub namespace_policy_routes : List Route
namespace_policy_routes =
    path_prefix (codes "/admin/v2/namespaces/{tenant}/{namespace}/maxConsumersPerSubscription")
      (post ∷ []) super_role namespace_policy_proxy_handler
    ∷ path_prefix (codes "/admin/v2/namespaces/{tenant}/{namespace}/maxConsumersPerTopic")
        (post ∷ []) super_role namespace_policy_proxy_handler
    ∷ path_prefix (codes "/admin/v2/namespaces/{tenant}/{namespace}/maxProducersPerTopic")
        (post ∷ []) super_role namespace_policy_proxy_handler
    ∷ path_prefix
        (codes "/admin/v2/namespaces/{tenant}/{namespace}/maxUnackedMessagesPerSubscription")
        (post ∷ []) super_role namespace_policy_proxy_handler
    ∷ path_prefix (codes "/admin/v2/namespaces/{tenant}/{namespace}/messageTTL") (post ∷ [])
        super_role namespace_policy_proxy_handler
    ∷ path_prefix (codes "/admin/v2/namespaces/{tenant}/{namespace}/offloadDeletionLagMs")
        (put ∷ delete ∷ []) super_role namespace_policy_proxy_handler
    ∷ path_prefix (codes "/admin/v2/namespaces/{tenant}/{namespace}/offloadPolicies") (post ∷ [])
        super_role namespace_policy_proxy_handler
    ∷ path_prefix (codes "/admin/v2/namespaces/{tenant}/{namespace}/offloadThreshold") (put ∷ [])
        super_role namespace_policy_proxy_handler
    ∷ path_prefix
        (codes "/admin/v2/namespaces/{tenant}/{namespace}/schemaAutoUpdateCompatibilityStrategy")
        (put ∷ []) super_role namespace_policy_proxy_handler
    ∷ path_prefix (codes "/admin/v2/namespaces/{tenant}/{namespace}/schemaCompatibilityStrategy")
        (put ∷ []) tenant_jwt namespace_policy_proxy_handler
    ∷ path_prefix (codes "/admin/v2/namespaces/{tenant}/{namespace}/schemaValidationEnforced")
        (post ∷ []) tenant_jwt namespace_policy_proxy_handler
    ∷ path_prefix (codes "/admin/v2/namespaces/{tenant}/{namespace}/deduplication") (post ∷ [])
        tenant_jwt direct_broker_proxy_handler
    ∷ path_prefix (codes "/admin/v2/namespaces/{tenant}/{namespace}/permissions/{role}")
        (post ∷ delete ∷ []) super_role direct_broker_proxy_handler
    ∷ path_prefix (codes "/admin/v2/namespaces/{tenant}/{namespace}/persistence") (post ∷ [])
        super_role direct_broker_proxy_handler
    ∷ path_prefix (codes "/admin/v2/namespaces/{tenant}/{namespace}/replication") (post ∷ [])
        super_role direct_broker_proxy_handler
    ∷ path_prefix (codes "/admin/v2/namespaces/{tenant}/{namespace}/replicatorDispatchRate")
        (post ∷ []) super_role direct_broker_proxy_handler
    ∷ path_prefix (codes "/admin/v2/namespaces/{tenant}/{namespace}/retention") (post ∷ [])
        super_role direct_broker_proxy_handler
    ∷ path_prefix (codes "/admin/v2/namespaces/{tenant}/{namespace}/subscribeRate") (post ∷ [])
        super_role direct_broker_proxy_handler
    ∷ path_prefix (codes "/admin/v2/namespaces/{tenant}/{namespace}/subscriptionAuthMode")
        (post ∷ []) super_role direct_broker_proxy_handler
    ∷ path_prefix (codes "/admin/v2/namespaces/{tenant}/{namespace}/subscriptionDispatchRate")
        (post ∷ []) super_role direct_broker_proxy_handler
    ∷ path_prefix (codes "/admin/v2/namespaces/{tenant}/{namespace}/unload") (put ∷ []) super_role
        direct_broker_proxy_handler
    ∷ []

-- The bundles of a namespace.
unfoldable pub bundle_routes : List Route
bundle_routes =
    path_prefix (codes "/admin/v2/namespaces/{tenant}/{namespace}/{bundle}") (delete ∷ [])
      super_role direct_broker_proxy_handler
    ∷ path_prefix (codes "/admin/v2/namespaces/{tenant}/{namespace}/{bundle}/split") (delete ∷ [])
        super_role direct_broker_proxy_handler
    ∷ path_prefix (codes "/admin/v2/namespaces/{tenant}/{namespace}/{bundle}/unload") (delete ∷ [])
        super_role direct_broker_proxy_handler
    ∷ path_prefix (codes "/admin/v2/namespaces/{tenant}/{namespace}/{bundle}/clearBacklog")
        (delete ∷ []) super_role direct_broker_proxy_handler
    ∷ path_prefix
        (codes "/admin/v2/namespaces/{tenant}/{namespace}/{bundle}/clearBacklog/{subscription}")
        (delete ∷ []) super_role direct_broker_proxy_handler
    ∷ path_prefix
        (codes "/admin/v2/namespaces/{tenant}/{namespace}/{bundle}/unsubscribe/{subscription}")
        (delete ∷ []) super_role direct_broker_proxy_handler
    ∷ []

-- The other routes to a namespace.
unfoldable pub namespace_routes : List Route
namespace_routes =
    path_prefix (codes "/admin/v2/namespaces/{tenant}/{namespace}/autoSubscriptionCreation")
      (delete ∷ post ∷ []) tenant_jwt direct_broker_proxy_handler
    ∷ path_prefix (codes "/admin/v2/namespaces/{tenant}/{namespace}/autoTopicCreation")
        (delete ∷ post ∷ []) tenant_jwt direct_broker_proxy_handler
    ∷ path_prefix (codes "/admin/v2/namespaces/{tenant}/{namespace}/backlogQuota")
        (delete ∷ post ∷ []) tenant_jwt direct_broker_proxy_handler
    ∷ path_prefix (codes "/admin/v2/namespaces/{tenant}/{namespace}/backlogQuotaMap") (get ∷ [])
        tenant_jwt cached_proxy_handler
    ∷ path_prefix (codes "/admin/v2/namespaces/{tenant}/{namespace}/clearBacklog") (post ∷ [])
        tenant_jwt direct_broker_proxy_handler
    ∷ path_prefix (codes "/admin/v2/namespaces/{tenant}/{namespace}/antiAffinity")
        (get ∷ post ∷ delete ∷ []) tenant_jwt cached_proxy_handler
    ∷ path_prefix (codes "/admin/v2/namespaces/{tenant}/{namespace}/compactionThreshold")
        (get ∷ put ∷ []) tenant_jwt cached_proxy_handler
    ∷ path_prefix (codes "/admin/v2/namespaces/{tenant}/{namespace}/delayedDelivery")
        (get ∷ post ∷ []) tenant_jwt cached_proxy_handler
    ∷ path_prefix (codes "/admin/v2/namespaces/{tenant}/{namespace}")
        (get ∷ put ∷ delete ∷ post ∷ []) tenant_jwt namespace_limit_enforce_proxy_handler
    ∷ path_prefix (codes "/admin/v2/namespaces/{tenant}") (get ∷ put ∷ delete ∷ []) tenant_jwt
        cached_proxy_handler
    ∷ path_prefix (codes "/admin/v2/namespaces") (get ∷ post ∷ put ∷ delete ∷ []) super_role
        cached_proxy_handler
    ∷ []
