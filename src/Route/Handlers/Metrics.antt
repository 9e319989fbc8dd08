-- ===== src/Route/Handlers/Metrics.antt =====
-- src/route/handlers.go: the handlers of a tenant's Prometheus metrics.
use burnell.Prelude.{Bool, [], Option, none, some, if◌then◌else◌, ltb, length}
use burnell.Text.{Text, codes, ◌==◌}
use burnell.Assoc.{lookup}
use burnell.Util.{str_contains}
use burnell.Route.Request.{Request, header_get}
use burnell.Route.Subject.{extract_tenant}
use burnell.Route.Middleware.{injected_subs}
use burnell.Route.Handlers.{Outcome, respond, error_json, Proxy}

-- `metrics.SuperRole`
abbrev pub super_role_name : Text
super_role_name = codes "SuperRole"

-- `prom_metrics` is `GetTenantPromMetrics`, `none` an error; `is_tenant` is `policy.IsTenant`.
module _ (prom_metrics : Text → Option Text) (is_tenant : Text → Bool) where
  unfoldable pub tenant_federated_prometheus : Text → Outcome
  tenant_federated_prometheus tenant = elim (prom_metrics tenant) [
    | none ↦ error_json (codes "failure") 500
    | some metrics_read ↦
        if ltb 1 (length metrics_read)
        then respond 200 metrics_read
        else if tenant == super_role_name
        then error_json (codes "failed to get prometheus data") 500
        else if is_tenant tenant
        then respond 200 []
        else respond 404 []
  ]

  unfoldable pub pulsar_federated_prometheus_handler : Proxy → Request → Outcome
  pulsar_federated_prometheus_handler px r =
      let subject = header_get r injected_subs in
      let tenant = (extract_tenant subject).1 in
      if subject == []
      then respond 401 (codes "missing subject")
      else if str_contains px.super_roles tenant
      then tenant_federated_prometheus super_role_name
      else tenant_federated_prometheus tenant

  abbrev var_or_empty : Option Text → Text
  var_or_empty none = []
  var_or_empty (some tenant) = tenant

  unfoldable pub pulsar_federated_debug_prometheus_handler : Request → Outcome
  pulsar_federated_debug_prometheus_handler r =
      tenant_federated_prometheus (var_or_empty (lookup (codes "tenant") r.vars))
