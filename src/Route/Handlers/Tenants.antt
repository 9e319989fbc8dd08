-- ===== src/Route/Handlers/Tenants.antt =====
-- src/route/handlers.go: the handlers of tenants and their plans.
use burnell.Prelude.{ℕ, Bool, List, [], ◌∷◌, Option, none, some, if◌then◌else◌}
use burnell.Text.{Text, codes, ◌==◌, has_prefix}
use burnell.Assoc.{lookup}
use burnell.Util.{str_contains}
use burnell.Policy.Plan.{TenantPlan}
use burnell.Policy.TenantDb.{
  TenantDb, UpdateReply, updated, refused, get_or_create_tenant, delete_tenant, update_tenant,
}
use burnell.Route.Request.{Request, header_get}
use burnell.Route.Middleware.{injected_subs}
use burnell.Route.Handlers.{
  Outcome, respond, error_json, Exchange, replied, no_reply, no_body, Proxy, is_get,
  is_super_subject,
}

-- The loop of `RestrictedTenantsProxyHandler`: the first tenant whose name begins the subject.
unfoldable pub first_tenant : Text → List Text → Option Text
first_tenant subject [] = none
first_tenant subject (v ∷ tenants) =
    let later = first_tenant subject tenants in if has_prefix subject v then some v else later

-- `decode` and `encode` are `json` for lists of texts; `got` is what `cachedGetProxy` returns.
module _ (decode : Text → Option (List Text)) (encode : List Text → Text) (px : Proxy) where
  abbrev tenants_for : Text → Option (List Text) → Outcome
  tenants_for subject none = error_json (codes "unmarshal error") 500
  tenants_for subject (some tenants) = elim (first_tenant subject tenants) [
    | none ↦ respond 404 []
    | some v ↦ respond 200 (encode (v ∷ []))
  ]

  unfoldable pub restricted_tenants_proxy_handler : Exchange → Request → Outcome
  restricted_tenants_proxy_handler got r =
      let subject = header_get r injected_subs in
      if is_get r
      then elim got [
        | no_reply ↦ error_json (codes "proxy failure") 500
        | no_body ↦ error_json (codes "failed to read proxy response body") 500
        | replied status data_read ↦
            if subject == []
            then respond 401 (codes "missing subject")
            else if is_super_subject px subject
            then respond 200 data_read
            else tenants_for subject (decode data_read)
      ]
      else error_json (codes "only GET method allowed") 405

-- The answers of `TenantManagementHandler`: a plan as JSON, an error, or a bare status. A handler
-- that panics is `aborted`: the connection is closed with no response.
pub data PlanReply : Type 0 where
  plan_json : TenantPlan → PlanReply
  failed : (status : ℕ) → PlanReply
  aborted : PlanReply

abbrev by_delete : TenantDb × Option TenantPlan → TenantDb × PlanReply
by_delete (s, some t) = (s, plan_json t)
by_delete (s, none) = (s, failed 500)

abbrev by_update : TenantDb × UpdateReply → TenantDb × PlanReply
by_update (s, updated t) = (s, plan_json t)
by_update (s, refused status) = (s, failed status)

abbrev by_get : TenantDb × TenantPlan → TenantDb × PlanReply
by_get (s, t) = (s, plan_json t)

-- `names` is what `getTenantNameList` returns, `doc` the decoded body, `sends` whether the topic
-- takes the message. For a tenant that is not listed, `util.ResponseErrorJSON` is called with the
-- error nil, whose method `Error` panics.
unfoldable pub manage_tenant :
    Bool
    → ℕ
    → Option (List Text)
    → Option TenantPlan
    → Text
    → Text
    → TenantDb
    → TenantDb × PlanReply
manage_tenant sends now names doc method tenant s =
    if method == codes "GET"
    then elim names [
      | none ↦ (s, failed 500)
      | some tenants ↦
          if str_contains tenants tenant
          then by_get (get_or_create_tenant now tenant s)
          else (s, aborted)
    ]
    else if method == codes "DELETE"
    then by_delete (delete_tenant sends now tenant s)
    else if method == codes "POST"
    then elim doc [
      | none ↦ (s, failed 422)
      | some req ↦ by_update (update_tenant sends now tenant req s)
    ]
    else (s, failed 405)

unfoldable pub tenant_management_handler :
    Bool → ℕ → Option (List Text) → Option TenantPlan → Request → TenantDb → TenantDb × PlanReply
tenant_management_handler sends now names doc r s = elim (lookup (codes "tenant") r.vars) [
  | none ↦ (s, failed 422)
  | some tenant ↦ manage_tenant sends now names doc r.method tenant s
]
