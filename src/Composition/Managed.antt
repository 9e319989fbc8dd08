-- ===== src/Composition/Managed.antt =====
-- src/e2etest/tenant-management/tenant-rest.go against the server of src/route: the program's
-- requests through the routes, the middleware and `TenantManagementHandler`.
use burnell.Prelude.{
  ℕ, ◌≡◌, refl, Bool, true, List, [], ◌∷◌, ◌++◌, Option, none, some, All, length, drop,
  if◌then◌else◌,
}
use burnell.Text.{Text, codes, ◌==◌, split, trim_space, replace_first}
use burnell.Assoc.{lookup}
use burnell.Result.{ok}
use burnell.Util.{str_contains}
use burnell.Policy.Plan.{TenantPlan}
use burnell.Policy.TenantDb.{TenantDb}
use burnell.Route.Request.{Request, header_get, header_set}
use burnell.Route.Subject.{verify_subject, verify_from}
use burnell.Route.Middleware.{
  Auth, Verdict, pass, deny, crash, token_str, injected_subs, auth_verify_tenant_jwt,
  verify_route_tenant, super_role_required,
}
use burnell.Route.Router.{
  Handler, tenant_management_handler, tenant_jwt, super_role, select, serve, allows, one_of_methods,
  run_guard, path, get, post, delete,
}
use burnell.Route.Router.Management.{service_routes}
use burnell.Route.Router.Table.{new_router, routes_before}
use burnell.Route.Handlers.Tenants.{PlanReply, plan_json, failed, aborted, manage_tenant}
use burnell.Route.Handlers.Tenants
use burnell.E2e.{Client, authorized}
use burnell.E2e.TenantRest.{server_address, rest_url, tenant_key}

-- A running server: its configuration, and what it asks of its surroundings.
pub record Deployed : Type 0 where
  pub path_vars : Bool → Text → Text → Option (List (Text × Text))
  pub auth : Auth
  pub beam_topic : Text
  pub sends : Bool
  pub now : ℕ
  pub names : Option (List Text)
  pub decode : Text → Option TenantPlan
  pub elsewhere : Handler → Request → Option ℕ

abbrev pub status_of : TenantDb × PlanReply → TenantDb × Option ℕ
status_of (s, plan_json t) = (s, some 200)
status_of (s, failed status) = (s, some status)
status_of (s, aborted) = (s, none)

module _ (v : Deployed) where
  abbrev handle : Handler → Request → TenantDb → TenantDb × Option ℕ
  handle tenant_management_handler next s =
      status_of
        (Tenants.tenant_management_handler v.sends v.now v.names (v.decode next.body) next s)
  handle other next s = (s, v.elsewhere other next)

  abbrev by_verdict : Option (Handler × Verdict) → TenantDb → TenantDb × Option ℕ
  by_verdict none s = (s, some 404)
  by_verdict (some (h, pass next)) s = handle h next s
  by_verdict (some (h, deny message status)) s = (s, some status)
  by_verdict (some (h, crash)) s = (s, none)

  -- A request on its own; its path is what stands behind the address.
  pub answer : Client TenantDb
  answer r s =
      by_verdict
        (serve v.path_vars v.auth (new_router v.beam_topic)
          (record r { uri = drop (length server_address) r.uri }))
        s

abbrev tenant_path : Text
tenant_path = codes "/k/tenant/tenant22"

abbrev tenant_template : Text
tenant_template = codes "/k/tenant/{tenant}"

abbrev tenant_vars : List (Text × Text)
tenant_vars = (codes "tenant", tenant_key) ∷ []

-- Of the routes of the service, the path is that of the tenants' routes alone.
abbrev pub Matches : Deployed → Type 0
Matches v =
    All
      (λ route.
        v.path_vars route.is_prefix route.template tenant_path
        ≡ (if route.template == tenant_template then some tenant_vars else none))
      service_routes

abbrev sent_by : Text → Text → Text → Request
sent_by token method body = record (authorized token method tenant_path body) { vars = [] }

select-get :
    (v : Deployed) (token body : Text)
    → Matches v
    → select v.path_vars (new_router v.beam_topic) (sent_by token (codes "GET") body)
      ≡ some (path tenant_template (get ∷ []) tenant_jwt tenant_management_handler, tenant_vars)
unfolding select new_router routes_before service_routes allows one_of_methods ◌==◌
select-get v token body (a, (b, (c, (d, (e, (f, (g, (h, (i, (j, _)))))))))) =
    rw (select, a, b, c, d, e, f, g, h, i) refl

select-post :
    (v : Deployed) (token body : Text)
    → Matches v
    → select v.path_vars (new_router v.beam_topic) (sent_by token (codes "POST") body)
      ≡ some (
        path tenant_template (delete ∷ post ∷ []) super_role tenant_management_handler,
        tenant_vars,
      )
unfolding select new_router routes_before service_routes allows one_of_methods ◌==◌
select-post v token body (a, (b, (c, (d, (e, (f, (g, (h, (i, (j, _)))))))))) =
    rw (select, c, j) refl

select-delete :
    (v : Deployed) (token body : Text)
    → Matches v
    → select v.path_vars (new_router v.beam_topic) (sent_by token (codes "DELETE") body)
      ≡ some (
        path tenant_template (delete ∷ post ∷ []) super_role tenant_management_handler,
        tenant_vars,
      )
unfolding select new_router routes_before service_routes allows one_of_methods ◌==◌
select-delete v token body (a, (b, (c, (d, (e, (f, (g, (h, (i, (j, _)))))))))) =
    rw (select, c, j) refl

-- Tokens are checked, and the program's token is one of the super role `superuser`.
pub record IsSuper (v : Deployed) (token : Text) : Type 0 where
  pub on : v.auth.jwt_enabled ≡ true
  pub subject :
      v.auth.token_subject (trim_space (replace_first token (codes "Bearer") []))
      ≡ ok (codes "superuser")
  pub is_super : str_contains v.auth.super_roles (codes "superuser") ≡ true

token_str-sent :
    (token method body : Text)
    → token_str (record (sent_by token method body) { vars = tenant_vars })
      ≡ trim_space (replace_first token (codes "Bearer") [])
unfolding token_str header_get lookup ◌==◌
token_str-sent token method body = refl

superuser-verifies :
    (super_roles : List Text)
    → str_contains super_roles (codes "superuser") ≡ true
    → verify_subject super_roles tenant_key (codes "superuser") ≡ true
unfolding verify_subject verify_from split
superuser-verifies super_roles h = rw (verify_subject, h) refl

guard_get :
    (v : Deployed) (token body : Text)
    → IsSuper v token
    → run_guard v.auth tenant_jwt (record (sent_by token (codes "GET") body) { vars = tenant_vars })
      ≡ pass (
          header_set injected_subs
            (codes "superuser")
            (record (sent_by token (codes "GET") body) { vars = tenant_vars }))
unfolding run_guard auth_verify_tenant_jwt verify_route_tenant header_set lookup ◌==◌
guard_get v token body h =
    rw
      (
        auth_verify_tenant_jwt,
        h.on,
        token_str-sent token (codes "GET") body,
        h.subject,
        superuser-verifies v.auth.super_roles h.is_super,
      )
      refl

guard_super :
    (v : Deployed) (token method body : Text)
    → IsSuper v token
    → run_guard v.auth super_role (record (sent_by token method body) { vars = tenant_vars })
      ≡ pass (record (sent_by token method body) { vars = tenant_vars })
unfolding run_guard super_role_required
guard_super v token method body h =
    rw (super_role_required, h.on, token_str-sent token method body, h.subject, h.is_super) refl

-- Each of the program's requests reaches `TenantManagementHandler`, with the tenant of its path.
pub answer_get :
    (v : Deployed) (token body : Text) (s : TenantDb)
    → Matches v
    → IsSuper v token
    → answer v (authorized token (codes "GET") (rest_url ++ codes "/tenant22") body) s
      ≡ status_of (manage_tenant v.sends v.now v.names (v.decode body) (codes "GET") tenant_key s)
unfolding answer serve Tenants.tenant_management_handler lookup ◌==◌ header_set
answer_get v token body s m h =
    rw (answer, serve, select-get v token body m, guard_get v token body h) refl

pub answer_post :
    (v : Deployed) (token body : Text) (s : TenantDb)
    → Matches v
    → IsSuper v token
    → answer v (authorized token (codes "POST") (rest_url ++ codes "/tenant22") body) s
      ≡ status_of (manage_tenant v.sends v.now v.names (v.decode body) (codes "POST") tenant_key s)
unfolding answer serve Tenants.tenant_management_handler lookup ◌==◌
answer_post v token body s m h =
    rw (answer, serve, select-post v token body m, guard_super v token (codes "POST") body h) refl

pub answer_delete :
    (v : Deployed) (token body : Text) (s : TenantDb)
    → Matches v
    → IsSuper v token
    → answer v (authorized token (codes "DELETE") (rest_url ++ codes "/tenant22") body) s
      ≡ status_of
          (manage_tenant v.sends v.now v.names (v.decode body) (codes "DELETE") tenant_key s)
unfolding answer serve Tenants.tenant_management_handler lookup ◌==◌
answer_delete v token body s m h =
    rw (answer, serve, select-delete v token body m, guard_super v token (codes "DELETE") body h)
      refl
