-- ===== src/Route/Router/Laws.antt =====
-- Which guard stands before which route, and what that means for a request.
use mathlib.Core.List.{Memᴰ}
use burnell.Prelude.{
  ◌≡◌, ◌≢◌, refl, ◌⊎◌, inl, inr, Bool, true, false, not, ◌&&◌, ◌||◌, List, [], ◌∷◌, ◌++◌, Option,
  none, some, arith, all, drop, Bool-cases, Option-cases, if◌then◌else◌,
}
use burnell.Text.{Text, codes, ◌==◌, cut, has_prefix}
use burnell.Result.{ok}
use burnell.Assoc.{lookup}
use burnell.Route.Request.{Request, header_get}
use burnell.Route.Subject.{verify_subject}
use burnell.Route.Middleware.{Auth, pass, token_str}
use burnell.Route.Middleware.Laws.{auth_verify_tenant_jwt_iff, super_role_required_iff}
use burnell.Route.Router.{
  path_prefix, direct_broker_proxy_handler, Route, Guard, Handler, Method, tenant_jwt, super_role,
  unguarded, any_jwt, open_to_anyone, select, serve, allows, one_of_methods, run_guard,
}
use burnell.Route.Router.Management.{service_routes, beam_routes, aggregate_routes}
use burnell.Route.Router.Namespaces.{
  broker_routes, namespace_policy_routes, bundle_routes, namespace_routes,
}
use burnell.Route.Router.Resources.{topic_routes, tenant_routes, function_routes}
use burnell.Route.Router.Table.{new_router, routes_before, routes_behind}

-- The template has the variable `{tenant}`.
unfoldable pub names_tenant : Text → Bool
names_tenant template = elim (cut template (codes "{tenant}")) [ none ↦ false | some _ ↦ true ]

abbrev pub checks_tenant : Guard → Bool
checks_tenant tenant_jwt = true
checks_tenant super_role = true
checks_tenant _ = false

abbrev tenant_is_checked : Route → Bool
tenant_is_checked route = not (names_tenant route.template) || checks_tenant route.guard

all-append :
    (p : Route → Bool) (xs ys : List Route)
    → all p xs ≡ true
    → all p ys ≡ true
    → all p (xs ++ ys) ≡ true
all-append p [] ys hx hy = hy
all-append p (x ∷ xs) ys hx hy = ground (arith, all-append p xs ys)

module _ (path_vars : Bool → Text → Text → Option (List (Text × Text))) where
  -- What is known of the route that a request finds.
  abbrev Selected : (Route → Bool) → Request → Route → List (Text × Text) → Type 0
  Selected p r route vars =
      (p route ≡ true)
      × (allows route.methods r.method ≡ true)
      × (path_vars route.is_prefix route.template r.uri ≡ some vars)

  select-all :
      (p : Route → Bool) (routes : List Route) (r : Request) (route : Route)
      (vars : List (Text × Text))
      → all p routes ≡ true
      → select path_vars routes r ≡ some (route, vars)
      → Selected p r route vars
  unfolding select
  select-all p [] r route vars h e = cc
  select-all p (x ∷ xs) r route vars h e = ground (arith, select-all p xs r route vars)

  -- A route that has the request's path and method hides those behind it.
  select-stops :
      (p : Route → Bool) (before behind : List Route) (b : Route) (r : Request) (route : Route)
      (vars found : List (Text × Text))
      → all p (before ++ b ∷ []) ≡ true
      → allows b.methods r.method ≡ true
      → path_vars b.is_prefix b.template r.uri ≡ some found
      → select path_vars (before ++ b ∷ behind) r ≡ some (route, vars)
      → Selected p r route vars
  unfolding select
  select-stops p [] behind b r route vars found h m f e = ground arith
  select-stops p (x ∷ xs) behind b r route vars found h m f e =
      ground (arith, select-stops p xs behind b r route vars found)

beam_of : Bool → List Route
beam_of b = if b then beam_routes else []

before_checked :
    (b : Bool)
    → all tenant_is_checked (
        service_routes
        ++ ((if b then beam_routes else [])
            ++ (aggregate_routes ++ (broker_routes ++ namespace_policy_routes))))
      ≡ true
unfolding service_routes beam_routes aggregate_routes broker_routes namespace_policy_routes
    names_tenant cut has_prefix
before_checked true = refl
before_checked false = refl

behind_checked : all tenant_is_checked (bundle_routes ++ routes_behind) ≡ true
unfolding bundle_routes routes_behind namespace_routes topic_routes tenant_routes function_routes
    names_tenant cut has_prefix
behind_checked = refl

new_router_checked : (topic : Text) → all tenant_is_checked (new_router topic) ≡ true
unfolding new_router routes_before
new_router_checked topic =
    all-append tenant_is_checked (routes_before topic) (bundle_routes ++ routes_behind)
      (before_checked (not (topic == []))) behind_checked

-- The token of the request has a subject that is a super role, or one that `VerifySubject` accepts
-- for the tenant of the route.
abbrev pub TenantToken : Auth → Request → List (Text × Text) → Type 0
TenantToken auth r vars =
    (subjects : Text) × (auth.token_subject (token_str r) ≡ ok subjects)
    × (Memᴰ subjects auth.super_roles
        ⊎ ((tenant : Text) × (lookup (codes "tenant") vars ≡ some tenant)
            × (verify_subject auth.super_roles tenant subjects ≡ true)))

run_guard-TenantToken :
    (auth : Auth) (guard : Guard) (r next : Request) (vars : List (Text × Text))
    → auth.jwt_enabled ≡ true
    → checks_tenant guard ≡ true
    → run_guard auth guard (record r { vars = vars }) ≡ pass next
    → TenantToken auth r vars
unfolding run_guard token_str header_get
run_guard-TenantToken auth tenant_jwt r next vars on h e =
    let (subjects, tenant, known, named, accepted, stamped) =
      (auth_verify_tenant_jwt_iff auth (record r { vars = vars }) next on).0 e in
    (subjects, known, inr (tenant, named, accepted))
run_guard-TenantToken auth super_role r next vars on h e =
    let (subject, known, member, same) =
      (super_role_required_iff auth (record r { vars = vars }) next on).0 e in
    (subject, known, inl member)
run_guard-TenantToken auth open_to_anyone r next vars on h e = cc
run_guard-TenantToken auth any_jwt r next vars on h e = cc
run_guard-TenantToken auth unguarded r next vars on h e = cc

serve-select :
    (path_vars : Bool → Text → Text → Option (List (Text × Text))) (auth : Auth)
    (routes : List Route) (r next : Request) (handler : Handler)
    → serve path_vars auth routes r ≡ some (handler, pass next)
    → (route : Route) × (vars : List (Text × Text)) × (select path_vars routes r
        ≡ some (route, vars))
      × (run_guard auth route.guard (record r { vars = vars }) ≡ pass next)
unfolding serve
serve-select path_vars auth routes r next handler e =
    elim (Option-cases (select path_vars routes r)) [
      | inl n ↦ cc
      | inr ((route, vars), s) ↦ (route, vars, s, ground arith)
    ]

-- With tokens checked, whatever route of `NewRouter` a request finds, and whether Pulsar Beam is
-- configured or not: if its handler is reached, the route does not name a tenant, or the request's
-- token is one of that tenant or of a super role.
pub tenant_isolation :
    (path_vars : Bool → Text → Text → Option (List (Text × Text))) (auth : Auth) (beam_topic : Text)
    (r next : Request) (handler : Handler)
    → auth.jwt_enabled ≡ true
    → serve path_vars auth (new_router beam_topic) r ≡ some (handler, pass next)
    → (route : Route) × (vars : List (Text × Text)) × (select path_vars (new_router beam_topic) r
        ≡ some (route, vars))
      × ((names_tenant route.template ≡ false) ⊎ TenantToken auth r vars)
tenant_isolation path_vars auth beam_topic r next handler on e =
    let (route, vars, found, passed) =
      serve-select path_vars auth (new_router beam_topic) r next handler e in
    let (checked, allowed, matched) =
      select-all path_vars tenant_is_checked (new_router beam_topic) r route vars
        (new_router_checked beam_topic) found in
    (
      route,
      vars,
      found,
      elim (Bool-cases (names_tenant route.template)) [
        | inl named ↦
            inr (run_guard-TenantToken auth route.guard r next vars on (rw named at checked) passed)
        | inr unnamed ↦ inl unnamed
      ],
    )

abbrev is_for_tenant : Guard → Bool
is_for_tenant tenant_jwt = true
is_for_tenant _ = false

abbrev hides_delete : Route → Bool
hides_delete route = not (allows route.methods (codes "DELETE") && is_for_tenant route.guard)

abbrev pub bundle_template : Text
bundle_template = codes "/admin/v2/namespaces/{tenant}/{namespace}/{bundle}"

first_bundle_route : Route
first_bundle_route =
    path_prefix bundle_template (Method.delete ∷ []) super_role direct_broker_proxy_handler

before_hides :
    (b : Bool)
    → all hides_delete (
        (service_routes
          ++ ((if b then beam_routes else [])
              ++ (aggregate_routes ++ (broker_routes ++ namespace_policy_routes))))
        ++ (first_bundle_route ∷ []))
      ≡ true
unfolding service_routes beam_routes aggregate_routes broker_routes namespace_policy_routes allows
    one_of_methods ◌==◌ first_bundle_route
before_hides true = refl
before_hides false = refl

tenant_jwt-hidden :
    (route : Route)
    → hides_delete route ≡ true
    → allows route.methods (codes "DELETE") ≡ true
    → route.guard ≢ tenant_jwt
tenant_jwt-hidden route h m g = ground arith

-- A DELETE whose path matches that of a bundle never finds a route of `AuthVerifyTenantJWT`, also
-- where its path is that of one of the later routes for `autoSubscriptionCreation`,
-- `autoTopicCreation`, `backlogQuota` or `antiAffinity`, which list the method.
pub bundle_hides_delete :
    (path_vars : Bool → Text → Text → Option (List (Text × Text))) (beam_topic : Text) (r : Request)
    (route : Route) (vars found : List (Text × Text))
    → r.method ≡ codes "DELETE"
    → path_vars true bundle_template r.uri ≡ some found
    → select path_vars (new_router beam_topic) r ≡ some (route, vars)
    → route.guard ≢ tenant_jwt
unfolding new_router routes_before bundle_routes first_bundle_route allows one_of_methods ◌==◌
bundle_hides_delete path_vars beam_topic r route vars found m f e =
    let (shown, allowed, matched) =
      select-stops path_vars hides_delete (routes_before beam_topic)
        (drop 1 bundle_routes ++ routes_behind) first_bundle_route r route vars found
        (before_hides (not (beam_topic == []))) (rw m refl) f e in
    tenant_jwt-hidden route shown (rw m at allowed)
