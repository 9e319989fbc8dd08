-- ===== src/Route/Handlers/Laws.antt =====
-- When a request reaches the broker or the function worker, and what an error leaves behind.
use mathlib.Core.List.{Memᴰ}
use burnell.Prelude.{
  ℕ, ◌≡◌, ◌≢◌, ◌↔◌, ◌⊎◌, inl, inr, Bool, true, false, ◌||◌, List, [], ◌∷◌, ◌++◌, Option, none, some,
  arith, Option-cases,
}
use burnell.Prelude.Int.{negsuc}
use burnell.Text.{Text, codes, ◌==◌}
use burnell.Text.Laws.{eq_iff}
use burnell.Text.Split.{Lacks}
use burnell.Assoc.{lookup}
use burnell.Util.Laws.{str_contains_complete}
use burnell.Policy.Plan.{TenantPlan}
use burnell.Policy.TenantDb.{
  TenantDb, get_functions_limit, delete_tenant, update_tenant, update_db, refused,
}
use burnell.Route.Request.{Request, header_get}
use burnell.Route.Subject.{sub_delimiter}
use burnell.Route.Subject.Laws.{extract_tenant-one_dash}
use burnell.Route.Middleware.{injected_subs}
use burnell.Route.Handlers.{
  forward, Proxy, is_get, is_super_subject, direct_broker_proxy_handler,
  limit_enforce_proxy_handler, direct_function_proxy_handler, over_function_limit,
}
use burnell.Route.Handlers.Tenants.{
  PlanReply, plan_json, aborted, failed, tenant_management_handler, manage_tenant,
}

-- A request other than GET is passed on to the broker by `limitEnforceProxyHandler` exactly if it
-- has a subject, and the subject is one of a super role or the limit of the route's tenant is
-- evaluated and allows it.
pub limit_enforce_iff :
    {S : Type 0} (px : Proxy) (eval : Text → S → S × Option Bool) (s : S) (r : Request)
    → is_get r ≡ false
    → ((limit_enforce_proxy_handler px eval s r).1 ≡ direct_broker_proxy_handler px r) ↔ (
        (header_get r injected_subs ≢ [])
        × ((is_super_subject px (header_get r injected_subs) ≡ true)
            ⊎ ((tenant : Text) × (lookup (codes "tenant") r.vars ≡ some tenant)
                × ((eval tenant s).1 ≡ some true))))
unfolding limit_enforce_proxy_handler direct_broker_proxy_handler
limit_enforce_iff px eval s r other = ground (arith, eq_iff (header_get r injected_subs) [])

not_empty : (role k : Text) → role ++ sub_delimiter ∷ k ≢ []
not_empty [] k e = cc
not_empty (c ∷ role) k e = cc

keyed_super :
    (px : Proxy) (role k : Text)
    → Lacks sub_delimiter role
    → Lacks sub_delimiter k
    → Memᴰ role px.super_roles
    → role ≢ codes "client"
    → role ≢ codes "admin"
    → is_super_subject px (role ++ sub_delimiter ∷ k) ≡ true
keyed_super px role k hr hk member nc na = rw (extract_tenant-one_dash role k hr hk) (
    ground (
      arith,
      eq_iff role (codes "client"),
      eq_iff role (codes "admin"),
      str_contains_complete px.super_roles role member,
    ))

-- For a request other than GET, a subject that is the name of a super role with a dash and a key
-- behind it, both without a dash and the name neither `admin` nor `client`, is taken for that super
-- role, and the request is forwarded.
pub limit_enforce_keyed_super :
    {S : Type 0} (px : Proxy) (eval : Text → S → S × Option Bool) (s : S) (r : Request)
    (role k : Text)
    → is_get r ≡ false
    → Lacks sub_delimiter role
    → Lacks sub_delimiter k
    → Memᴰ role px.super_roles
    → role ≢ codes "client"
    → role ≢ codes "admin"
    → header_get r injected_subs ≡ role ++ sub_delimiter ∷ k
    → limit_enforce_proxy_handler px eval s r ≡ (s, direct_broker_proxy_handler px r)
unfolding limit_enforce_proxy_handler
limit_enforce_keyed_super px eval s r role k other hr hk member nc na e = ground (
  arith,
  eq_iff (header_get r injected_subs) [],
  not_empty role k,
  keyed_super px role k hr hk member nc na,
)

-- A tenant whose plan has a negative limit of functions creates and updates none, however few it
-- has, unless the subject is one of a super role.
pub negative_limit_blocks :
    (px : Proxy) (s : TenantDb) (count : Text → ℕ) (r : Request) (tenant : Text) (t : TenantPlan)
    (m : ℕ)
    → (is_get r || r.method == codes "DELETE") ≡ false
    → lookup (codes "tenant") r.vars ≡ some tenant
    → lookup tenant s.tenants ≡ some t
    → t.policy.functions ≡ negsuc m
    → is_super_subject px (header_get r injected_subs) ≡ false
    → (url : Text) → direct_function_proxy_handler px s count r ≢ forward url
unfolding direct_function_proxy_handler over_function_limit get_functions_limit
negative_limit_blocks px s count r tenant t m other named found limit ordinary url =
    ground (arith, eq_iff (header_get r injected_subs) [])

delete_tenant-failed :
    (sends : Bool) (now : ℕ) (tenant : Text) (s s' : TenantDb)
    → delete_tenant sends now tenant s ≡ (s', none)
    → s' ≡ s
unfolding delete_tenant update_db
delete_tenant-failed sends now tenant s s' e = ground arith

update_tenant-refused :
    (sends : Bool) (now : ℕ) (tenant : Text) (req : TenantPlan) (s s' : TenantDb) (status : ℕ)
    → update_tenant sends now tenant req s ≡ (s', refused status)
    → s' ≡ s
unfolding update_tenant update_db
update_tenant-refused sends now tenant req s s' status e = ground arith

-- Every answer but a plan.
abbrev pub Fails : PlanReply → Type 0
Fails (plan_json t) = ⊥
Fails (failed status) = Unit {0}
Fails aborted = Unit {0}

manage_tenant_errors :
    (sends : Bool) (now : ℕ) (names : Option (List Text)) (doc : Option TenantPlan)
    (method tenant : Text) (s s' : TenantDb) (status : ℕ)
    → manage_tenant sends now names doc method tenant s ≡ (s', failed status)
    → s' ≡ s
unfolding manage_tenant
manage_tenant_errors sends now names none method tenant s s' status e =
    ground (arith, delete_tenant-failed sends now tenant s s')
manage_tenant_errors sends now names (some req) method tenant s s' status e = ground (
  arith,
  delete_tenant-failed sends now tenant s s',
  update_tenant-refused sends now tenant req s s' status,
)

manage_tenant_aborted :
    (sends : Bool) (now : ℕ) (names : Option (List Text)) (doc : Option TenantPlan)
    (method tenant : Text) (s s' : TenantDb)
    → manage_tenant sends now names doc method tenant s ≡ (s', aborted)
    → s' ≡ s
unfolding manage_tenant
manage_tenant_aborted sends now names none method tenant s s' e = ground arith
manage_tenant_aborted sends now names (some req) method tenant s s' e = ground arith

manage_tenant-Fails :
    (sends : Bool) (now : ℕ) (names : Option (List Text)) (doc : Option TenantPlan)
    (method tenant : Text) (s s' : TenantDb) (reply : PlanReply)
    → manage_tenant sends now names doc method tenant s ≡ (s', reply)
    → Fails reply
    → s' ≡ s
manage_tenant-Fails sends now names doc method tenant s s' (plan_json t) e f = absurd f
manage_tenant-Fails sends now names doc method tenant s s' (failed status) e f =
    manage_tenant_errors sends now names doc method tenant s s' status e
manage_tenant-Fails sends now names doc method tenant s s' aborted e f =
    manage_tenant_aborted sends now names doc method tenant s s' e

-- `TenantManagementHandler` changes nothing where it answers with an error, or with nothing.
pub management_errors :
    (sends : Bool) (now : ℕ) (names : Option (List Text)) (doc : Option TenantPlan) (r : Request)
    (s s' : TenantDb) (reply : PlanReply)
    → tenant_management_handler sends now names doc r s ≡ (s', reply)
    → Fails reply
    → s' ≡ s
unfolding tenant_management_handler
management_errors sends now names doc r s s' reply e f =
    elim (Option-cases (lookup (codes "tenant") r.vars)) [
      | inl n ↦ ground arith
      | inr (tenant, n) ↦
          manage_tenant-Fails sends now names doc r.method tenant s s' reply
            (rw (tenant_management_handler, n) at e) f
    ]
