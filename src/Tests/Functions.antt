-- ===== src/Tests/Functions.antt =====
-- Tests of the functions' map and of the handlers.
use mathlib.Core.List.{Memᴰ}
use burnell.Prelude.{
  ◌≡◌, ◌≢◌, ◌++◌, refl, arith, Bool, true, false, none, some, [], ◌∷◌, ◌||◌, Option,
}
use burnell.Prelude.Int.{pos, negsuc}
use burnell.Text.{Text, codes, ◌==◌, split, join}
use burnell.Assoc.{lookup, insert, delete}
use burnell.Util.{str_contains}
use burnell.Util.Laws.{str_contains_sound}
use burnell.Route.Middleware.Laws.{header_get-header_set}
use burnell.LogClient.{FunctionDetails, function}
use burnell.Policy.Plan.{TenantPlan, private_plan, new_free_tenant_plan}
use burnell.Policy.TenantDb.{TenantDb}
use burnell.Route.Request.{Request, header_get, header_set}
use burnell.Route.Subject.{extract_tenant, extract_from, sub_delimiter}
use burnell.Route.Middleware.{injected_subs}
use burnell.Route.Handlers.{
  Proxy, is_get, is_super_subject, direct_broker_proxy_handler, limit_enforce_proxy_handler,
  direct_function_proxy_handler, forward,
}
use burnell.Route.Handlers.Laws.{
  limit_enforce_keyed_super, negative_limit_blocks, management_errors,
}
use burnell.Route.Handlers.Tenants.{tenant_management_handler, manage_tenant, aborted}
use burnell.Tests.Subjects.{request, supers}

abbrev pub first : FunctionDetails
first = record {
  tenant = codes "ab";
  namespace = codes "n";
  name = codes "f";
  parallelism = pos 1;
  component_type = function;
}

abbrev proxy : Proxy
proxy = record {
  broker_proxy_url = codes "http://b";
  function_proxy_url = codes "http://f";
  pulsar_token = codes "x";
  super_roles = supers;
}

-- A POST of the subject to a route of the tenant `t`.
abbrev post_by : Text → Request
post_by subject = header_set injected_subs subject (record request { method = codes "POST" })

post_is_other : is_get (post_by (codes "t-1")) ≡ false
unfolding header_set ◌==◌
post_is_other = refl

abbrev always : Text → Bool → Bool × Option Bool
always tenant s = (s, some true)

-- A token of the subject `superuser-1`, which is no super role.
super_is_other : is_get (post_by (codes "superuser-1")) ≡ false
unfolding header_set ◌==◌
super_is_other = refl

super_is_listed : Memᴰ (codes "superuser") supers
unfolding str_contains ◌==◌
super_is_listed = str_contains_sound supers (codes "superuser") refl

super_subject :
    header_get (post_by (codes "superuser-1")) injected_subs
    ≡ codes "superuser" ++ sub_delimiter ∷ codes "1"
super_subject =
    header_get-header_set injected_subs (codes "superuser-1")
      (record request { method = codes "POST" })

super_ne_client : codes "superuser" ≢ codes "client"
super_ne_client = ground arith

super_ne_admin : codes "superuser" ≢ codes "admin"
super_ne_admin = ground arith

limit_enforce_keyed_super_example :
    limit_enforce_proxy_handler proxy
      (λ tenant s. (s, some false))
      true
      (post_by (codes "superuser-1"))
    ≡ (true, direct_broker_proxy_handler proxy (post_by (codes "superuser-1")))
limit_enforce_keyed_super_example =
    limit_enforce_keyed_super proxy (λ tenant s. (s, some false)) true
      (post_by (codes "superuser-1")) (codes "superuser") (codes "1") super_is_other (omega arith)
      (omega arith) super_is_listed super_ne_client super_ne_admin super_subject

-- The tenant `t` on the private plan.
abbrev private_tenant : TenantPlan
private_tenant = record (new_free_tenant_plan (codes "t") 0) {
  plan_type = codes "private";
  policy = private_plan;
}

abbrev private_db : TenantDb
private_db = record { tenants = (codes "t", private_tenant) ∷ []; sent = [] }

post_is_write :
    (is_get (post_by (codes "t-1")) || (post_by (codes "t-1")).method == codes "DELETE") ≡ false
unfolding header_set ◌==◌
post_is_write = refl

tenant_is_known : lookup (codes "tenant") (post_by (codes "t-1")).vars ≡ some (codes "t")
unfolding header_set lookup ◌==◌
tenant_is_known = refl

plan_is_known : lookup (codes "t") private_db.tenants ≡ some private_tenant
unfolding lookup ◌==◌
plan_is_known = refl

functions_unlimited : private_tenant.policy.functions ≡ negsuc 0
functions_unlimited = refl

subject_is_ordinary :
    is_super_subject proxy (header_get (post_by (codes "t-1")) injected_subs) ≡ false
unfolding header_get header_set lookup insert delete extract_tenant extract_from split join
    str_contains ◌==◌
subject_is_ordinary = refl

negative_limit_blocks_example :
    direct_function_proxy_handler proxy private_db (λ tenant. 0) (post_by (codes "t-1"))
    ≢ forward (codes "http://f/k/tenant/t")
negative_limit_blocks_example =
    negative_limit_blocks proxy private_db (λ tenant. 0) (post_by (codes "t-1")) (codes "t")
      private_tenant 0 post_is_write tenant_is_known plan_is_known functions_unlimited
      subject_is_ordinary (codes "http://f/k/tenant/t")

unlisted :
    tenant_management_handler true 5 (some []) none request private_db ≡ (private_db, aborted)
unfolding tenant_management_handler manage_tenant lookup str_contains ◌==◌
unlisted = refl

management_errors_example : private_db ≡ private_db
management_errors_example =
    management_errors true 5 (some []) none request private_db private_db aborted unlisted tt
