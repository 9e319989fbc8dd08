-- ===== src/E2e/TenantRest.antt =====
-- src/e2etest/tenant-management/tenant-rest.go. `marshal` is `json.Marshal` of a plan, the constant
-- `superuserToken` the argument `superuser_token`.
use burnell.Prelude.{Option, none, some, [], ◌++◌, nat_eq}
use burnell.Text.{Text, codes}
use burnell.Policy.Plan.{TenantPlan, empty_plan, activated, starter_tier}
use burnell.E2e.{fatal, Program, Client, ◌>>=◌, ◌>>◌, eval, do_or_panic, do_or_fatal, authorized}

abbrev pub server_address : Text
server_address = codes "http://localhost:8964"

abbrev pub rest_url : Text
rest_url = server_address ++ codes "/k/tenant"

abbrev pub tenant_key : Text
tenant_key = codes "tenant22"

abbrev pub tenant_plan : TenantPlan
tenant_plan = record empty_plan {
  name = tenant_key;
  tenant_status = activated;
  plan_type = starter_tier;
}

module _ {W : Type 0} (client : Client W) (superuser_token : Text) where
  unfoldable pub add_tenant : (TenantPlan → Option Text) → Program W (Unit {0})
  unfolding eval do_or_fatal
  add_tenant marshal s = elim (marshal tenant_plan) [
    | none ↦ (s, fatal)
    | some req_json ↦
        (do_or_fatal client
              (authorized superuser_token (codes "POST") (rest_url ++ codes "/tenant22") req_json)
            >>= λ status. eval (nat_eq status 200))
          s
  ]

  unfoldable pub get_tenant : Text → Program W (Unit {0})
  unfolding eval do_or_panic
  get_tenant key =
      do_or_panic client
        (authorized superuser_token (codes "GET") (rest_url ++ (codes "/" ++ key)) [])
      >>= λ status. eval (nat_eq status 200)

  unfoldable pub delete_tenant : Text → Program W (Unit {0})
  unfolding eval do_or_panic
  delete_tenant key =
      do_or_panic client
        (authorized superuser_token (codes "DELETE") (rest_url ++ (codes "/" ++ key)) [])
      >>= λ status. eval (nat_eq status 200)

  unfoldable pub main : (TenantPlan → Option Text) → Program W (Unit {0})
  main marshal = do add_tenant marshal; get_tenant tenant_key; delete_tenant tenant_key
