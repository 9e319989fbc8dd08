-- ===== src/Policy/Plan/Reconcile.antt =====
-- src/policy/pulsardb.go: `ReconcileTenantPlan`, what a request makes of the plan that a tenant has.
pub mod Laws
use burnell.Prelude.{ℕ, Bool, List, [], ◌∷◌, ◌++◌, Option, none, some, if◌then◌else◌}
use burnell.Prelude.Int.{ℤ, pos, eqb_ℤ, ◌*ℤ◌, wrap}
use burnell.Text.{Text, codes, ◌==◌, to_lower}
use burnell.Util.{assign_string}
use burnell.Icrypto.Period.{hour}
use burnell.Policy.Plan.{
  TenantPlan, PlanPolicy, TenantStatus, reserved0, activated, get_plan_policy, is_empty_plan,
  is_empty_policy,
}

unfoldable pub take_non_zero : ℤ → ℤ → ℤ
take_non_zero a b = if eqb_ℤ a (pos 0) then b else a

unfoldable pub take_tenant_status : TenantStatus → TenantStatus → TenantStatus
take_tenant_status a b = if eqb_ℤ a reserved0 then b else a

-- The policy of a new plan is the one of its type, if the request has none.
unfoldable pub create_plan : ℕ → PlanPolicy → TenantPlan → TenantPlan
unfolding take_tenant_status ◌==◌
create_plan now plan_policy req = record req {
  updated_at = now;
  audit = if req.audit == [] then codes "initial creation," else req.audit;
  policy = if is_empty_policy req.policy then plan_policy else req.policy;
  tenant_status = take_tenant_status req.tenant_status activated;
}

-- What the request leaves at zero stays as it was.
unfoldable pub merge_policy : PlanPolicy → PlanPolicy → PlanPolicy
unfolding take_non_zero
merge_policy req existing =
    let hours = take_non_zero req.message_hour_retention existing.message_hour_retention in
    record req {
      num_of_topics = take_non_zero req.num_of_topics existing.num_of_topics;
      num_of_namespaces = take_non_zero req.num_of_namespaces existing.num_of_namespaces;
      num_of_producers = take_non_zero req.num_of_producers existing.num_of_producers;
      num_of_consumers = take_non_zero req.num_of_consumers existing.num_of_consumers;
      functions = take_non_zero req.functions existing.functions;
      name = assign_string (req.name ∷ existing.name ∷ []);
      feature_codes = assign_string (req.feature_codes ∷ existing.feature_codes ∷ []);
      message_hour_retention = hours;
      message_retention = wrap (hours *ℤ pos hour);
    }

unfoldable pub merge_plan : ℕ → TenantPlan → TenantPlan → TenantPlan
unfolding merge_policy take_tenant_status
merge_plan now req existing = record req {
  updated_at = now;
  policy = merge_policy req.policy existing.policy;
  tenant_status = take_tenant_status req.tenant_status existing.tenant_status;
  org = assign_string (req.org ∷ existing.org ∷ []);
  users = assign_string (req.users ∷ existing.users ∷ []);
  audit = existing.audit ++ (codes "," ++ req.audit);
}

-- `ReconcileTenantPlan`; `none` is an error.
unfoldable pub reconcile_tenant_plan : ℕ → TenantPlan → TenantPlan → Option TenantPlan
reconcile_tenant_plan now req existing = elim (get_plan_policy (to_lower req.plan_type)) [
  | none ↦ none
  | some plan_policy ↦
      if is_empty_plan existing
      then some (create_plan now plan_policy req)
      else some (merge_plan now req existing)
]
