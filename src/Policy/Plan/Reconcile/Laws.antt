-- ===== src/Policy/Plan/Reconcile/Laws.antt =====
-- What `ReconcileTenantPlan` keeps of a plan.
use burnell.Prelude.{◌≡◌, ◌≢◌, ◌↔◌, refl, false, List, [], ◌∷◌, none, some, arith, ℕ, All, subst}
use burnell.Prelude.Int.{pos, eqb_ℤ_iff, ◌*ℤ◌, wrap}
use burnell.Text.{Text, codes, to_lower}
use burnell.Text.Laws.{eq_iff}
use burnell.Util.{assign_string}
use burnell.Icrypto.Period.{hour}
use burnell.Policy.Plan.{
  TenantPlan, PlanPolicy, reserved0, get_plan_policy, is_empty_plan, empty_policy,
}
use burnell.Policy.Plan.Reconcile.{reconcile_tenant_plan, create_plan, merge_plan}

-- The retention in nanoseconds is the one in hours.
abbrev pub RetentionAgrees : PlanPolicy → Type 0
RetentionAgrees p = p.message_retention ≡ wrap (p.message_hour_retention *ℤ pos hour)

-- A plan that can be told from no plan: its status is set, its limits are not zero, and its two
-- retentions agree.
pub record IsInUse (t : TenantPlan) : Type 0 where
  pub status : t.tenant_status ≢ reserved0
  pub retention : RetentionAgrees t.policy
  pub topics : t.policy.num_of_topics ≢ pos 0
  pub namespaces : t.policy.num_of_namespaces ≢ pos 0
  pub functions : t.policy.functions ≢ pos 0

-- The types of plan that are offered.
abbrev pub tiers : List Text
tiers =
    codes "free" ∷ codes "starter" ∷ codes "production" ∷ codes "dedicated" ∷ codes "private" ∷ []

get_plan_policy-eq-none_iff : (p : Text) → (get_plan_policy p ≡ none) ↔ All (λ tier. p ≢ tier) tiers
unfolding get_plan_policy
get_plan_policy-eq-none_iff p = ground (
  arith,
  eq_iff p (codes "free"),
  eq_iff p (codes "starter"),
  eq_iff p (codes "production"),
  eq_iff p (codes "dedicated"),
  eq_iff p (codes "private"),
)

reconcile-eq-none :
    (now : ℕ) (req existing : TenantPlan)
    → (reconcile_tenant_plan now req existing ≡ none)
      ↔ (get_plan_policy (to_lower req.plan_type) ≡ none)
unfolding reconcile_tenant_plan
reconcile-eq-none now req existing = ground arith

-- A request is refused exactly if the type of plan that it names, in lower case, is none of the
-- five that are offered, whatever plan the tenant has.
pub reconcile-eq-none_iff :
    (now : ℕ) (req existing : TenantPlan)
    → (reconcile_tenant_plan now req existing ≡ none)
      ↔ All (λ tier. to_lower req.plan_type ≢ tier) tiers
reconcile-eq-none_iff now req existing =
    let (to, from) = reconcile-eq-none now req existing in
    let (out, back) = get_plan_policy-eq-none_iff (to_lower req.plan_type) in
    (λ e. out (to e), λ h. from (back h))

IsInUse-not_empty : (t : TenantPlan) → IsInUse t → is_empty_plan t ≡ false
unfolding is_empty_plan
IsInUse-not_empty t s = ground (arith, eqb_ℤ_iff t.tenant_status reserved0)

-- The policy of a plan that is made from `existing` by a request for a type of plan alone.
pub record KeepsLimits (p existing : PlanPolicy) : Type 0 where
  name : p.name ≡ existing.name
  num_of_topics : p.num_of_topics ≡ existing.num_of_topics
  num_of_namespaces : p.num_of_namespaces ≡ existing.num_of_namespaces
  message_hour_retention : p.message_hour_retention ≡ existing.message_hour_retention
  num_of_producers : p.num_of_producers ≡ existing.num_of_producers
  num_of_consumers : p.num_of_consumers ≡ existing.num_of_consumers
  functions : p.functions ≡ existing.functions
  feature_codes : p.feature_codes ≡ existing.feature_codes

pub assign_string_behind_nil : (s : Text) → assign_string ([] ∷ s ∷ []) ≡ s
unfolding assign_string
assign_string_behind_nil [] = refl
assign_string_behind_nil (c ∷ s) = refl

merge_plan-KeepsLimits :
    (now : ℕ) (req existing : TenantPlan)
    → req.policy ≡ empty_policy
    → KeepsLimits (merge_plan now req existing).policy existing.policy
unfolding merge_plan
merge_plan-KeepsLimits now req existing p = rw p (record {
  name = assign_string_behind_nil existing.policy.name;
  num_of_topics = refl;
  num_of_namespaces = refl;
  message_hour_retention = refl;
  num_of_producers = refl;
  num_of_consumers = refl;
  functions = refl;
  feature_codes = assign_string_behind_nil existing.policy.feature_codes;
})

-- Where the tenant has a plan, a request that is accepted is merged into it.
reconcile-IsInUse_merges :
    (now : ℕ) (req existing : TenantPlan) {t : TenantPlan}
    → IsInUse existing
    → reconcile_tenant_plan now req existing ≡ some t
    → merge_plan now req existing ≡ t
unfolding reconcile_tenant_plan
reconcile-IsInUse_merges now req existing s e = ground (arith, IsInUse-not_empty existing s)

-- A request that names a type of plan and no limits leaves a tenant that has a plan with the
-- limits, the policy's name and the features of that plan, also where it changes the type.
reconcile_type_alone :
    (now : ℕ) (req existing : TenantPlan) {t : TenantPlan}
    → IsInUse existing
    → req.policy ≡ empty_policy
    → reconcile_tenant_plan now req existing ≡ some t
    → (t.plan_type ≡ req.plan_type) × KeepsLimits t.policy existing.policy
reconcile_type_alone now req existing {t} s p e =
    subst (λ m. (m.plan_type ≡ req.plan_type) × KeepsLimits m.policy existing.policy)
      (reconcile-IsInUse_merges now req existing s e)
      (unfold merge_plan in refl, merge_plan-KeepsLimits now req existing p)

pub name-reconcile :
    (now : ℕ) (req existing : TenantPlan) {t : TenantPlan}
    → reconcile_tenant_plan now req existing ≡ some t
    → t.name ≡ req.name
unfolding reconcile_tenant_plan create_plan merge_plan
name-reconcile now req existing {t} e = ground arith
