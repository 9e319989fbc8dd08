-- ===== src/Policy/Plan.antt =====
-- src/policy/policy.go: the plans that are offered, and the features of a plan.
pub mod Reconcile
use burnell.Prelude.{
  ℕ, Bool, true, false, ◌&&◌, ◌||◌, List, [], ◌∷◌, Option, none, some, if◌then◌else◌,
}
use burnell.Prelude.Int.{ℤ, pos, negsuc, eqb_ℤ}
use burnell.Text.{Text, codes, ◌==◌, split}
use burnell.Util.{str_contains}

-- An `int` in Go, and any number in a message; these are the named ones.
abbrev pub TenantStatus : Type 0
TenantStatus = ℤ

abbrev pub reserved0 : TenantStatus
reserved0 = pos 0

abbrev pub activated : TenantStatus
activated = pos 1

abbrev pub deactivated : TenantStatus
deactivated = pos 2

abbrev pub suspended : TenantStatus
suspended = pos 3

abbrev pub deleted : TenantStatus
deleted = pos 4

abbrev pub free_tier : Text
free_tier = codes "free"

abbrev pub starter_tier : Text
starter_tier = codes "starter"

abbrev pub feature_all_enabled : Text
feature_all_enabled = codes "all-enabled"

abbrev pub feature_all_disabled : Text
feature_all_disabled = codes "all-disabled"

pub record PlanPolicy : Type 0 where
  pub name : Text
  pub num_of_topics : ℤ
  pub num_of_namespaces : ℤ
  pub message_hour_retention : ℤ
  pub message_retention : ℤ
  pub num_of_producers : ℤ
  pub num_of_consumers : ℤ
  pub functions : ℤ
  pub feature_codes : Text
  pub reserved_0 : Text
  pub reserved_1 : Text

-- `updated_at` counts nanoseconds from Go's zero time, which is 0.
pub record TenantPlan : Type 0 where
  pub name : Text
  pub tenant_status : TenantStatus
  pub org : Text
  pub users : Text
  pub plan_type : Text
  pub updated_at : ℕ
  pub policy : PlanPolicy
  pub audit : Text

-- `PlanPolicy{}` and `TenantPlan{}`
abbrev pub empty_policy : PlanPolicy
empty_policy = record {
  name = [];
  num_of_topics = pos 0;
  num_of_namespaces = pos 0;
  message_hour_retention = pos 0;
  message_retention = pos 0;
  num_of_producers = pos 0;
  num_of_consumers = pos 0;
  functions = pos 0;
  feature_codes = [];
  reserved_0 = [];
  reserved_1 = [];
}

abbrev pub empty_plan : TenantPlan
empty_plan = record {
  name = [];
  tenant_status = pos 0;
  org = [];
  users = [];
  plan_type = [];
  updated_at = 0;
  policy = empty_policy;
  audit = [];
}

-- `TenantPlanPolicies`
abbrev pub free_plan : PlanPolicy
free_plan = record {
  name = free_tier;
  num_of_topics = pos 5;
  num_of_namespaces = pos 1;
  message_hour_retention = pos 48;
  message_retention = pos 172800000000000;
  num_of_producers = pos 3;
  num_of_consumers = pos 5;
  functions = pos 1;
  feature_codes = feature_all_disabled;
  reserved_0 = [];
  reserved_1 = [];
}

abbrev pub starter_plan : PlanPolicy
starter_plan = record {
  name = starter_tier;
  num_of_topics = pos 20;
  num_of_namespaces = pos 2;
  message_hour_retention = pos 168;
  message_retention = pos 604800000000000;
  num_of_producers = pos 30;
  num_of_consumers = pos 50;
  functions = pos 10;
  feature_codes = feature_all_disabled;
  reserved_0 = [];
  reserved_1 = [];
}

abbrev pub production_plan : PlanPolicy
production_plan = record {
  name = codes "production";
  num_of_topics = pos 100;
  num_of_namespaces = pos 6;
  message_hour_retention = pos 336;
  message_retention = pos 1209600000000000;
  num_of_producers = pos 60;
  num_of_consumers = pos 100;
  functions = pos 20;
  feature_codes = feature_all_disabled;
  reserved_0 = [];
  reserved_1 = [];
}

abbrev pub dedicated_plan : PlanPolicy
dedicated_plan = record {
  name = codes "dedicated";
  num_of_topics = pos 1000;
  num_of_namespaces = pos 500;
  message_hour_retention = pos 504;
  message_retention = pos 1814400000000000;
  num_of_producers = pos 300;
  num_of_consumers = pos 500;
  functions = pos 30;
  feature_codes = feature_all_disabled;
  reserved_0 = [];
  reserved_1 = [];
}

abbrev pub private_plan : PlanPolicy
private_plan = record {
  name = codes "private";
  num_of_topics = pos 5000;
  num_of_namespaces = pos 1000;
  message_hour_retention = pos 672;
  message_retention = pos 2419200000000000;
  num_of_producers = negsuc 0;
  num_of_consumers = negsuc 0;
  functions = negsuc 0;
  feature_codes = feature_all_enabled;
  reserved_0 = [];
  reserved_1 = [];
}

unfoldable pub get_plan_policy : Text → Option PlanPolicy
unfolding ◌==◌
get_plan_policy plan =
    if plan == free_tier
    then some free_plan
    else if plan == starter_tier
    then some starter_plan
    else if plan == codes "production"
    then some production_plan
    else if plan == codes "dedicated"
    then some dedicated_plan
    else if plan == codes "private"
    then some private_plan
    else none

unfoldable pub is_feature_supported : Text → Text → Bool
unfolding ◌==◌ split
is_feature_supported feature feature_codes =
    feature_codes == feature_all_enabled || str_contains (split feature_codes b',') feature

unfoldable pub new_free_tenant_plan : Text → ℕ → TenantPlan
new_free_tenant_plan tenant_name now = record {
  name = tenant_name;
  tenant_status = activated;
  org = [];
  users = [];
  plan_type = free_tier;
  updated_at = now;
  policy = free_plan;
  audit = codes "automatically created free plan";
}

-- The program compares structs field by field.
unfoldable pub is_empty_policy : PlanPolicy → Bool
unfolding ◌==◌
is_empty_policy p =
    p.name == []
    && eqb_ℤ p.num_of_topics (pos 0)
    && eqb_ℤ p.num_of_namespaces (pos 0)
    && eqb_ℤ p.message_hour_retention (pos 0)
    && eqb_ℤ p.message_retention (pos 0)
    && eqb_ℤ p.num_of_producers (pos 0)
    && eqb_ℤ p.num_of_consumers (pos 0)
    && eqb_ℤ p.functions (pos 0)
    && p.feature_codes == []
    && p.reserved_0 == []
    && p.reserved_1 == []

unfoldable pub is_empty_plan : TenantPlan → Bool
unfolding ◌==◌
is_empty_plan t =
    t.name == []
    && eqb_ℤ t.tenant_status (pos 0)
    && t.org == []
    && t.users == []
    && t.plan_type == []
    && eqb_ℤ (pos t.updated_at) (pos 0)
    && is_empty_policy t.policy
    && t.audit == []
