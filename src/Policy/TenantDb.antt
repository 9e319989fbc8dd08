-- ===== src/Policy/TenantDb.antt =====
-- src/policy/pulsardb.go: `TenantPolicyHandler`, the table of the tenants' plans. A Pulsar topic
-- keeps it: what is sent there comes back to the listener of every server, in order.
pub mod Replay
pub mod Restart
pub mod Order
pub mod Listener
pub mod Operations
use burnell.Prelude.{
  ℕ, ◌+◌, Bool, true, false, not, ◌||◌, List, [], ◌∷◌, ◌++◌, Option, none, some, if◌then◌else◌,
  length,
}
use burnell.Prelude.Int.{ℤ, pos, negsuc, eqb_ℤ, ltb_ℤ}
use burnell.Text.{Text, codes, ◌==◌}
use burnell.Assoc.{lookup, insert, delete}
use burnell.Policy.Plan.{
  TenantPlan, PlanPolicy, empty_plan, deleted, new_free_tenant_plan, is_feature_supported,
  free_tier, starter_tier, free_plan,
}
use burnell.Policy.Plan.Reconcile.{reconcile_tenant_plan}

-- `tenants`, and the plans whose JSON this server has sent to the topic, the oldest first. The key of
-- a message is its plan's name.
pub record TenantDb : Type 0 where
  pub tenants : List (Text × TenantPlan)
  pub sent : List TenantPlan

-- A round of `dbListener`: what `json.Unmarshal` has left in `t`.
unfoldable pub receive_into : List (Text × TenantPlan) → TenantPlan → List (Text × TenantPlan)
receive_into tenants t =
    if not (eqb_ℤ t.tenant_status deleted) then insert t.name t tenants else delete t.name tenants

unfoldable pub receive : TenantDb → TenantPlan → TenantDb
unfolding receive_into
receive s t = record s { tenants = receive_into s.tenants t }

-- The listener from the earliest message on.
unfoldable pub replay : List (Text × TenantPlan) → List TenantPlan → List (Text × TenantPlan)
replay tenants [] = tenants
replay tenants (t ∷ log) = replay (receive_into tenants t) log

unfoldable pub get_tenant : TenantDb → Text → Option TenantPlan
get_tenant s tenant_name = lookup tenant_name s.tenants

-- `updateDb`; `sends` is whether there is a producer, the plan is marshalled and the topic takes the
-- message, all of which come before any change. `none` is an error.
unfoldable pub update_db : Bool → ℕ → TenantPlan → TenantDb → TenantDb × Option TenantPlan
update_db sends now plan s =
    let stamped : TenantPlan = record plan { updated_at = now } in
    if sends
    then (
      record { tenants = insert plan.name stamped s.tenants; sent = s.sent ++ stamped ∷ [] },
      some stamped,
    )
    else (s, none)

-- The plan and the status code of a reply, or the status code of an error.
pub data UpdateReply : Type 0 where
  updated : TenantPlan → UpdateReply
  refused : ℕ → UpdateReply

abbrev pub or_empty_plan : Option TenantPlan → TenantPlan
or_empty_plan none = empty_plan
or_empty_plan (some t) = t

abbrev update_reply : TenantDb × Option TenantPlan → TenantDb × UpdateReply
update_reply (s, some t) = (s, updated t)
update_reply (s, none) = (s, refused 500)

unfoldable pub update_tenant : Bool → ℕ → Text → TenantPlan → TenantDb → TenantDb × UpdateReply
unfolding get_tenant
update_tenant sends now tenant_name req s =
    let named : TenantPlan = record req { name = tenant_name } in
    elim (reconcile_tenant_plan now named (or_empty_plan (get_tenant s tenant_name))) [
      | none ↦ (s, refused 422)
      | some plan ↦ update_reply (update_db sends now plan s)
    ]

unfoldable pub get_or_create_tenant : ℕ → Text → TenantDb → TenantDb × TenantPlan
unfolding get_tenant
get_or_create_tenant now tenant_name s = elim (get_tenant s tenant_name) [
  | some t ↦ (s, t)
  | none ↦
      let t : TenantPlan = new_free_tenant_plan tenant_name now in
      (record s { tenants = insert tenant_name t s.tenants }, t)
]

abbrev delete_reply :
    Text → TenantPlan → TenantDb × Option TenantPlan → TenantDb × Option TenantPlan
delete_reply tenant_name t (s, none) = (s, none)
delete_reply tenant_name t (s, some _) =
    (record s { tenants = delete tenant_name s.tenants }, some t)

unfoldable pub delete_tenant : Bool → ℕ → Text → TenantDb → TenantDb × Option TenantPlan
unfolding update_db
delete_tenant sends now tenant_name s = elim (lookup tenant_name s.tenants) [
  | none ↦ (s, none)
  | some t ↦
      let gone : TenantPlan = record t { tenant_status = deleted } in
      delete_reply tenant_name gone (update_db sends now gone s)
]

unfoldable pub evaluate_feature_code : TenantDb → Text → Text → Bool
unfolding get_tenant
evaluate_feature_code s tenant feature_code = elim (get_tenant s tenant) [
  | some t ↦ is_feature_supported feature_code t.policy.feature_codes
  | none ↦ false
]

-- `namespaces` is the broker's answer to GET namespaces/{tenant}. `none` is an error.
unfoldable pub evaluate_namespace_limit :
    ℕ → Option (List Text) → Text → TenantDb → TenantDb × Option Bool
unfolding get_or_create_tenant
evaluate_namespace_limit now namespaces tenant s =
    let (s', t) = get_or_create_tenant now tenant s in
    elim namespaces [
      | none ↦ (s', none)
      | some names ↦ (s', some (not (ltb_ℤ t.policy.num_of_namespaces (pos (length names + 1)))))
    ]

-- `counts` is the number that `CountTopics` returns. `none` is an error.
unfoldable pub evaluate_topic_limit : ℕ → ℤ → Text → TenantDb → TenantDb × Option Bool
unfolding get_or_create_tenant
evaluate_topic_limit now counts tenant s =
    let (s', t) = get_or_create_tenant now tenant s in
    if ltb_ℤ counts (pos 0) then (s', none) else (s', some (ltb_ℤ counts t.policy.num_of_topics))

unfoldable pub is_free_starter_plan : TenantDb → Text → Bool
unfolding ◌==◌
is_free_starter_plan s tenant = elim (lookup tenant s.tenants) [
  | none ↦ true
  | some t ↦ t.plan_type == free_tier || t.plan_type == starter_tier || t.plan_type == []
]

unfoldable pub get_functions_limit : TenantDb → Text → ℤ
get_functions_limit s tenant = elim (lookup tenant s.tenants) [
  | some t ↦ t.policy.functions
  | none ↦ free_plan.functions
]
