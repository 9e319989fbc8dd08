-- ===== src/Tests/Plans.antt =====
-- Tests of the plans and of the table that holds them.
use burnell.Prelude.{
  map, ◌≡◌, refl, true, false, ◌⊎◌, [], ◌∷◌, ◌++◌, none, some, arith, if◌then◌else◌,
}
use burnell.Text.{Text, codes, ◌==◌, to_lower}
use burnell.Text.Laws.{eq_iff}
use burnell.Assoc.{lookup}
use burnell.Policy.Plan.{
  TenantPlan, empty_plan, free_plan, free_tier, activated, deleted, get_plan_policy, is_empty_plan,
  is_empty_policy,
}
use burnell.Policy.Plan.Reconcile.{reconcile_tenant_plan, merge_plan}
use burnell.Policy.TenantDb.{
  TenantDb, receive, update_tenant, get_or_create_tenant, delete_tenant, update_db,
}
use burnell.Policy.TenantDb.Operations.{
  IsKeyed, operations-IsKeyed, delete_tenant_cases, update_tenant-receive,
}

abbrev ann : TenantPlan
ann = record {
  name = codes "ann";
  tenant_status = activated;
  org = [];
  users = [];
  plan_type = free_tier;
  updated_at = 7;
  policy = free_plan;
  audit = codes "initial creation,";
}

abbrev upgrade : TenantPlan
upgrade = record empty_plan { name = codes "ann"; plan_type = codes "Starter" }

abbrev db : TenantDb
db = record { tenants = (codes "ann", ann) ∷ []; sent = [] }

db-IsKeyed : IsKeyed db
unfolding lookup
db-IsKeyed name t e = ground (arith, eq_iff (codes "ann") name)

operations-IsKeyed_example :
    IsKeyed (receive db ann)
    × IsKeyed (update_tenant true 9 (codes "bob") ann db).0
    × IsKeyed (get_or_create_tenant 9 (codes "bob") db).0
    × IsKeyed (delete_tenant true 9 (codes "bob") db).0
operations-IsKeyed_example = operations-IsKeyed db true 9 (codes "bob") ann db-IsKeyed

delete_tenant_cases_example :
    ((t : TenantPlan) × (lookup (codes "ann") db.tenants ≡ some t)
      × (true ≡ true)
      × ((delete_tenant true 9 (codes "ann") db).0.sent
          ≡ [] ++ record t { tenant_status = deleted; updated_at = 9 } ∷ [])
      × ((j : Text)
          → lookup j (delete_tenant true 9 (codes "ann") db).0.tenants
            ≡ (if codes "ann" == j then none else lookup j db.tenants)))
    ⊎ (((lookup (codes "ann") db.tenants ≡ none) ⊎ (true ≡ false))
        × (delete_tenant true 9 (codes "ann") db ≡ (db, none)))
delete_tenant_cases_example = delete_tenant_cases db true 9 (codes "ann") db-IsKeyed

abbrev stored : TenantPlan
stored = record (merge_plan 9 upgrade ann) { updated_at = 9 }

-- An encoding by the name alone, which tells the stored plan.
abbrev name_only : TenantPlan → Text
name_only t = t.name

abbrev decode_stored : Text → TenantPlan
decode_stored name = record stored { name = name }

update_tenant-receive_example :
    (map name_only (update_tenant true 9 (codes "ann") upgrade db).0.sent ≡ codes "ann" ∷ [])
    × ((j : Text)
        → lookup j
            (receive
              (update_tenant true 9 (codes "ann") upgrade db).0
              (decode_stored (name_only stored))).tenants
          ≡ lookup j (update_tenant true 9 (codes "ann") upgrade db).0.tenants)
    × (lookup (codes "ann") (update_tenant true 9 (codes "ann") upgrade db).0.tenants ≡ some stored)
    × (stored.name ≡ codes "ann")
unfolding update_tenant update_db lookup reconcile_tenant_plan get_plan_policy is_empty_plan
    is_empty_policy to_lower merge_plan
update_tenant-receive_example =
    update_tenant-receive name_only decode_stored 9 (codes "ann") upgrade db {t = stored} refl
      (ground arith) refl
