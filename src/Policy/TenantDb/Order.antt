-- ===== src/Policy/TenantDb/Order.antt =====
-- The order of the messages of different tenants does not matter.
use burnell.Prelude.{
  ◌≡◌, refl, sym, ap, ◌∙◌, inl, inr, Bool, true, List, [], ◌∷◌, Option, filter, Bool-cases,
}
use burnell.Text.{Text, ◌==◌}
use burnell.Assoc.{lookup}
use burnell.Policy.Plan.{TenantPlan}
use burnell.Policy.TenantDb.{replay}
use burnell.Policy.TenantDb.Replay.{latest, visible, lookup-replay}

abbrev pub of_tenant : Text → TenantPlan → Bool
of_tenant name t = t.name == name

latest-own :
    (name : Text) (old : Option TenantPlan) (t : TenantPlan) (log : List TenantPlan)
    → (t.name == name) ≡ true
    → latest name old (t ∷ log) ≡ latest name (visible t) log
latest-own name old t log e = rw e refl

latest-filter :
    (name : Text) (old : Option TenantPlan) (log : List TenantPlan)
    → latest name old (filter (of_tenant name) log) ≡ latest name old log
latest-filter name old [] = refl
latest-filter name old (t ∷ log) = elim (Bool-cases (t.name == name)) [
  | inl e ↦
      rw e
        (latest-own name old t (filter (of_tenant name) log) e ∙ latest-filter name (visible t) log)
  | inr e ↦ rw e (latest-filter name old log)
]

-- The plan that the table has of a tenant depends on that tenant's messages alone: two topics that
-- have, of that tenant, the same messages in the same order give it the same plan, however the
-- messages of other tenants stand between them.
pub lookup-replay_own :
    (name : Text) (tenants : List (Text × TenantPlan)) (log other : List TenantPlan)
    → filter (of_tenant name) log ≡ filter (of_tenant name) other
    → lookup name (replay tenants log) ≡ lookup name (replay tenants other)
lookup-replay_own name tenants log other same =
    lookup-replay name tenants log
    ∙ (sym (latest-filter name (lookup name tenants) log)
        ∙ (ap (λ own. latest name (lookup name tenants) own) same
            ∙ (latest-filter name (lookup name tenants) other
                ∙ sym (lookup-replay name tenants other))))
