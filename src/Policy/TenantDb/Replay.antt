-- ===== src/Policy/TenantDb/Replay.antt =====
-- The table against the topic that keeps it.
use burnell.Prelude.{◌≡◌, refl, List, [], ◌∷◌, Option, none, some, arith, if◌then◌else◌}
use burnell.Prelude.Int.{eqb_ℤ}
use burnell.Text.{Text, ◌==◌}
use burnell.Assoc.{lookup, lookup-insert, lookup-delete}
use burnell.Policy.Plan.{TenantPlan, deleted}
use burnell.Policy.TenantDb.{receive_into, replay}

-- The specification: the last message of a tenant decides, `old` before there is one.
abbrev pub visible : TenantPlan → Option TenantPlan
visible t = if eqb_ℤ t.tenant_status deleted then none else some t

abbrev pub latest : Text → Option TenantPlan → List TenantPlan → Option TenantPlan
latest name old [] = old
latest name old (t ∷ log) = latest name (if t.name == name then visible t else old) log

lookup-receive_into :
    (name : Text) (tenants : List (Text × TenantPlan)) (t : TenantPlan)
    → lookup name (receive_into tenants t)
      ≡ (if t.name == name then visible t else lookup name tenants)
unfolding receive_into
lookup-receive_into name tenants t =
    ground (arith, lookup-insert t.name name t tenants, lookup-delete t.name name tenants)

-- However long the topic, the listener's table holds of each tenant the plan of the last message
-- that names it, and nothing if that message says deleted.
pub lookup-replay :
    (name : Text) (tenants : List (Text × TenantPlan)) (log : List TenantPlan)
    → lookup name (replay tenants log) ≡ latest name (lookup name tenants) log
unfolding replay
lookup-replay name tenants [] = refl
lookup-replay name tenants (t ∷ log) =
    rw (lookup-replay name (receive_into tenants t) log, lookup-receive_into name tenants t)
