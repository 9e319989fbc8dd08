-- ===== src/Policy/TenantDb/Restart.antt =====
-- The listener's restart: it reads the topic again from its first message, into the table that it has.
use burnell.Prelude.{
  ◌≡◌, refl, ◌∙◌, ◌⊎◌, inl, inr, List, [], ◌∷◌, ◌++◌, Option, if◌then◌else◌, Bool-cases,
}
use burnell.Text.{Text, ◌==◌}
use burnell.Text.Laws.{eq_refl}
use burnell.Assoc.{lookup}
use burnell.Policy.Plan.{TenantPlan}
use burnell.Policy.TenantDb.{replay}
use burnell.Policy.TenantDb.Replay.{latest, visible, lookup-replay}

-- Either no message names the tenant, or what was there before is forgotten.
pub latest-forgets :
    (name : Text) (log : List TenantPlan)
    → ((old : Option TenantPlan) → latest name old log ≡ old)
      ⊎ ((old other : Option TenantPlan) → latest name old log ≡ latest name other log)
latest-forgets name [] = inl (λ old. refl)
latest-forgets name (t ∷ log) = elim (Bool-cases (t.name == name)) [
  | inl e ↦ inr (λ old other. rw e refl)
  | inr e ↦ elim (latest-forgets name log) [
    | inl keeps ↦ inl (λ old. rw e (keeps old))
    | inr forgets ↦ inr (λ old other. rw e (forgets old other))
  ]
]

-- The table of a listener that has restarted and read the whole topic again is the one that it had,
-- for every tenant.
lookup-replay_again :
    (name : Text) (tenants : List (Text × TenantPlan)) (log : List TenantPlan)
    → lookup name (replay (replay tenants log) log) ≡ lookup name (replay tenants log)
lookup-replay_again name tenants log =
    rw (lookup-replay name (replay tenants log) log, lookup-replay name tenants log)
      (elim (latest-forgets name log) [
        | inl keeps ↦ rw (keeps (lookup name tenants)) (keeps (lookup name tenants))
        | inr forgets ↦ forgets (latest name (lookup name tenants) log) (lookup name tenants)
      ])

latest-append :
    (name : Text) (old : Option TenantPlan) (log : List TenantPlan) (t : TenantPlan)
    → t.name ≡ name
    → latest name old (log ++ t ∷ []) ≡ visible t
latest-append name old [] t e = rw (e, eq_refl name) refl
latest-append name old (u ∷ log) t e =
    latest-append name (if u.name == name then visible u else old) log t e

-- While a restarted listener reads the topic again, the table goes back in time: as soon as it has
-- read a message of a tenant, that tenant has the plan of that message, whatever plan or deletion
-- the table had from the messages behind it.
pub lookup-replay_midway :
    (tenants : List (Text × TenantPlan)) (log later : List TenantPlan) (t : TenantPlan)
    → lookup t.name (replay (replay tenants (log ++ t ∷ later)) (log ++ t ∷ [])) ≡ visible t
lookup-replay_midway tenants log later t =
    lookup-replay t.name (replay tenants (log ++ t ∷ later)) (log ++ t ∷ [])
    ∙ latest-append t.name (lookup t.name (replay tenants (log ++ t ∷ later))) log t refl
