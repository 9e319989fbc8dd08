-- ===== src/Policy/TenantDb/Operations.antt =====
-- The operations on the table of plans: what each leaves, on success and on an error.
use burnell.Prelude.{
  map, map-append, ℕ, ◌≡◌, ◌≢◌, refl, ap, sym, ◌∙◌, ◌⊎◌, inl, inr, Bool, true, false, List, [], ◌∷◌,
  ◌++◌, Option, none, some, arith, if◌then◌else◌, Option-cases,
}
use burnell.Prelude.Int.{eqb_ℤ_iff}
use burnell.Text.{Text, ◌==◌}
use burnell.Text.Laws.{eq_iff, eq_refl}
use burnell.Assoc.{lookup, insert, delete, lookup-insert, lookup-delete}
use burnell.Policy.Plan.{TenantPlan, deleted, free_tier, free_plan, activated, new_free_tenant_plan}
use burnell.Policy.Plan.Reconcile.{reconcile_tenant_plan}
use burnell.Policy.Plan.Reconcile.Laws.{name-reconcile}
use burnell.Policy.TenantDb.{
  TenantDb, receive, get_tenant, update_db, update_tenant, update_reply, updated,
  get_or_create_tenant, delete_tenant, or_empty_plan,
}

-- Every plan stands under its own name.
abbrev pub IsKeyed : TenantDb → Type 0
IsKeyed s = (name : Text) (t : TenantPlan) → lookup name s.tenants ≡ some t → t.name ≡ name

insert-IsKeyed :
    (t : TenantPlan) (s : TenantDb) (log : List TenantPlan)
    → IsKeyed s
    → IsKeyed (record { tenants = insert t.name t s.tenants; sent = log })
insert-IsKeyed t s log k name u e =
    ground (arith, lookup-insert t.name name t s.tenants, k name u, eq_iff t.name name)

delete-IsKeyed :
    (name : Text) (s : TenantDb) (log : List TenantPlan)
    → IsKeyed s
    → IsKeyed (record { tenants = delete name s.tenants; sent = log })
delete-IsKeyed n s log k name u e = ground (arith, lookup-delete n name s.tenants, k name u)

receive-IsKeyed : (s : TenantDb) (t : TenantPlan) → IsKeyed s → IsKeyed (receive s t)
unfolding receive
receive-IsKeyed s t k name u e =
    ground (arith, insert-IsKeyed t s s.sent k name u, delete-IsKeyed t.name s s.sent k name u)

update_db-IsKeyed :
    (sends : Bool) (now : ℕ) (t : TenantPlan) (s : TenantDb)
    → IsKeyed s
    → IsKeyed (update_db sends now t s).0
unfolding update_db
update_db-IsKeyed true now t s k =
    insert-IsKeyed (record t { updated_at = now }) s (s.sent ++ record t { updated_at = now } ∷ [])
      k
update_db-IsKeyed false now t s k = k

update_reply-state : (r : TenantDb × Option TenantPlan) → (update_reply r).0 ≡ r.0
update_reply-state (s, none) = refl
update_reply-state (s, some t) = refl

update_tenant-IsKeyed :
    (sends : Bool) (now : ℕ) (name : Text) (req : TenantPlan) (s : TenantDb)
    → IsKeyed s
    → IsKeyed (update_tenant sends now name req s).0
unfolding update_tenant
update_tenant-IsKeyed sends now name req s k =
    elim (Option-cases (
      reconcile_tenant_plan now (record req { name = name }) (or_empty_plan (get_tenant s name)))) [
        | inl e ↦ rw (e, update_tenant) k
        | inr (t, e) ↦
            rw (e, update_tenant)
              (rw (update_reply-state (update_db sends now t s))
                (update_db-IsKeyed sends now t s k))
      ]

get_or_create_tenant-IsKeyed :
    (now : ℕ) (name : Text) (s : TenantDb) → IsKeyed s → IsKeyed (get_or_create_tenant now name s).0
unfolding get_or_create_tenant new_free_tenant_plan
get_or_create_tenant-IsKeyed now name s k n u e =
    ground (arith, k n u, insert-IsKeyed (new_free_tenant_plan name now) s s.sent k n u)

-- The message that takes a tenant off.
abbrev farewell : ℕ → TenantPlan → TenantPlan
farewell now t = record t { tenant_status = deleted; updated_at = now }

-- The table and the topic behind a deletion that the topic takes.
abbrev after_delete : ℕ → Text → TenantPlan → TenantDb → TenantDb
after_delete now name t s = record {
  tenants = delete name (insert t.name (farewell now t) s.tenants);
  sent = s.sent ++ farewell now t ∷ [];
}

delete_found :
    (now : ℕ) (name : Text) (s : TenantDb) (t : TenantPlan)
    → lookup name s.tenants ≡ some t
    → delete_tenant true now name s
      ≡ (after_delete now name t s, some (record t { tenant_status = deleted }))
unfolding delete_tenant
delete_found now name s t e = rw (e, delete_tenant)

delete_unsent : (now : ℕ) (name : Text) (s : TenantDb) → delete_tenant false now name s ≡ (s, none)
unfolding delete_tenant
delete_unsent now name s = ground arith

delete_missing :
    (sends : Bool) (now : ℕ) (name : Text) (s : TenantDb)
    → lookup name s.tenants ≡ none
    → delete_tenant sends now name s ≡ (s, none)
unfolding delete_tenant
delete_missing sends now name s e = rw (e, delete_tenant)

delete_tenant-IsKeyed :
    (sends : Bool) (now : ℕ) (name : Text) (s : TenantDb)
    → IsKeyed s
    → IsKeyed (delete_tenant sends now name s).0
delete_tenant-IsKeyed false now name s k = rw (delete_unsent now name s) k
delete_tenant-IsKeyed true now name s k = elim (Option-cases (lookup name s.tenants)) [
  | inl e ↦ rw (delete_missing true now name s e) k
  | inr (t, e) ↦ rw (delete_found now name s t e) (
      delete-IsKeyed name (record s { tenants = insert t.name (farewell now t) s.tenants })
        (s.sent ++ farewell now t ∷ []) (insert-IsKeyed (farewell now t) s s.sent k))
]

-- What the listener, a request for a plan and a request to delete do keeps every plan under its
-- own name, whether or not the topic takes the message.
pub operations-IsKeyed :
    (s : TenantDb) (sends : Bool) (now : ℕ) (name : Text) (t : TenantPlan)
    → IsKeyed s
    → IsKeyed (receive s t)
      × IsKeyed (update_tenant sends now name t s).0
      × IsKeyed (get_or_create_tenant now name s).0
      × IsKeyed (delete_tenant sends now name s).0
operations-IsKeyed s sends now name t k = (
  receive-IsKeyed s t k,
  update_tenant-IsKeyed sends now name t s k,
  get_or_create_tenant-IsKeyed now name s k,
  delete_tenant-IsKeyed sends now name s k,
)

after_delete-lookup :
    (now : ℕ) (name : Text) (s : TenantDb) (t : TenantPlan) (j : Text)
    → t.name ≡ name
    → lookup j (after_delete now name t s).tenants
      ≡ (if name == j then none else lookup j s.tenants)
after_delete-lookup now name s t j e = ground (
  arith,
  lookup-delete name j (insert t.name (farewell now t) s.tenants),
  lookup-insert t.name j (farewell now t) s.tenants,
  eq_iff t.name j,
  eq_iff name j,
)

-- A tenant that is deleted is gone from the table and from no other place in it, and the topic is
-- told; on an error the table and the topic are as they were.
pub delete_tenant_cases :
    (s : TenantDb) (sends : Bool) (now : ℕ) (name : Text)
    → IsKeyed s
    → ((t : TenantPlan) × (lookup name s.tenants ≡ some t)
        × (sends ≡ true)
        × ((delete_tenant sends now name s).0.sent
            ≡ s.sent ++ record t { tenant_status = deleted; updated_at = now } ∷ [])
        × ((j : Text)
            → lookup j (delete_tenant sends now name s).0.tenants
              ≡ (if name == j then none else lookup j s.tenants)))
      ⊎ (((lookup name s.tenants ≡ none) ⊎ (sends ≡ false))
          × (delete_tenant sends now name s ≡ (s, none)))
delete_tenant_cases s false now name k = inr (inr refl, delete_unsent now name s)
delete_tenant_cases s true now name k = elim (Option-cases (lookup name s.tenants)) [
  | inl e ↦ inr (inl e, delete_missing true now name s e)
  | inr (t, e) ↦ inl (
      rw (delete_found now name s t e)
        (t, e, refl, refl, λ j. after_delete-lookup now name s t j (k name t e)))
]

-- `GetOrCreateTenant` finds the tenant from then on: asking again gives the same plan and changes
-- nothing. A tenant that was there is returned as it is, any other gets a free plan that is in use,
-- and the topic is not told of it.
pub get_or_create_tenant_settles :
    (now later : ℕ) (name : Text) (s : TenantDb)
    → let (s', t) = get_or_create_tenant now name s in
      (get_or_create_tenant later name s' ≡ (s', t))
      × (s'.sent ≡ s.sent)
      × (((s' ≡ s) × (lookup name s.tenants ≡ some t))
          ⊎ ((lookup name s.tenants ≡ none)
              × (t.plan_type ≡ free_tier)
              × (t.policy ≡ free_plan)
              × (t.tenant_status ≡ activated)))
unfolding get_or_create_tenant new_free_tenant_plan
get_or_create_tenant_settles now later name s =
    ground (arith, lookup-insert name name (new_free_tenant_plan name now) s.tenants, eq_refl name)

abbrev after_update : TenantPlan → TenantDb → TenantDb
after_update t s = record { tenants = insert t.name t s.tenants; sent = s.sent ++ t ∷ [] }

update_accepted :
    (now : ℕ) (name : Text) (req : TenantPlan) (s : TenantDb) (t : TenantPlan)
    → (update_tenant true now name req s).1 ≡ updated t
    → ((update_tenant true now name req s).0 ≡ after_update t s) × (t.name ≡ name)
unfolding update_tenant update_db
update_accepted now name req s t e =
    let named : TenantPlan = record req { name = name } in
    elim (Option-cases (reconcile_tenant_plan now named (or_empty_plan (get_tenant s name)))) [
      | inl missing ↦ absurd (cc (rw (missing, update_tenant) at e))
      | inr (plan, found) ↦
          let same : record plan { updated_at = now } ≡ t =
            ground (arith, rw (found, update_tenant) at e) in
          (
            rw (found, update_tenant) (ap (λ u. after_update u s) same),
            ap TenantPlan.name (sym same)
                ∙ name-reconcile now named (or_empty_plan (get_tenant s name)) found,
          )
    ]

receive_again :
    (t : TenantPlan) (s : TenantDb) (j : Text)
    → t.tenant_status ≢ deleted
    → lookup j (receive (after_update t s) t).tenants ≡ lookup j (after_update t s).tenants
unfolding receive
receive_again t s j live = ground (
  arith,
  eqb_ℤ_iff t.tenant_status deleted,
  lookup-insert t.name j t (insert t.name t s.tenants),
  lookup-insert t.name j t s.tenants,
)

-- A request for a plan that is accepted and sent shows up at once, unless the plan has the status
-- deleted: one message is sent, the JSON of the plan that is answered, and where that JSON decodes to
-- the plan again, this server's table is the one that its listener makes of the message.
pub update_tenant-receive :
    (marshal : TenantPlan → Text) (unmarshal : Text → TenantPlan) (now : ℕ) (name : Text)
    (req : TenantPlan) (s : TenantDb) {t : TenantPlan}
    → (update_tenant true now name req s).1 ≡ updated t
    → t.tenant_status ≢ deleted
    → unmarshal (marshal t) ≡ t
    → (map marshal (update_tenant true now name req s).0.sent
        ≡ map marshal s.sent ++ marshal t ∷ [])
      × ((j : Text)
          → lookup j (receive (update_tenant true now name req s).0 (unmarshal (marshal t))).tenants
            ≡ lookup j (update_tenant true now name req s).0.tenants)
      × (lookup name (update_tenant true now name req s).0.tenants ≡ some t)
      × (t.name ≡ name)
update_tenant-receive marshal unmarshal now name req s {t} e live again =
    let (after, named) = update_accepted now name req s t e in
    rw (after, again)
      (
        map-append marshal s.sent (t ∷ []),
        λ j. receive_again t s j live,
        ground (arith, lookup-insert t.name name t s.tenants, eq_iff t.name name),
        named,
      )
