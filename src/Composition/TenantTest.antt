-- ===== src/Composition/TenantTest.antt =====
-- src/e2etest/tenant-management/tenant-rest.go: when the program passes against the server.
use burnell.Prelude.{
  ℕ, ◌≡◌, refl, ap, ◌∙◌, ◌⊎◌, inl, inr, Bool, true, false, List, [], ◌∷◌, ◌++◌, Option, none, some,
  arith, if◌then◌else◌, Bool-cases, Option-cases,
}
use burnell.Text.{Text, codes, ◌==◌, to_lower}
use burnell.Text.Laws.{eq_refl}
use burnell.Assoc.{lookup, insert, delete, lookup-insert, lookup-delete}
use burnell.Util.{str_contains}
use burnell.Policy.Plan.{TenantPlan, get_plan_policy, deleted}
use burnell.Policy.Plan.Reconcile.{reconcile_tenant_plan}
use burnell.Policy.Plan.Reconcile.Laws.{name-reconcile}
use burnell.Policy.TenantDb.{
  TenantDb, get_tenant, or_empty_plan, update_db, update_tenant, get_or_create_tenant,
  delete_tenant,
}
use burnell.Route.Handlers.Tenants.{plan_json, failed, aborted, manage_tenant}
use burnell.E2e.{Ending, ◌>>◌, passed, panicked, do_or_panic, do_or_fatal}
use burnell.E2e.TenantRest.{tenant_plan, tenant_key, main}
use burnell.E2e.TenantRest
use burnell.Composition.Managed.{
  Deployed, Matches, IsSuper, answer, answer_get, answer_post, answer_delete,
}

reconcile-starter :
    (now : ℕ) (existing : TenantPlan)
    → (t : TenantPlan) × (reconcile_tenant_plan now tenant_plan existing ≡ some t)
reconcile-starter now existing =
    elim (Option-cases (reconcile_tenant_plan now tenant_plan existing)) [
      | inr found ↦ found
      | inl e ↦ absurd (offered e)
    ]
  where
    offered : reconcile_tenant_plan now tenant_plan existing ≡ none → ⊥
    offered e = unfold reconcile_tenant_plan get_plan_policy to_lower in ground arith

-- The table behind the accepted plan, and behind its deletion.
abbrev with_plan : ℕ → TenantPlan → TenantDb → TenantDb
with_plan now t s = record {
  tenants = insert t.name (record t { updated_at = now }) s.tenants;
  sent = s.sent ++ record t { updated_at = now } ∷ [];
}

posted :
    (now : ℕ) (names : Option (List Text)) (s : TenantDb)
    → (t : TenantPlan) × (t.name ≡ tenant_key)
      × (manage_tenant true now names (some tenant_plan) (codes "POST") tenant_key s
          ≡ (with_plan now t s, plan_json (record t { updated_at = now })))
unfolding manage_tenant update_tenant update_db ◌==◌
posted now names s =
    let existing = or_empty_plan (get_tenant s tenant_key) in
    let (t, e) = reconcile-starter now existing in
    (t, name-reconcile now tenant_plan existing e, rw (manage_tenant, update_tenant, e) refl)

unposted :
    (now : ℕ) (names : Option (List Text)) (s : TenantDb)
    → manage_tenant false now names (some tenant_plan) (codes "POST") tenant_key s ≡ (s, failed 500)
unfolding manage_tenant update_tenant update_db ◌==◌
unposted now names s =
    let (t, e) = reconcile-starter now (or_empty_plan (get_tenant s tenant_key)) in
    rw (manage_tenant, update_tenant, e) refl

got :
    (sends : Bool) (now : ℕ) (names : Option (List Text)) (ns : List Text) (doc : Option TenantPlan)
    (s : TenantDb) (u : TenantPlan)
    → lookup tenant_key s.tenants ≡ some u
    → names ≡ some ns
    → str_contains ns tenant_key ≡ true
    → manage_tenant sends now names doc (codes "GET") tenant_key s ≡ (s, plan_json u)
unfolding manage_tenant get_or_create_tenant get_tenant ◌==◌
got sends now names ns doc s u e is_ns listed =
    rw (manage_tenant, is_ns, listed, get_or_create_tenant, e) refl

-- What a GET of a tenant that is not listed, or with no list, answers is no plan.
not_got :
    (sends : Bool) (now : ℕ) (names : Option (List Text)) (doc : Option TenantPlan) (s : TenantDb)
    → ((names ≡ none)
        ⊎ ((ns : List Text) × (names ≡ some ns) × (str_contains ns tenant_key ≡ false)))
    → (manage_tenant sends now names doc (codes "GET") tenant_key s ≡ (s, failed 500))
      ⊎ (manage_tenant sends now names doc (codes "GET") tenant_key s ≡ (s, aborted))
unfolding manage_tenant ◌==◌
not_got sends now names doc s (inl e) = inl (rw (manage_tenant, e) refl)
not_got sends now names doc s (inr (ns, e, missing)) = inr (rw (manage_tenant, e, missing) refl)

abbrev without : TenantDb → TenantPlan → ℕ → TenantDb
without s u now =
    let gone : TenantPlan = record u { tenant_status = deleted; updated_at = now } in
    record {
      tenants = delete tenant_key (insert u.name gone s.tenants);
      sent = s.sent ++ gone ∷ [];
    }

removed :
    (sends : Bool) (now : ℕ) (names : Option (List Text)) (doc : Option TenantPlan) (s : TenantDb)
    (u : TenantPlan)
    → sends ≡ true
    → lookup tenant_key s.tenants ≡ some u
    → manage_tenant sends now names doc (codes "DELETE") tenant_key s
      ≡ (without s u now, plan_json (record u { tenant_status = deleted }))
unfolding manage_tenant delete_tenant update_db ◌==◌
removed sends now names doc s u on e = rw (manage_tenant, delete_tenant, e, on) refl

lookup-with_plan :
    (now : ℕ) (t : TenantPlan) (s : TenantDb)
    → t.name ≡ tenant_key
    → lookup tenant_key (with_plan now t s).tenants ≡ some (record t { updated_at = now })
lookup-with_plan now t s e =
    lookup-insert t.name tenant_key (record t { updated_at = now }) s.tenants
    ∙ ap (λ b. if b then some (record t { updated_at = now }) else lookup tenant_key s.tenants)
        (ap (λ k. k == tenant_key) e ∙ eq_refl tenant_key)

lookup-without :
    (now : ℕ) (name : Text) (t u : TenantPlan) (s : TenantDb)
    → t.name ≡ tenant_key
    → u.name ≡ tenant_key
    → lookup name (without (with_plan now t s) u now).tenants
      ≡ (if tenant_key == name then none else lookup name s.tenants)
lookup-without now name t u s e k = elim (Bool-cases (tenant_key == name)) [
  | inl same ↦ rw (lookup-delete, same) refl
  | inr other ↦
      rw (lookup-delete, other, lookup-insert, ap (λ n. n == name) k ∙ other)
        (rw (lookup-insert, ap (λ n. n == name) e ∙ other) refl)
]

-- The list that the server has of the cluster's tenants, with the tenant of the test.
abbrev pub Lists : Deployed → Type 0
Lists v = (ns : List Text) × (v.names ≡ some ns) × (str_contains ns tenant_key ≡ true)

Lists-or_not :
    (v : Deployed)
    → Lists v
      ⊎ ((v.names ≡ none)
          ⊎ ((ns : List Text) × (v.names ≡ some ns) × (str_contains ns tenant_key ≡ false)))
Lists-or_not v = elim (Option-cases v.names) [
  | inl e ↦ inr (inl e)
  | inr (ns, e) ↦ elim (Bool-cases (str_contains ns tenant_key)) [
    | inl h ↦ inl (ns, e, h)
    | inr h ↦ inr (inr (ns, e, h))
  ]
]

-- How the program ends, and what it leaves of a tenant where it passes.
abbrev pub TestsWell : Deployed → Text → (TenantPlan → Option Text) → TenantDb → Text → Type 0
TestsWell v token marshal s name =
    (((main (answer v) token marshal s).1 ≡ panicked) × ¬ ((v.sends ≡ true) × Lists v))
    ⊎ (((main (answer v) token marshal s).1 ≡ passed tt)
        × (v.sends ≡ true)
        × Lists v
        × (lookup name (main (answer v) token marshal s).0.tenants
            ≡ (if tenant_key == name then none else lookup name s.tenants)))

module _ (v : Deployed) (token : Text) (m : Matches v) (h : IsSuper v token)
    (marshal : TenantPlan → Option Text) (req_json : Text)
    (encoded : marshal tenant_plan ≡ some req_json)
    (decoded : v.decode req_json ≡ some tenant_plan) where
  main_unsent : (s : TenantDb) → v.sends ≡ false → main (answer v) token marshal s ≡ (s, panicked)
  unfolding main TenantRest.add_tenant
  main_unsent s off =
      rw
        (
          main,
          TenantRest.add_tenant,
          encoded,
          do_or_fatal,
          answer_post v token req_json s m h,
          off,
          decoded,
          unposted v.now v.names s,
        )
        refl

  checks : TenantDb → TenantDb × Ending (Unit {0})
  checks =
      TenantRest.get_tenant (answer v) token tenant_key
      >> TenantRest.delete_tenant (answer v) token tenant_key

  main_sent :
      (s : TenantDb) (t : TenantPlan)
      → v.sends ≡ true
      → manage_tenant true v.now v.names (some tenant_plan) (codes "POST") tenant_key s
        ≡ (with_plan v.now t s, plan_json (record t { updated_at = v.now }))
      → main (answer v) token marshal s ≡ checks (with_plan v.now t s)
  unfolding main TenantRest.add_tenant checks
  main_sent s t on post =
      rw
        (
          main,
          TenantRest.add_tenant,
          encoded,
          do_or_fatal,
          answer_post v token req_json s m h,
          on,
          decoded,
          post,
        )
        refl

  checks_unlisted :
      (s : TenantDb)
      → ((v.names ≡ none)
          ⊎ ((ns : List Text) × (v.names ≡ some ns) × (str_contains ns tenant_key ≡ false)))
      → checks s ≡ (s, panicked)
  unfolding checks TenantRest.get_tenant
  checks_unlisted s missing = elim (not_got v.sends v.now v.names (v.decode []) s missing) [
    | inl e ↦ rw (checks, TenantRest.get_tenant, do_or_panic, answer_get v token [] s m h, e) refl
    | inr e ↦ rw (checks, TenantRest.get_tenant, do_or_panic, answer_get v token [] s m h, e) refl
  ]

  checks_listed :
      (s : TenantDb) (u : TenantPlan)
      → v.sends ≡ true
      → lookup tenant_key s.tenants ≡ some u
      → Lists v
      → checks s ≡ (without s u v.now, passed tt)
  unfolding checks TenantRest.get_tenant TenantRest.delete_tenant
  checks_listed s u on there (ns, e, listed) =
      rw
        (
          checks,
          TenantRest.get_tenant,
          do_or_panic,
          answer_get v token [] s m h,
          got v.sends v.now v.names ns (v.decode []) s u there e listed,
          TenantRest.delete_tenant,
          do_or_panic,
          answer_delete v token [] s m h,
          removed v.sends v.now v.names (v.decode []) s u on there,
        )
        refl

  not_listed :
      (names : Option (List Text))
      → ((names ≡ none)
          ⊎ ((ns : List Text) × (names ≡ some ns) × (str_contains ns tenant_key ≡ false)))
      → (ns : List Text) → names ≡ some ns
      → str_contains ns tenant_key ≡ true
      → ⊥
  not_listed names (inl missing) ns e listed = cc
  not_listed names (inr (other, is_other, missing)) ns e listed = ground arith

  outcome_sent : (s : TenantDb) (name : Text) → v.sends ≡ true → TestsWell v token marshal s name
  outcome_sent s name on =
      let (t, named, post) = posted v.now v.names s in
      let sent : main (answer v) token marshal s ≡ checks (with_plan v.now t s) =
        main_sent s t on post in
      elim (Lists-or_not v) [
        | inr missing ↦ inl (
          ap (λ r. r.1) (sent ∙ checks_unlisted (with_plan v.now t s) missing),
          λ (on', (ns, e, listed)). not_listed v.names missing ns e listed,
        )
        | inl listed ↦
            let stored = lookup-with_plan v.now t s named in
            let done =
              sent
              ∙ checks_listed (with_plan v.now t s) (record t { updated_at = v.now }) on stored
                  listed in
            inr (
              ap (λ r. r.1) done,
              on,
              listed,
              ap (λ r. lookup name r.0.tenants) done
                  ∙ lookup-without v.now name t (record t { updated_at = v.now }) s named named,
            )
      ]

  -- The program of tenant-rest.go panics, and then the topic takes no messages or the cluster's
  -- tenants have none of the test's name; or it passes, both hold, and the table has every tenant
  -- of before but the one of the test. The program does not create that tenant in the cluster.
  pub tenant_rest_outcome : (s : TenantDb) (name : Text) → TestsWell v token marshal s name
  tenant_rest_outcome s name = elim (Bool-cases v.sends) [
    | inl on ↦ outcome_sent s name on
    | inr off ↦ inl (ap (λ r. r.1) (main_unsent s off), λ (on, listed). ground arith)
  ]
