-- ===== src/Composition/Guarded.antt =====
-- src/route/middleware.go with src/route/handlers.go: a request for a namespace, through the
-- middleware that checks its token and the handler that checks the tenant's limit.
use burnell.Prelude.{
  ℕ, ◌≡◌, ◌≢◌, sym, ap, ◌∙◌, ◌↔◌, ◌⊎◌, inl, inr, true, false, List, [], Option, some, arith,
}
use burnell.Text.{Text, codes}
use burnell.Assoc.{lookup}
use burnell.Result.{ok}
use burnell.Policy.TenantDb.{TenantDb, evaluate_namespace_limit}
use burnell.Route.Request.{Request, header_get, header_set}
use burnell.Route.Subject.{verify_subject}
use burnell.Route.Middleware.{Auth, pass, injected_subs, token_str, auth_verify_tenant_jwt}
use burnell.Route.Middleware.Laws.{header_get-header_set, auth_verify_tenant_jwt_iff}
use burnell.Route.Handlers.{
  Proxy, is_get, is_super_subject, direct_broker_proxy_handler,
  namespace_limit_enforce_proxy_handler,
}
use burnell.Route.Handlers.Laws.{limit_enforce_iff}

-- The conditions of a request for a namespace: the token's subject covers the tenant of the route,
-- and is one of a super role or the tenant's plan allows one more namespace.
abbrev pub MayCreate : Auth → Proxy → ℕ → Option (List Text) → TenantDb → Request → Type 0
MayCreate auth px now namespaces s r =
    (subject : Text) × (tenant : Text) × (auth.token_subject (token_str r) ≡ ok subject)
    × (lookup (codes "tenant") r.vars ≡ some tenant)
    × (verify_subject auth.super_roles tenant subject ≡ true)
    × (subject ≢ [])
    × ((is_super_subject px subject ≡ true)
        ⊎ ((evaluate_namespace_limit now namespaces tenant s).1 ≡ some true))

-- With tokens checked, a request other than GET that the middleware of a namespace's route passes on
-- reaches the broker exactly if the conditions hold.
pub guarded_namespace_iff :
    (auth : Auth) (px : Proxy) (now : ℕ) (namespaces : Option (List Text)) (s : TenantDb)
    (r next : Request)
    → auth.jwt_enabled ≡ true
    → is_get r ≡ false
    → auth_verify_tenant_jwt auth r ≡ pass next
    → ((namespace_limit_enforce_proxy_handler px now namespaces s next).1
        ≡ direct_broker_proxy_handler px next)
      ↔ MayCreate auth px now namespaces s r
unfolding namespace_limit_enforce_proxy_handler header_set
guarded_namespace_iff auth px now namespaces s r next on other passed =
    let (subject, tenant, decoded, routed, verified, stamped) =
      (auth_verify_tenant_jwt_iff auth r next on).0 passed in
    let sub : header_get next injected_subs ≡ subject =
      ap (λ q. header_get q injected_subs) stamped
      ∙ header_get-header_set injected_subs subject r in
    let vars : next.vars ≡ r.vars = ap (λ q. q.vars) stamped in
    let method : next.method ≡ r.method = ap (λ q. q.method) stamped in
    let decides =
      limit_enforce_iff px (λ t s'. evaluate_namespace_limit now namespaces t s') s next
        (rw method other) in
    (
      λ h.
          let (given, allowed) = decides.0 h in
          (
            subject,
            tenant,
            decoded,
            routed,
            verified,
            ground (arith, sub, given),
            elim allowed [
              | inl super ↦ inl (rw (sym sub) super)
              | inr (t, named, within) ↦ inr (ground (arith, named, within, routed, vars))
            ],
          ),
      λ (x, t, decoded', routed', verified', given, allowed). decides.1 (
        ground (arith, sub, decoded, decoded', given),
        elim allowed [
          | inl super ↦ inl (ground (arith, sub, decoded, decoded', super))
          | inr within ↦ inr (t, rw vars routed', within)
        ],
      ),
    )
