-- ===== src/Route/Middleware/Tenants.antt =====
-- src/route/middleware.go, `AuthVerifyTenantJWT`: which requests come to the handler of a tenant's
-- route, with the subjects of tokens as src/route/handlers.go reads them.
use mathlib.Core.List.{Memᴰ}
use burnell.Prelude.{◌≡◌, ◌↔◌, ◌⊎◌, inl, inr, refl, true, false, some, List, ◌∷◌, ◌++◌, Bool-cases}
use burnell.Text.{Text, codes}
use burnell.Text.Split.{Lacks}
use burnell.Text.Search.{find_first, nowhere, first_place}
use burnell.Result.{ok}
use burnell.Assoc.{lookup}
use burnell.Config.{dummy_super_role}
use burnell.Route.Request.{Request}
use burnell.Route.Subject.{verify_subject}
use burnell.Route.Subject.Tenancy.{Covers, verify_subject_iff}
use burnell.Route.Middleware.{pass, Auth, token_str, auth_verify_tenant_jwt}
use burnell.Route.Middleware.Laws.{Stamped, auth_verify_tenant_jwt_iff, open_to_all}

-- The text before the first comma of the subjects is a super role or acts for the tenant.
abbrev pub FirstActsFor : List Text → Text → Text → Type 0
FirstActsFor super_roles tenant subjects =
    (first : Text) × Lacks b',' first
    × ((subjects ≡ first) ⊎ ((rest : Text) × (subjects ≡ first ++ b',' ∷ rest)))
    × (Memᴰ first super_roles ⊎ Covers tenant first)

verify_subject-FirstActsFor :
    (super_roles : List Text) (tenant subjects : Text)
    → (verify_subject super_roles tenant subjects ≡ true) ↔ FirstActsFor super_roles tenant subjects
verify_subject-FirstActsFor super_roles tenant subjects = (
  λ h. elim (find_first subjects b',') [
    | nowhere l i ↦
        (subjects, l, inl refl, (verify_subject_iff super_roles tenant subjects subjects l).1.0 h)
    | first_place first rest e l i ↦ (
      first,
      l,
      inr (rest, e),
      (verify_subject_iff super_roles tenant first rest l).0.0 (rw e at h),
    )
  ],
  λ (first, l, parts, acts). elim parts [
    | inl e ↦ rw e ((verify_subject_iff super_roles tenant first first l).1.1 acts)
    | inr (rest, e) ↦ rw e ((verify_subject_iff super_roles tenant first rest l).0.1 acts)
  ],
)

-- Where tokens are checked, the token has subjects, the first of which is a super role or acts for
-- the tenant that the route names; they become the header `injectedSubs`. Where they are not, every
-- request is one of the dummy super role.
abbrev pub Admits : Auth → Request → Request → Type 0
Admits auth r next =
    ((auth.jwt_enabled ≡ false) × Stamped dummy_super_role r next)
    ⊎ ((auth.jwt_enabled ≡ true)
        × ((subjects : Text) × (tenant : Text) × (auth.token_subject (token_str r) ≡ ok subjects)
            × (lookup (codes "tenant") r.vars ≡ some tenant)
            × FirstActsFor auth.super_roles tenant subjects
            × Stamped subjects r next))

checked-Admits :
    (auth : Auth) (r next : Request)
    → auth.jwt_enabled ≡ true
    → (auth_verify_tenant_jwt auth r ≡ pass next) ↔ Admits auth r next
checked-Admits auth r next on = (
  λ e.
      let (subjects, tenant, decoded, routed, verified, stamped) =
        (auth_verify_tenant_jwt_iff auth r next on).0 e in
      inr (
        on,
        (
          subjects,
          tenant,
          decoded,
          routed,
          (verify_subject-FirstActsFor auth.super_roles tenant subjects).0 verified,
          stamped,
        ),
      ),
  λ h. elim h [
    | inl (off, stamped) ↦ cc
    | inr (on', (subjects, tenant, decoded, routed, acts, stamped)) ↦
        (auth_verify_tenant_jwt_iff auth r next on).1 (
          subjects,
          tenant,
          decoded,
          routed,
          (verify_subject-FirstActsFor auth.super_roles tenant subjects).1 acts,
          stamped,
        )
  ],
)

unchecked-Admits :
    (auth : Auth) (r next : Request)
    → auth.jwt_enabled ≡ false
    → (auth_verify_tenant_jwt auth r ≡ pass next) ↔ Admits auth r next
unchecked-Admits auth r next off =
    let (one, passes, three) = open_to_all auth r off in
    (
      λ e. inl (off, cc),
      λ h. elim h [ inl (off', stamped) ↦ rw stamped passes | inr (on, found) ↦ cc ],
    )

-- `AuthVerifyTenantJWT` passes a request on exactly in these cases, and as the request that they
-- name: with tokens checked, for a token whose first subject is a super role or acts for the tenant
-- of the route, with the token's subjects in the header `injectedSubs`; with tokens not checked,
-- always, with the dummy super role in that header.
pub auth_verify_tenant_jwt-Admits :
    (auth : Auth) (r next : Request)
    → (auth_verify_tenant_jwt auth r ≡ pass next) ↔ Admits auth r next
auth_verify_tenant_jwt-Admits auth r next = elim (Bool-cases auth.jwt_enabled) [
  | inl on ↦ checked-Admits auth r next on
  | inr off ↦ unchecked-Admits auth r next off
]
