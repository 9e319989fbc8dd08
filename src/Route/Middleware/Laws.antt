-- ===== src/Route/Middleware/Laws.antt =====
-- What a handler may rely on behind each kind of authentication.
use mathlib.Core.List.{Memᴰ}
use burnell.Prelude.{◌≡◌, ◌↔◌, true, false, some, arith}
use burnell.Text.{Text, codes}
use burnell.Text.Laws.{eq_refl}
use burnell.Result.{ok}
use burnell.Config.{dummy_super_role}
use burnell.Util.{str_contains}
use burnell.Util.Laws.{str_contains_sound, str_contains_complete}
use burnell.Route.Subject.{verify_subject}
use burnell.Assoc.{lookup, lookup-insert}
use burnell.Route.Request.{Request, header_get, header_set}
use burnell.Route.Middleware.{
  pass, Auth, injected_subs, token_str, auth_verify_jwt, auth_verify_tenant_jwt,
  super_role_required,
}

pub header_get-header_set :
    (name v : Text) (r : Request) → header_get (header_set name v r) name ≡ v
unfolding header_get header_set
header_get-header_set name v r = rw (lookup-insert, eq_refl name)

-- The only request that these handlers pass on in place of `r`.
abbrev pub Stamped : Text → Request → Request → Type 0
Stamped subject r next = next ≡ header_set injected_subs subject r

-- With tokens checked, `AuthVerifyTenantJWT` passes a request on exactly if the token has a subject that
-- `VerifySubject` accepts for the tenant of the route; what it passes on differs from the request
-- in the header `injectedSubs` alone, which then holds the subject of the token.
pub auth_verify_tenant_jwt_iff :
    (auth : Auth) (r next : Request)
    → auth.jwt_enabled ≡ true
    → (auth_verify_tenant_jwt auth r ≡ pass next) ↔ (
        (subjects : Text) × (tenant : Text) × (auth.token_subject (token_str r) ≡ ok subjects)
        × (lookup (codes "tenant") r.vars ≡ some tenant)
        × (verify_subject auth.super_roles tenant subjects ≡ true)
        × Stamped subjects r next)
unfolding auth_verify_tenant_jwt header_set
auth_verify_tenant_jwt_iff auth r next on = ground arith

super_role_required-passes :
    (auth : Auth) (r next : Request)
    → auth.jwt_enabled ≡ true
    → super_role_required auth r ≡ pass next
    → (subject : Text) × (auth.token_subject (token_str r) ≡ ok subject)
      × (str_contains auth.super_roles subject ≡ true)
      × (next ≡ r)
unfolding super_role_required
super_role_required-passes auth r next on e = ground arith

-- With tokens checked, `SuperRoleRequired` passes a request on exactly if the subject of the token is one of the super
-- roles, and passes it on unchanged: the header `injectedSubs` is what the client has sent.
pub super_role_required_iff :
    (auth : Auth) (r next : Request)
    → auth.jwt_enabled ≡ true
    → (super_role_required auth r ≡ pass next) ↔ (
        (subject : Text) × (auth.token_subject (token_str r) ≡ ok subject)
        × Memᴰ subject auth.super_roles
        × (next ≡ r))
unfolding super_role_required
super_role_required_iff auth r next on = (
  λ e.
      let (subject, known, listed, same) = super_role_required-passes auth r next on e in
      (subject, known, str_contains_sound auth.super_roles subject listed, same),
  λ (subject, known, member, same).
      ground (arith, str_contains_complete auth.super_roles subject member),
)

-- With tokens checked, `AuthVerifyJWT` passes a request on exactly if its token has a subject, which is then the value
-- of the header `injectedSubs`.
pub auth_verify_jwt_iff :
    (auth : Auth) (r next : Request)
    → auth.jwt_enabled ≡ true
    → (auth_verify_jwt auth r ≡ pass next) ↔ (
        (subjects : Text) × (auth.token_subject (token_str r) ≡ ok subjects)
        × Stamped subjects r next)
unfolding auth_verify_jwt
auth_verify_jwt_iff auth r next on = ground arith

-- With the check of tokens switched off each of the three passes every request on, as one of the
-- dummy super role.
pub open_to_all :
    (auth : Auth) (r : Request)
    → auth.jwt_enabled ≡ false
    → (auth_verify_jwt auth r ≡ pass (header_set injected_subs dummy_super_role r))
      × (auth_verify_tenant_jwt auth r ≡ pass (header_set injected_subs dummy_super_role r))
      × (super_role_required auth r ≡ pass (header_set injected_subs dummy_super_role r))
unfolding auth_verify_jwt auth_verify_tenant_jwt super_role_required
open_to_all auth r off = ground arith
