-- ===== src/Route/Middleware.antt =====
-- src/route/middleware.go: who a request comes from. Each of these handlers ends by passing a
-- request on to `next` or by answering it; `Verdict` says which.
pub mod Laws
pub mod Tenants
use burnell.Prelude.{
  ℕ, Bool, true, false, List, [], ◌∷◌, ◌++◌, Option, none, some, if◌then◌else◌, ltb, length,
}
use burnell.Text.{Text, codes, replace_first, trim_space}
use burnell.Result.{Result, ok, err, panic}
use burnell.Util.{str_contains}
use burnell.Config.{dummy_super_role}
use burnell.Assoc.{lookup}
use burnell.Route.Request.{Request, header_get, header_set}
use burnell.Route.Subject.{verify_subject}

pub data Verdict : Type 0 where
  pass : Request → Verdict
  deny : (message : Text) (status : ℕ) → Verdict
  crash : Verdict

-- What the handlers read of the process: whether tokens are checked, the global `SuperRoles`, and
-- `util.JWTAuth.GetTokenSubject`.
pub record Auth : Type 0 where
  pub jwt_enabled : Bool
  pub super_roles : List Text
  pub token_subject : Text → Result Text

abbrev pub injected_subs : Text
injected_subs = codes "injectedSubs"

abbrev pub unauthorized : Verdict
unauthorized = deny (codes "Unauthorized") 401

unfoldable pub token_str : Request → Text
token_str r = trim_space (replace_first (header_get r (codes "Authorization")) (codes "Bearer") [])

-- The branch that all three share where tokens are not checked.
unfoldable pub pass_as_dummy : Request → Verdict
pass_as_dummy r = pass (header_set injected_subs dummy_super_role r)

module _ (auth : Auth) where
  unfoldable pub auth_verify_jwt : Request → Verdict
  unfolding pass_as_dummy
  auth_verify_jwt r =
      if auth.jwt_enabled
      then elim (auth.token_subject (token_str r)) [
        | ok subjects ↦ pass (header_set injected_subs subjects r)
        | err e ↦ unauthorized
        | panic ↦ crash
      ]
      else pass_as_dummy r

  -- Behind the header's update: the tenant of the route against the subjects.
  unfoldable pub verify_route_tenant : Text → Request → Verdict
  verify_route_tenant subjects r = elim (lookup (codes "tenant") r.vars) [
    | none ↦ unauthorized
    | some tenant_name ↦
        if verify_subject auth.super_roles tenant_name subjects then pass r else unauthorized
  ]

  unfoldable pub auth_verify_tenant_jwt : Request → Verdict
  unfolding pass_as_dummy verify_route_tenant
  auth_verify_tenant_jwt r =
      if auth.jwt_enabled
      then elim (auth.token_subject (token_str r)) [
        | ok subjects ↦ verify_route_tenant subjects (header_set injected_subs subjects r)
        | err e ↦ deny (codes "failed to obtain subject") 401
        | panic ↦ crash
      ]
      else pass_as_dummy r

  unfoldable pub super_role_required : Request → Verdict
  unfolding pass_as_dummy
  super_role_required r =
      if auth.jwt_enabled
      then elim (auth.token_subject (token_str r)) [
        | ok subject ↦ if str_contains auth.super_roles subject then pass r else unauthorized
        | err e ↦ unauthorized
        | panic ↦ crash
      ]
      else pass_as_dummy r

unfoldable pub auth_header_required : Request → Verdict
auth_header_required r = if ltb 1 (length (token_str r)) then pass r else unauthorized

unfoldable pub no_auth : Request → Verdict
no_auth r = pass r
