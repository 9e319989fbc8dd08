-- ===== src/Route/Handlers.antt =====
-- src/route/handlers.go: the handlers that pass a request on to the broker or the function worker.
-- A handler's outcome is an answer of its own, or the request handed to `httpProxy` or
-- `cachedGetProxy`, which `finish` carries out.
pub mod Tenants
pub mod Queries
pub mod Metrics
pub mod Beam
pub mod Tokens
pub mod Topics
pub mod Laws
use burnell.Prelude.{
  ℕ, Bool, true, false, not, ◌&&◌, ◌||◌, List, [], ◌∷◌, ◌++◌, Option, none, some, if◌then◌else◌,
  length,
}
use burnell.Prelude.Int.{ℤ, pos, ltb_ℤ}
use burnell.Text.{Text, codes, ◌==◌, has_prefix}
use burnell.Assoc.{lookup}
use burnell.Util.{single_join_slash, str_contains}
use burnell.Policy.TenantDb.{
  TenantDb, is_free_starter_plan, evaluate_namespace_limit, get_functions_limit,
}
use burnell.Route.Request.{Request, header_get, header_set}
use burnell.Route.Subject.{extract_tenant}
use burnell.Route.Middleware.{injected_subs}

-- `error_json` is `util.ResponseErrorJSON`.
pub data Outcome : Type 0 where
  forward : (request_url : Text) → Outcome
  cached_get : Outcome
  respond : (status : ℕ) (body : Text) → Outcome
  error_json : (message : Text) (status : ℕ) → Outcome

-- The configuration that the handlers read.
pub record Proxy : Type 0 where
  pub broker_proxy_url : Text
  pub function_proxy_url : Text
  pub pulsar_token : Text
  pub super_roles : List Text

-- The headers that a proxied request has.
unfoldable pub proxy_headers : Proxy → Request → Request
proxy_headers px r = header_set (codes "Authorization") (codes "Bearer " ++ px.pulsar_token) (
    header_set (codes "X-Proxy") (codes "burnell")
      (header_set (codes "X-Forwarded-Host") (header_get r (codes "Host")) r))

unfoldable pub direct_broker_proxy_handler : Proxy → Request → Outcome
direct_broker_proxy_handler px r = forward (single_join_slash px.broker_proxy_url r.uri)

abbrev pub is_get : Request → Bool
is_get r = r.method == codes "GET"

unfoldable pub cached_proxy_handler : Proxy → Request → Outcome
cached_proxy_handler px r = if is_get r then cached_get else direct_broker_proxy_handler px r

-- `exchange` is `client.Do` with the reading of the body: the status and the body, or an error of
-- either.
pub data Exchange : Type 0 where
  replied : (status : ℕ) (body : Text) → Exchange
  no_reply : Exchange
  no_body : Exchange

abbrev reply_of : Exchange → Outcome
reply_of (replied status body) = respond status body
reply_of no_reply = error_json (codes "proxy failure") 500
reply_of no_body = error_json (codes "failed to read proxy response body") 500

module _ (exchange : Text → Text → Request → Exchange) (px : Proxy) where
  unfoldable pub http_proxy : Text → Request → Outcome
  http_proxy request_url r = reply_of (exchange r.method request_url (proxy_headers px r))

  unfoldable pub cached_get_proxy : Request → Exchange
  cached_get_proxy r =
      exchange (codes "GET") (single_join_slash px.broker_proxy_url r.uri) (proxy_headers px r)

  unfoldable pub cached_proxy_get_handler : Request → Outcome
  cached_proxy_get_handler r = reply_of (cached_get_proxy r)

  unfoldable pub finish : Request → Outcome → Outcome
  finish r (forward request_url) = http_proxy request_url r
  finish r cached_get = cached_proxy_get_handler r
  finish r (respond status body) = respond status body
  finish r (error_json message status) = error_json message status

abbrev pub is_super_subject : Proxy → Text → Bool
is_super_subject px subject = str_contains px.super_roles (extract_tenant subject).1

-- A plan that is neither free nor starter: nothing is written, which is the status 200.
unfoldable pub namespace_policy_proxy_handler : Proxy → TenantDb → Request → Outcome
namespace_policy_proxy_handler px s r = elim (lookup (codes "tenant") r.vars) [
  | none ↦ respond 401 []
  | some tenant ↦
      if is_free_starter_plan s tenant then direct_broker_proxy_handler px r else respond 200 []
]

-- `limitEnforceProxyHandler` behind its checks, by the result of `eval`: `none` is an error.
abbrev by_limit : Proxy → Request → Option Bool → Outcome
by_limit px r none = respond 401 (codes "limit not evaluated")
by_limit px r (some true) = direct_broker_proxy_handler px r
by_limit px r (some false) = respond 402 (codes "over the quota limit")

unfoldable pub limit_enforce_proxy_handler :
    {S : Type 0} → Proxy → (eval : Text → S → S × Option Bool) → S → Request → S × Outcome
limit_enforce_proxy_handler px eval s r =
    let subject = header_get r injected_subs in
    if is_get r
    then (s, cached_get)
    else if subject == []
    then (s, respond 401 (codes "missing subject"))
    else if is_super_subject px subject
    then (s, direct_broker_proxy_handler px r)
    else elim (lookup (codes "tenant") r.vars) [
      | none ↦ (s, respond 401 [])
      | some tenant ↦ let (s', result) = eval tenant s in (s', by_limit px r result)
    ]

-- With `EvaluateAlwaysSuccessful`.
unfoldable pub topic_proxy_handler : {S : Type 0} → Proxy → S → Request → S × Outcome
topic_proxy_handler px s r = limit_enforce_proxy_handler px (λ tenant s'. (s', some true)) s r

-- `namespaces` is the broker's answer to GET namespaces/{tenant}.
unfoldable pub namespace_limit_enforce_proxy_handler :
    Proxy → ℕ → Option (List Text) → TenantDb → Request → TenantDb × Outcome
namespace_limit_enforce_proxy_handler px now namespaces s r =
    limit_enforce_proxy_handler px (λ tenant s'. evaluate_namespace_limit now namespaces tenant s')
      s r

abbrev to_functions : Proxy → Request → Outcome
to_functions px r = forward (single_join_slash px.function_proxy_url r.uri)

-- `count` is `TenantFunctionCount`.
unfoldable pub over_function_limit : Proxy → TenantDb → (Text → ℕ) → Text → Request → Bool
over_function_limit px s count subject r = elim (lookup (codes "tenant") r.vars) [
  | none ↦ false
  | some tenant ↦
      not (ltb_ℤ (pos (count tenant)) (get_functions_limit s tenant))
      && not (is_super_subject px subject)
]

unfoldable pub direct_function_proxy_handler : Proxy → TenantDb → (Text → ℕ) → Request → Outcome
direct_function_proxy_handler px s count r =
    let subject = header_get r injected_subs in
    if is_get r || r.method == codes "DELETE"
    then to_functions px r
    else if subject == []
    then respond 401 (codes "missing subject")
    else if over_function_limit px s count subject r
    then respond 402
        (codes "over the number of function limit under the current plan, please upgrade your plan")
    else to_functions px r
