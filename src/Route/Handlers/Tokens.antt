-- ===== src/Route/Handlers/Tokens.antt =====
-- src/route/handlers.go: the handlers of tokens and of a tenant's usage. `parse_duration` is
-- `time.ParseDuration`; JSON is encoded by arguments, where `none` is an error.
use burnell.Prelude.{ℕ, Bool, List, Option, none, some, if◌then◌else◌}
use burnell.Prelude.Int.{ℤ}
use burnell.Text.{Text, codes}
use burnell.Assoc.{lookup}
use burnell.Result.{Result, ok, err, panic}
use burnell.Config.{Configuration, is_pulsar_jwt_enabled}
use burnell.Icrypto.Period.{SigningMethod, validate_claims}
use burnell.Icrypto.Keys.{KeyLibrary, RsaKeyPair, generate_token}
use burnell.Metrics.{Usage, TopicPerBrokerUsage, get_tenant_namespaces_usage}
use burnell.Metrics.Federated.{get_tenants_usage}
use burnell.Route.Request.{Request}
use burnell.Route.Handlers.{Outcome, respond}
use burnell.Route.Handlers.Queries.{query_param_string}

-- `TokenServerResponse`, or what the handler answers instead.
pub data TokenReply : Type 0 where
  token_json : (subject token : Text) → TokenReply
  no_token : (status : ℕ) → TokenReply
  token_panic : TokenReply

module _ {Priv Pub : Type 0} (lib : KeyLibrary Priv Pub) (parse_duration : Text → Option ℤ)
    (now : ℕ) where
  abbrev signed_reply : Text → Result Text → TokenReply
  signed_reply subject (ok token_string) = token_json subject token_string
  signed_reply subject (err message) = no_token 500
  signed_reply subject panic = token_panic

  abbrev by_claims : RsaKeyPair Priv Pub → Text → Option (ℤ × SigningMethod) → TokenReply
  by_claims jwt_auth subject none = no_token 422
  by_claims jwt_auth subject (some (exp, alg)) =
      signed_reply subject (generate_token lib jwt_auth subject exp alg now)

  unfoldable pub token_subject_handler : Configuration → RsaKeyPair Priv Pub → Request → TokenReply
  token_subject_handler config jwt_auth r =
      if is_pulsar_jwt_enabled config
      then elim (lookup (codes "sub") r.vars) [
        | none ↦ no_token 422
        | some subject ↦ by_claims jwt_auth subject (
            validate_claims parse_duration (query_param_string r.query (codes "exp") (codes "0m"))
              (query_param_string r.query (codes "alg") (codes "rs256")))
      ]
      else no_token 501

-- `rows_of` is go-memdb's `Get` by the tenant, `tenants` the known ones.
module _ (encode : List Usage → Option Text) (rows_of : Text → Option (List TopicPerBrokerUsage))
    (now : ℕ) where
  abbrev namespaces_usage : Text → Option (List TopicPerBrokerUsage) → Option (List Usage)
  namespaces_usage tenant none = none
  namespaces_usage tenant (some rows) = some (get_tenant_namespaces_usage now tenant rows)

  abbrev usage_reply : Option (List Usage) → Outcome
  usage_reply none = respond 500 (codes "usage error")
  usage_reply (some usages) = elim (encode usages) [
    | none ↦ respond 500 (codes "failed to marshal tenant usage data")
    | some encoded ↦ respond 200 encoded
  ]

  unfoldable pub tenant_usage_handler : List (Text × Bool) → Request → Outcome
  tenant_usage_handler tenants r = elim (lookup (codes "tenant") r.vars) [
    | some tenant ↦ usage_reply (namespaces_usage tenant (rows_of tenant))
    | none ↦ usage_reply (get_tenants_usage now rows_of tenants)
  ]
