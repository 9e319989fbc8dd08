-- ===== src/Tests/Composition.antt =====
-- Tests of the parts that work together, of the caches and of the ciphers.
use burnell.Prelude.{
  filter, ◌≡◌, ◌↔◌, refl, Bool, true, false, List, [], ◌∷◌, ◌++◌, Option, none, some, arith,
}
use burnell.Prelude.Int.{pos, ℤ}
use burnell.Text.{
  Text, codes, ◌==◌, to_lower, trim_space, trim_left, split, replace_first, cut, join,
}
use burnell.Assoc.{lookup}
use burnell.Util.{str_contains}
use burnell.Config.{Configuration, is_pulsar_jwt_enabled}
use burnell.Policy.Plan.{TenantPlan, deleted, new_free_tenant_plan}
use burnell.Policy.TenantDb.{TenantDb, replay}
use burnell.Policy.TenantDb.Order.{of_tenant, lookup-replay_own}
use burnell.Icrypto.Token.{Claims, str, generate_claims, get_token_subject}
use burnell.Icrypto.Period.{
  rs256, validate_claims, validate_duration_period, split_unit, sig_method, is_count,
}
use burnell.Icrypto.Keys.{generate_token}
use burnell.Route.Request.{Request, header_get, header_set}
use burnell.Route.Subject.{verify_subject, verify_from, extract_tenant, extract_from}
use burnell.Route.Middleware.{
  pass, injected_subs, token_str, auth_verify_jwt, auth_verify_tenant_jwt, verify_route_tenant,
}
use burnell.Route.Handlers.{
  Proxy, is_get, direct_broker_proxy_handler, namespace_limit_enforce_proxy_handler,
}
use burnell.Route.Handlers.Queries.{query_param_string}
use burnell.Route.Handlers.Tokens.{token_subject_handler, token_json}
use burnell.Composition.Guarded.{MayCreate, guarded_namespace_iff}
use burnell.Text.Atoi.{atoi}
use burnell.Icrypto.Token.{ClaimValue, other}
use burnell.Icrypto.Keys.{KeyLibrary}
use burnell.Prelude.{ℕ, zero, suc}
use burnell.Result.{Result, ok, err}
use burnell.Composition.Issued.{is_alive, Accepts, issued_token_passes}
use burnell.Tests.Subjects.{guarded, supers, request}
use burnell.Tests.Workflow.{toy, pair}

-- A request to make a namespace of the tenant `t`, with a token of the subject `t-1`.
abbrev pub put : Request
put = record request { method = codes "PUT" }

abbrev proxy : Proxy
proxy = record {
  broker_proxy_url = codes "http://b";
  function_proxy_url = codes "http://f";
  pulsar_token = codes "x";
  super_roles = supers;
}

abbrev no_tenants : TenantDb
no_tenants = record { tenants = []; sent = [] }

put_passes : auth_verify_tenant_jwt guarded put ≡ pass (header_set injected_subs (codes "t-1") put)
unfolding auth_verify_tenant_jwt verify_route_tenant verify_subject verify_from extract_tenant
    extract_from split str_contains ◌==◌ token_str header_get header_set lookup replace_first cut
    trim_space trim_left join
put_passes = refl

put_is_other : is_get put ≡ false
unfolding ◌==◌
put_is_other = refl

guarded_namespace_iff_example :
    ((namespace_limit_enforce_proxy_handler proxy 0
        (some [])
        no_tenants
        (header_set injected_subs (codes "t-1") put)).1
      ≡ direct_broker_proxy_handler proxy (header_set injected_subs (codes "t-1") put))
    ↔ MayCreate guarded proxy 0 (some []) no_tenants put
guarded_namespace_iff_example =
    guarded_namespace_iff guarded proxy 0 (some []) no_tenants put
      (header_set injected_subs (codes "t-1") put) refl put_is_other put_passes

abbrev plan : TenantPlan
plan = new_free_tenant_plan (codes "ann") 7

abbrev gone : TenantPlan
gone = record plan { tenant_status = deleted }

abbrev nobody : List (Text × TenantPlan)
nobody = []

abbrev bob : TenantPlan
bob = new_free_tenant_plan (codes "bob") 8

own_messages :
    filter (of_tenant (codes "ann")) (plan ∷ bob ∷ gone ∷ [])
    ≡ filter (of_tenant (codes "ann")) (bob ∷ plan ∷ gone ∷ bob ∷ [])
unfolding ◌==◌ new_free_tenant_plan
own_messages = refl

lookup-replay_own_example :
    lookup (codes "ann") (replay nobody (plan ∷ bob ∷ gone ∷ []))
    ≡ lookup (codes "ann") (replay nobody (bob ∷ plan ∷ gone ∷ bob ∷ []))
lookup-replay_own_example =
    lookup-replay_own (codes "ann") nobody (plan ∷ bob ∷ gone ∷ []) (bob ∷ plan ∷ gone ∷ bob ∷ [])
      own_messages

abbrev with_keys : Configuration
with_keys = record {
  log_level = [];
  port = [];
  websocket_url = [];
  broker_proxy_url = [];
  function_proxy_url = [];
  admin_rest_prefix = [];
  cluster_name = [];
  pulsar_namespace = [];
  private_key_secret_name = [];
  public_key_secret_name = [];
  pulsar_public_key = codes "public.key";
  pulsar_private_key = codes "private.key";
  super_roles = codes "superuser";
  pulsar_token = [];
  pulsar_url = [];
  trust_store = [];
  cert_file = [];
  key_file = [];
  federated_prom_url = [];
  federated_prom_interval = [];
  tenant_managment_topic = [];
  pulsar_beam_topic = [];
  log_server_port = [];
}

-- A token of this library is the key, whether there are times, the times and the subject.
abbrev sign_subject : Text → Option ClaimValue → Result Text
sign_subject head (some (str s)) = ok (head ++ s)
sign_subject head (some other) = err []
sign_subject head none = err []

abbrev sign_claims : Claims → ℕ → Result Text
sign_claims claims n = elim claims.exp [
  | none ↦ elim claims.iat [ none ↦ sign_subject (n ∷ 0 ∷ []) claims.sub | some iat ↦ err [] ]
  | some exp ↦ elim claims.iat [
    | none ↦ err []
    | some iat ↦ sign_subject (n ∷ 1 ∷ exp ∷ iat ∷ []) claims.sub
  ]
]

abbrev clock : KeyLibrary ℕ ℕ
clock = record toy { signed_string = λ method claims k. sign_claims claims k }

-- Such a token, read again at a time.
abbrev parse_at : ℕ → Text → Option (Claims × Bool)
parse_at now (n ∷ zero ∷ s) = some (record { sub = some (str s); exp = none; iat = none }, true)
parse_at now (n ∷ suc k ∷ exp ∷ iat ∷ s) =
    let claims : Claims = record { sub = some (str s); exp = some exp; iat = some iat } in
    some (claims, is_alive now claims)
parse_at now _ = none

clock-Accepts : Accepts clock (parse_at 9000000000) (pair 5) 9000000000
clock-Accepts method claims token signed alive = ground (arith, signed, alive)

abbrev no_parse : Text → Option ℤ
no_parse s = some (pos 0)

abbrev order : Request
order = record request {
  vars = (codes "sub", codes "t-1") ∷ [];
  query = (codes "exp", codes "1d") ∷ [];
}

-- Issued at the second 7, for a day.
abbrev day_token : Text
day_token = 5 ∷ 1 ∷ 86407 ∷ 7 ∷ codes "t-1"

abbrev bearing : Request
bearing = record request { headers = (codes "Authorization", codes "Bearer" ++ day_token) ∷ [] }

ordered :
    validate_claims no_parse
      (query_param_string order.query (codes "exp") (codes "0m"))
      (query_param_string order.query (codes "alg") (codes "rs256"))
    ≡ some (pos 86400000000000, rs256)
unfolding validate_claims query_param_string validate_duration_period split_unit sig_method lookup
    to_lower trim_space trim_left ◌==◌ is_count atoi
ordered = refl

issued :
    token_subject_handler clock no_parse 7000000000 with_keys (pair 5) order
    ≡ token_json (codes "t-1") day_token
unfolding token_subject_handler validate_claims query_param_string validate_duration_period
    split_unit sig_method lookup to_lower trim_space trim_left ◌==◌ is_count atoi generate_token
    generate_claims is_pulsar_jwt_enabled
issued = refl

issued_token_passes_example :
    auth_verify_jwt
      (record {
        jwt_enabled = is_pulsar_jwt_enabled with_keys;
        super_roles = supers;
        token_subject = get_token_subject (parse_at 9000000000);
      })
      bearing
    ≡ pass (header_set injected_subs (codes "t-1") bearing)
unfolding generate_claims token_str header_get lookup replace_first cut trim_space trim_left ◌==◌
issued_token_passes_example =
    issued_token_passes clock no_parse (parse_at 9000000000) 7000000000 9000000000 with_keys
      (pair 5) supers order bearing (codes "t-1") day_token (pos 86400000000000) rs256 clock-Accepts
      ordered refl issued refl
