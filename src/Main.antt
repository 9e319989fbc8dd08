-- ===== src/Main.antt =====
-- src/main.go and `Init` of src/util/config.go: how a process starts by its mode. The loading of the
-- key pair and the parsing of a URL are arguments; reading the configuration is in Config.
pub mod Laws
use burnell.Prelude.{
  ℕ, Bool, true, false, not, ◌||◌, List, [], ◌∷◌, ◌++◌, Option, none, some, if◌then◌else◌,
}
use burnell.Text.{Text, codes}
use burnell.Util.{assign_string}
use burnell.Result.{Result, ok, err, panic, ◌>>=◌}
use Prim.Native.String.{String}
use burnell.Config.File.{config_file, read_config_file}
use burnell.Config.{Configuration, is_initializer, is_healer, is_pulsar_jwt_enabled, is_stats_mode}

-- The routers of src/route/router.go.
pub data Router : Type 0 where
  healer_router : Router
  proxy_router : Router

-- What is started in the background, or run first.
pub data Task : Type 0 where
  config_keys_jwts_once : Task
  config_keys_jwts_repeated : Task
  route_init : Task
  metrics_init : Task
  function_topic_watch_dog : Task
  policy_initialize : Task

unfoldable pub process_mode : Text → Text → Text
process_mode env_mode flag_mode = assign_string (env_mode ∷ flag_mode ∷ [])

-- The tasks in their order, and the router that is served; `none` is a process that ends.
unfoldable pub start_up : Text → Configuration → List Task × Option Router
start_up mode config =
    if is_initializer mode
    then (config_keys_jwts_once ∷ [], none)
    else if is_healer mode
    then (config_keys_jwts_repeated ∷ [], some healer_router)
    else if is_stats_mode config
    then (route_init ∷ metrics_init ∷ [], some proxy_router)
    else (
      route_init ∷ metrics_init ∷ function_topic_watch_dog ∷ policy_initialize ∷ [],
      some proxy_router,
    )

-- What `util.Init` leaves in its globals.
pub record Globals (Keys : Type 0) : Type 0 where
  pub jwt_auth : Option Keys
  pub broker_proxy_url : Option Text
  pub function_proxy_url : Option Text
  pub admin_rest_prefix : Text

abbrev pub no_globals : {Keys : Type 0} → Globals Keys
no_globals = record {
  jwt_auth = none;
  broker_proxy_url = none;
  function_proxy_url = none;
  admin_rest_prefix = [];
}

module _ {Keys : Type 0} (load_keys : Text → Text → Result Keys)
    (parse_uri : Text → Option Text) where
  abbrev with_urls : Configuration → Option Keys → Option Text → Option Text → Result (Globals Keys)
  with_urls config keys (some broker) (some functions) = ok (record {
    jwt_auth = keys;
    broker_proxy_url = some broker;
    function_proxy_url = some functions;
    admin_rest_prefix = config.admin_rest_prefix;
  })
  with_urls config keys _ _ = panic

  abbrev with_keys : Configuration → Result (Option Keys) → Result (Globals Keys)
  with_keys config (ok keys) =
      with_urls config keys (parse_uri config.broker_proxy_url)
        (parse_uri config.function_proxy_url)
  with_keys config (err message) = panic
  with_keys config panic = panic

  abbrev some_keys : Result Keys → Result (Option Keys)
  some_keys (ok keys) = ok (some keys)
  some_keys (err message) = err message
  some_keys panic = panic

  unfoldable pub init_process : Text → Configuration → Result (Globals Keys)
  init_process mode config =
      if is_initializer mode || is_healer mode
      then ok no_globals
      else with_keys config (
          if is_pulsar_jwt_enabled config
          then some_keys (load_keys config.pulsar_private_key config.pulsar_public_key)
          else ok none)

-- `util.Init` from the configuration file on: the configuration, the super roles and the globals.
module _ {Keys : Type 0} (load_keys : Text → Text → Result Keys) (parse_uri : Text → Option Text)
    (read_file : Text → Option Text) (from_json from_yaml : Text → Option Configuration)
    (getenv : String → Text) where
  abbrev with_config :
      Text → Configuration × List Text → Result (Configuration × List Text × Globals Keys)
  with_config mode (config, super_roles) =
      init_process load_keys parse_uri mode config >>= λ globals. ok (config, super_roles, globals)

  unfoldable pub init : Text → Result (Configuration × List Text × Globals Keys)
  unfolding config_file
  init mode =
      read_config_file read_file from_json from_yaml getenv (config_file (getenv "BURNELL_CONFIG"))
      >>= λ read. with_config mode read
