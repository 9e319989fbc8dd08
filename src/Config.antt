-- ===== src/Config.antt =====
-- src/util/config.go and src/util/proc-mode.go: the configuration of the process.
pub mod Laws
pub mod File
use Prim.Native.String.{String}
use burnell.Prelude.{
  ℕ, Bool, true, false, not, ◌&&◌, List, [], ◌∷◌, map, if◌then◌else◌, length, ltb, nat_eq,
}
use burnell.Text.{Text, codes, ◌==◌, has_suffix, has_prefix, split, trim_space, trim_left, to_lower}

pub record Configuration : Type 0 where
  pub log_level : Text
  pub port : Text
  pub websocket_url : Text
  pub broker_proxy_url : Text
  pub function_proxy_url : Text
  pub admin_rest_prefix : Text
  pub cluster_name : Text
  pub pulsar_namespace : Text
  pub private_key_secret_name : Text
  pub public_key_secret_name : Text
  pub pulsar_public_key : Text
  pub pulsar_private_key : Text
  pub super_roles : Text
  pub pulsar_token : Text
  pub pulsar_url : Text
  pub trust_store : Text
  pub cert_file : Text
  pub key_file : Text
  pub federated_prom_url : Text
  pub federated_prom_interval : Text
  pub tenant_managment_topic : Text
  pub pulsar_beam_topic : Text
  pub log_server_port : Text

abbrev pub dummy_super_role : Text
dummy_super_role = codes "DummySuperRole"

abbrev trim_newline : Text → Text
trim_newline [] = []
trim_newline (c ∷ []) = if nat_eq c 10 then [] else c ∷ []
trim_newline (c ∷ d ∷ s) = c ∷ trim_newline (d ∷ s)

-- One round of the loop over the fields: a variable that is set takes the place of the value.
unfoldable pub override : Text → Text → Text
override value env_value = if ltb 0 (length env_value) then trim_newline env_value else value

-- The loop of `ReadConfigFile` over the fields. Each round also writes its own variable, which no
-- other round reads.
unfoldable pub override_fields : (String → Text) → Configuration → Configuration
override_fields getenv c = record {
  log_level = override c.log_level (getenv "LogLevel");
  port = override c.port (getenv "PORT");
  websocket_url = override c.websocket_url (getenv "WebsocketURL");
  broker_proxy_url = override c.broker_proxy_url (getenv "BrokerProxyURL");
  function_proxy_url = override c.function_proxy_url (getenv "FunctionProxyURL");
  admin_rest_prefix = override c.admin_rest_prefix (getenv "AdminRestPrefix");
  cluster_name = override c.cluster_name (getenv "ClusterName");
  pulsar_namespace = override c.pulsar_namespace (getenv "PulsarNamespace");
  private_key_secret_name = override c.private_key_secret_name (getenv "PrivateKeySecretName");
  public_key_secret_name = override c.public_key_secret_name (getenv "PublicKeySecretName");
  pulsar_public_key = override c.pulsar_public_key (getenv "PulsarPublicKey");
  pulsar_private_key = override c.pulsar_private_key (getenv "PulsarPrivateKey");
  super_roles = override c.super_roles (getenv "SuperRoles");
  pulsar_token = override c.pulsar_token (getenv "PulsarToken");
  pulsar_url = override c.pulsar_url (getenv "PulsarURL");
  trust_store = override c.trust_store (getenv "TrustStore");
  cert_file = override c.cert_file (getenv "CertFile");
  key_file = override c.key_file (getenv "KeyFile");
  federated_prom_url = override c.federated_prom_url (getenv "FederatedPromURL");
  federated_prom_interval = override c.federated_prom_interval (getenv "FederatedPromInterval");
  tenant_managment_topic = override c.tenant_managment_topic (getenv "TenantManagmentTopic");
  pulsar_beam_topic = override c.pulsar_beam_topic (getenv "PulsarBeamTopic");
  log_server_port = override c.log_server_port (getenv "LogServerPort");
}

unfoldable pub is_pulsar_jwt_enabled : Configuration → Bool
unfolding ◌==◌
is_pulsar_jwt_enabled c =
    if c.pulsar_public_key == c.pulsar_private_key && c.pulsar_private_key == c.super_roles
    then false
    else true

-- The global `SuperRoles` that `ReadConfigFile` sets.
unfoldable pub super_roles_of : Configuration → List Text
unfolding is_pulsar_jwt_enabled split trim_space
super_roles_of c =
    if is_pulsar_jwt_enabled c
    then map trim_space (split c.super_roles b',')
    else dummy_super_role ∷ []

unfoldable pub is_stats_mode : Configuration → Bool
unfolding ◌==◌
is_stats_mode c = not (c.federated_prom_interval == [])

unfoldable pub has_json_prefix : Text → Bool
unfolding trim_left has_prefix
has_json_prefix buf = has_prefix (trim_left buf) (codes "{")

pub data LogLevel : Type 0 where
  debug info warn error fatal : LogLevel

unfoldable pub log_level_of : Text → LogLevel
unfolding ◌==◌ to_lower trim_space
log_level_of level =
    let l = trim_space (to_lower level) in
    if l == codes "debug"
    then debug
    else if l == codes "warn"
    then warn
    else if l == codes "error"
    then error
    else if l == codes "fatal"
    then fatal
    else info

unfoldable pub is_initializer : Text → Bool
unfolding ◌==◌
is_initializer mode = mode == codes "init"

unfoldable pub is_healer : Text → Bool
unfolding ◌==◌
is_healer mode = mode == codes "healer"
