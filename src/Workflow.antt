-- ===== src/Workflow.antt =====
-- src/workflow/keys-jwt.go: the keys and the tokens of the admin roles, kept as Kubernetes secrets.
pub mod Keeping
pub mod Repairing
pub mod Mismatch
pub mod Bootstrap
use burnell.Prelude.{
  ℕ, zero, suc, Bool, true, false, List, [], ◌∷◌, ◌++◌, map, Option, none, some, if◌then◌else◌,
}
use burnell.Prelude.Int.{ℤ, pos}
use burnell.Text.{Text, codes, ◌==◌, split, trim_space}
use burnell.Util.{assign_string}
use burnell.Config.{Configuration}
use burnell.Result.{Result, ok, err, panic, ◌>>=◌}
use burnell.Assoc.{lookup}
use burnell.K8s.{KubeApi, get_secret, create_secret}
use burnell.Icrypto.Period.{SigningMethod, rs256}
use burnell.Icrypto.Keys.{
  KeyLibrary, RsaKeyPair, new_rsa_key_pair, load_rsa_key_pair_from_base64, generate_token,
}

pub data StepStatus : Type 0 where
  created : StepStatus
  in_progress : StepStatus
  succeeded : StepStatus
  failed : StepStatus

abbrev pub token_private_key : Text
token_private_key = codes "token-private-key"

abbrev pub token_public_key : Text
token_public_key = codes "token-public-key"

abbrev pub jwt_file_extension : Text
jwt_file_extension = codes ".jwt"

abbrev pub default_role_string : List Text
default_role_string = codes "admin" ∷ codes "proxy" ∷ codes "superuser" ∷ codes "websocket" ∷ []

unfoldable pub get_admin_roles : Text → List Text
get_admin_roles role_str =
    if role_str == [] then default_role_string else map trim_space (split role_str b',')

-- The fields that the workflow reads, and the status of its step.
pub record Cluster : Type 0 where
  pub cluster_name : Text
  pub pulsar_namespace : Text
  pub private_key_file_name : Text
  pub public_key_file_name : Text
  pub keys_and_jwt : StepStatus

unfoldable pub new_cluster : Text → Text → Text → Text → Cluster
new_cluster private_key_secret_name public_key_secret_name cluster_name k8s_namespace = record {
  cluster_name = cluster_name;
  pulsar_namespace = k8s_namespace;
  private_key_file_name = assign_string (private_key_secret_name ∷ codes "my-private.key" ∷ []);
  public_key_file_name = assign_string (public_key_secret_name ∷ codes "my-public.key" ∷ []);
  keys_and_jwt = created;
}

-- The cluster of `ConfigKeysJWTs`.
unfoldable pub configured_cluster : Configuration → Cluster
configured_cluster config =
    new_cluster config.private_key_secret_name config.public_key_secret_name config.cluster_name
      (assign_string (config.pulsar_namespace ∷ codes "burnell-ns" ∷ []))

abbrev pub secret_of_role : Text → Text
secret_of_role role = codes "token-" ++ role

-- The entry of a secret; the keys of its data are all different.
abbrev pub entry_of : Text → List (Text × Text) → Result Text
entry_of key secrets = elim (lookup key secrets) [
  | none ↦ err (codes "no key found")
  | some value ↦ ok value
]

-- The token of a role has no expiry.
abbrev pub role_token :
    {Priv Pub : Type 0} → KeyLibrary Priv Pub → ℕ → RsaKeyPair Priv Pub → Text → Result Text
role_token lib now keys role = generate_token lib keys role (pos 0) rs256 now

abbrev pub with_status :
    {S : Type 0} → Cluster → S × Result (Unit {0}) → S × Cluster × Result (Unit {0})
with_status m (s, ok done) = (s, record m { keys_and_jwt = succeeded }, ok done)
with_status m (s, err message) = (s, record m { keys_and_jwt = failed }, err message)
with_status m (s, panic) = (s, m, panic)

module _ {S Priv Pub : Type 0} (api : KubeApi S) (lib : KeyLibrary Priv Pub) (now : ℕ) where
  unfoldable pub get_key_from_secret : S → Text → Text → Text → Result Text
  get_key_from_secret s k8s_namespace secret_name secret_key =
      get_secret api s k8s_namespace secret_name >>= entry_of secret_key

  -- The loop of `KeysJWTs.Create`. What `CreateSecret` returns is dropped.
  unfoldable pub create_tokens : RsaKeyPair Priv Pub → Text → List Text → S → S × Result (Unit {0})
  create_tokens keys k8s_namespace [] s = (s, ok tt)
  create_tokens keys k8s_namespace (v ∷ roles) s =
      let role = trim_space v in
      elim (role_token lib now keys role) [
        | err message ↦ (s, err message)
        | panic ↦ (s, panic)
        | ok token_string ↦
            create_tokens keys k8s_namespace roles
              (create_secret api s k8s_namespace (secret_of_role role)
                ((role ++ jwt_file_extension, token_string) ∷ [])).0
      ]

  unfoldable pub create_key_secrets : RsaKeyPair Priv Pub → Cluster → S → S
  create_key_secrets keys m s =
      (create_secret api
        (create_secret api s m.pulsar_namespace token_private_key
          ((m.private_key_file_name, keys.private_key_bytes) ∷ [])).0
        m.pulsar_namespace token_public_key
        ((m.public_key_file_name, keys.public_key_bytes) ∷ [])).0

  -- The loop of `Repair`: a token is made for every role, a secret only where there is none.
  unfoldable pub repair_tokens : RsaKeyPair Priv Pub → Text → List Text → S → S × Result (Unit {0})
  repair_tokens keys k8s_namespace [] s = (s, ok tt)
  repair_tokens keys k8s_namespace (v ∷ roles) s =
      let role = trim_space v in
      elim (role_token lib now keys role) [
        | err message ↦ (s, err message)
        | panic ↦ (s, panic)
        | ok token_string ↦ elim (get_secret api s k8s_namespace (secret_of_role role)) [
          | ok secrets ↦ repair_tokens keys k8s_namespace roles s
          | err message ↦
              repair_tokens keys k8s_namespace roles
                (create_secret api s k8s_namespace (secret_of_role role)
                  ((role ++ jwt_file_extension, token_string) ∷ [])).0
          | panic ↦ (s, panic)
        ]
      ]

  -- `Cluster.Create` with the super roles of the configuration.
  unfoldable pub create_cluster : Text → Cluster → S → S × Cluster × Result (Unit {0})
  create_cluster super_roles m s = elim (new_rsa_key_pair lib) [
    | err message ↦ (s, m, err message)
    | panic ↦ (s, m, panic)
    | ok keys ↦ with_status m (
        create_tokens keys m.pulsar_namespace (get_admin_roles super_roles)
          (create_key_secrets keys m s))
  ]

  -- `Healer` behind its look-up of the two keys.
  unfoldable pub heal_tokens : Text → Cluster → Text → Text → S → S × Cluster × Result (Unit {0})
  heal_tokens super_roles m private_key public_key s =
      elim (load_rsa_key_pair_from_base64 lib private_key public_key) [
        | err message ↦ (s, m, err message)
        | panic ↦ (s, m, panic)
        | ok keys ↦
            with_status m (repair_tokens keys m.pulsar_namespace (get_admin_roles super_roles) s)
      ]

  unfoldable pub healer : Text → Cluster → S → S × Cluster × Result (Unit {0})
  healer super_roles m s =
      elim (get_key_from_secret s m.pulsar_namespace token_private_key m.private_key_file_name) [
        | err message ↦ create_cluster super_roles m s
        | panic ↦ (s, m, panic)
        | ok private_key ↦
            elim (get_key_from_secret s m.pulsar_namespace token_public_key
              m.public_key_file_name) [
                | err message ↦ create_cluster super_roles m s
                | panic ↦ (s, m, panic)
                | ok public_key ↦ heal_tokens super_roles m private_key public_key s
              ]
      ]

  -- The rounds of `ConfigKeysJWTs`, one for each tick; errors are logged.
  unfoldable pub heal_rounds : ℕ → Text → Cluster → S → S × Cluster
  heal_rounds zero super_roles m s = (s, m)
  heal_rounds (suc ticks) super_roles m s =
      let (s', m', result) = healer super_roles m s in heal_rounds ticks super_roles m' s'

  -- `ConfigKeysJWTs`: one round, or one for each tick of the first `ticks`.
  unfoldable pub config_keys_jwts : Bool → ℕ → Text → Cluster → S → S × Cluster
  config_keys_jwts true ticks super_roles m s = heal_rounds 1 super_roles m s
  config_keys_jwts false ticks super_roles m s = heal_rounds ticks super_roles m s
