-- ===== src/K8s/Start.antt =====
-- src/k8s/clientset.go: how the client is made, and the listings. client-go's constructors are
-- arguments, a configuration is of the type `C`; `none` is the pointer nil.
use burnell.Prelude.{◌≡◌, Bool, [], ◌++◌, Option, none, some, if◌then◌else◌}
use burnell.Text.{Text, codes, ◌==◌}
use burnell.Result.{Result, ok, err, panic, ◌>>=◌}

pub record Constructors (C Clientset Metrics : Type 0) : Type 0 where
  pub is_not_exist : Text → Bool
  pub in_cluster_config : Result C
  pub build_config_from_flags : Text → Result C
  pub new_for_config : Option C → Result Clientset
  pub new_metrics_for_config : Option C → Result Metrics

pub record Client (Clientset Metrics : Type 0) : Type 0 where
  pub clientset : Clientset
  pub metrics : Metrics
  pub cluster_name : Text
  pub default_namespace : Text

abbrev given : {C : Type 0} → Result C → Result (Option C)
given (ok config) = ok (some config)
given (err message) = err message
given panic = panic

abbrev pub kubeconfig : Text → Text
kubeconfig home = home ++ codes "/.kube/config"

module _ {C Clientset Metrics : Type 0} (kube : Constructors C Clientset Metrics) where
  -- Without a home directory the configuration stays nil.
  unfoldable pub config_of : Text → Result (Option C)
  config_of home =
      if home == []
      then ok none
      else if kube.is_not_exist (kubeconfig home)
      then given kube.in_cluster_config
      else given (kube.build_config_from_flags (kubeconfig home))

  unfoldable pub get_k8s_client : Text → Result (Client Clientset Metrics)
  get_k8s_client home = do
    config ← config_of home
    clientset ← kube.new_for_config config
    metrics ← kube.new_metrics_for_config config
    ok (record {
      clientset = clientset;
      metrics = metrics;
      cluster_name = [];
      default_namespace = [];
    })

  abbrev or_panic : Result (Client Clientset Metrics) → Result (Client Clientset Metrics)
  or_panic (ok client) = ok client
  or_panic (err message) = panic
  or_panic panic = panic

  -- `Init`
  unfoldable pub init : Text → Result (Client Clientset Metrics)
  init home = or_panic (get_k8s_client home)

  abbrev or_fatal : {A : Type 0} → Result A → Result A
  or_fatal (ok a) = ok a
  or_fatal (err message) = panic
  or_fatal panic = panic

  -- `log.Fatalf` ends the process.
  unfoldable pub build_in_cluster_config : Result Clientset
  build_in_cluster_config = do
    config ← or_fatal kube.in_cluster_config
    or_fatal (kube.new_for_config (some config))

  -- Where `NewForConfig` panics on nil, a process without a home directory does, although the
  -- configuration inside the cluster is there.
  pub init-no_home : kube.new_for_config none ≡ panic → init [] ≡ panic
  unfolding init get_k8s_client config_of ◌==◌
  init-no_home nil = rw (init, get_k8s_client, config_of, nil)

-- `list` is the listing of deployments or of stateful sets by namespace and label selector.
unfoldable pub component_selector : Text → Text
component_selector component = codes "component=" ++ component

unfoldable pub get_deployments : {A : Type 0} → (Text → Text → Result A) → Text → Text → Result A
get_deployments list namespace component = list namespace (component_selector component)

unfoldable pub get_stateful_sets : {A : Type 0} → (Text → Text → Result A) → Text → Text → Result A
get_stateful_sets list namespace component = list namespace (component_selector component)
