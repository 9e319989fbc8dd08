-- ===== src/K8s.antt =====
-- src/k8s/clientset.go: the secrets of the Kubernetes cluster. client-go is the argument `KubeApi`:
-- an operation for each of its calls, and what the Kubernetes API documents of them.
pub mod Memory
pub mod Laws
pub mod Start
use burnell.Prelude.{◌≡◌, Bool, ◌&&◌, List, if◌then◌else◌}
use burnell.Text.{Text, codes, ◌==◌}
use burnell.Result.{Result, ok, err, panic}

-- `core_v1.Secret`: the name of its metadata, and its data.
pub record Secret : Type 0 where
  pub name : Text
  pub contents : List (Text × Text)

-- `Secrets(namespace).Get` and `Secrets(namespace).Create` over the state `S` of the cluster.
pub record KubeApi (S : Type 0) : Type 0 where
  pub get : S → Text → Text → Result Secret
  pub create : S → Text → Secret → S × Result Secret

abbrev pub is_at : Text → Text → Text → Text → Bool
is_at k8s_namespace name k8s_namespace' name' = k8s_namespace == k8s_namespace' && name == name'

-- What the API documents: a creation that succeeds returns the secret and adds it, one that fails
-- changes nothing, and a name that is taken is refused.
pub record Documented {S : Type 0} (api : KubeApi S) : Type 0 where
  pub created :
      (s : S) (ns : Text) (secret made : Secret)
      → (api.create s ns secret).1 ≡ ok made
      → made ≡ secret
  pub get_created :
      (s : S) (ns : Text) (secret made : Secret) (ns' name' : Text)
      → (api.create s ns secret).1 ≡ ok made
      → api.get (api.create s ns secret).0 ns' name'
        ≡ (if is_at ns secret.name ns' name' then ok secret else api.get s ns' name')
  pub not_created :
      (s : S) (ns : Text) (secret : Secret) (message : Text)
      → (api.create s ns secret).1 ≡ err message
      → (api.create s ns secret).0 ≡ s
  pub no_panic : (s : S) (ns : Text) (secret : Secret) → ¬ ((api.create s ns secret).1 ≡ panic)
  pub taken :
      (s : S) (ns : Text) (secret old made : Secret)
      → api.get s ns secret.name ≡ ok old
      → ¬ ((api.create s ns secret).1 ≡ ok made)

module _ {S : Type 0} (api : KubeApi S) where
  abbrev contents_of : Result Secret → Result (List (Text × Text))
  contents_of (ok secrets) = ok secrets.contents
  contents_of (err message) = err message
  contents_of panic = panic

  unfoldable pub get_secret : S → Text → Text → Result (List (Text × Text))
  get_secret s k8s_namespace secret_name = contents_of (api.get s k8s_namespace secret_name)

  abbrev same_name : Text → Result Secret → Result (Unit {0})
  same_name secret_name (ok secret) =
      if secret.name == secret_name then ok tt else err (codes "mismatched secret name")
  same_name secret_name (err message) = err message
  same_name secret_name panic = panic

  unfoldable pub create_secret : S → Text → Text → List (Text × Text) → S × Result (Unit {0})
  create_secret s k8s_namespace secret_name contents =
      let (s', secret) =
        api.create s k8s_namespace (record { name = secret_name; contents = contents }) in
      (s', same_name secret_name secret)

  abbrev found_name : Text → Result Secret → Result (Unit {0})
  found_name secret_name (ok secret) =
      if secret.name == secret_name then ok tt else err (codes "unable to find secret")
  found_name secret_name (err message) = err message
  found_name secret_name panic = panic

  unfoldable pub verify_secret : S → Text → Text → Result (Unit {0})
  verify_secret s k8s_namespace secret_name =
      found_name secret_name (api.get s k8s_namespace secret_name)
