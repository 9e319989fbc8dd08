-- ===== src/Workflow/Keeping.antt =====
-- The workflow never overwrites a secret and never deletes one.
use burnell.Prelude.{ℕ, zero, suc, ◌≡◌, inl, inr, Bool, true, false, List, [], ◌∷◌, ◌++◌}
use burnell.Text.{Text, trim_space}
use burnell.Result.{Result-cases, Result, ok, err, panic}
use burnell.K8s.{Secret, KubeApi, Documented, get_secret, create_secret}
use burnell.K8s.Laws.{create_secret-keeps}
use burnell.Icrypto.Keys.{KeyLibrary, RsaKeyPair, new_rsa_key_pair, load_rsa_key_pair_from_base64}
use burnell.Workflow.{
  Cluster, role_token, secret_of_role, jwt_file_extension, create_tokens, create_key_secrets,
  repair_tokens, with_status, create_cluster, heal_tokens, healer, heal_rounds, config_keys_jwts,
  get_key_from_secret, get_admin_roles, token_private_key, token_public_key,
}

-- Every secret of the first state is in the second one, unchanged.
abbrev pub Keeps : {S : Type 0} → KubeApi S → S → S → Type 0
Keeps {S} api s s' =
    (ns name : Text) (old : Secret) → api.get s ns name ≡ ok old → api.get s' ns name ≡ ok old

module _ {S Priv Pub : Type 0} (api : KubeApi S) (d : Documented api) (lib : KeyLibrary Priv Pub)
    (now : ℕ) where
  pub create_tokens-Keeps :
      (keys : RsaKeyPair Priv Pub) (k8s_namespace : Text) (roles : List Text) (s : S)
      → Keeps api s (create_tokens api lib now keys k8s_namespace roles s).0
  unfolding create_tokens
  create_tokens-Keeps keys k8s_namespace [] s ns name old h = h
  create_tokens-Keeps keys k8s_namespace (v ∷ roles) s ns name old h =
      elim (Result-cases (role_token lib now keys (trim_space v))) [
        | inl (token_string, e) ↦
            rw (create_tokens, e)
              (create_tokens-Keeps keys k8s_namespace roles
                (create_secret api s k8s_namespace (secret_of_role (trim_space v))
                  ((trim_space v ++ jwt_file_extension, token_string) ∷ [])).0
                ns name old
                (create_secret-keeps api d s k8s_namespace (secret_of_role (trim_space v))
                  ((trim_space v ++ jwt_file_extension, token_string) ∷ []) ns name old h))
        | inr (inl (message, e)) ↦ rw (create_tokens, e) h
        | inr (inr e) ↦ rw (create_tokens, e) h
      ]

  pub create_key_secrets-Keeps :
      (keys : RsaKeyPair Priv Pub) (m : Cluster) (s : S)
      → Keeps api s (create_key_secrets api lib now keys m s)
  unfolding create_key_secrets
  create_key_secrets-Keeps keys m s ns name old h =
      create_secret-keeps api d _ m.pulsar_namespace _ _ ns name old
        (create_secret-keeps api d s m.pulsar_namespace _ _ ns name old h)

  pub repair_tokens-Keeps :
      (keys : RsaKeyPair Priv Pub) (k8s_namespace : Text) (roles : List Text) (s : S)
      → Keeps api s (repair_tokens api lib now keys k8s_namespace roles s).0
  unfolding repair_tokens
  repair_tokens-Keeps keys k8s_namespace [] s ns name old h = h
  repair_tokens-Keeps keys k8s_namespace (v ∷ roles) s ns name old h =
      elim (Result-cases (role_token lib now keys (trim_space v))) [
        | inr (inl (message, e)) ↦ rw (repair_tokens, e) h
        | inr (inr e) ↦ rw (repair_tokens, e) h
        | inl (token_string, e) ↦
            elim (Result-cases (get_secret api s k8s_namespace (secret_of_role (trim_space v)))) [
              | inl (secrets, g) ↦
                  rw (repair_tokens, e, g)
                    (repair_tokens-Keeps keys k8s_namespace roles s ns name old h)
              | inr (inr g) ↦ rw (repair_tokens, e, g) h
              | inr (inl (message, g)) ↦
                  rw (repair_tokens, e, g)
                    (repair_tokens-Keeps keys k8s_namespace roles
                      (create_secret api s k8s_namespace (secret_of_role (trim_space v))
                        ((trim_space v ++ jwt_file_extension, token_string) ∷ [])).0
                      ns name old
                      (create_secret-keeps api d s k8s_namespace (secret_of_role (trim_space v))
                        ((trim_space v ++ jwt_file_extension, token_string) ∷ []) ns name old h))
            ]
      ]

  with_status-Keeps :
      (m : Cluster) (s : S) (done : S × Result (Unit {0}))
      → Keeps api s done.0
      → Keeps api s (with_status m done).0
  with_status-Keeps m s (s', ok t) h = h
  with_status-Keeps m s (s', err message) h = h
  with_status-Keeps m s (s', panic) h = h

  create_cluster-Keeps :
      (super_roles : Text) (m : Cluster) (s : S)
      → Keeps api s (create_cluster api lib now super_roles m s).0
  unfolding create_cluster
  create_cluster-Keeps super_roles m s = elim (Result-cases (new_rsa_key_pair lib)) [
    | inr (inl (message, e)) ↦ rw (create_cluster, e) (λ ns name old h. h)
    | inr (inr e) ↦ rw (create_cluster, e) (λ ns name old h. h)
    | inl (keys, e) ↦
        rw (create_cluster, e)
          (with_status-Keeps m s
            (create_tokens api lib now keys m.pulsar_namespace (get_admin_roles super_roles)
              (create_key_secrets api lib now keys m s))
            (λ ns name old h.
              create_tokens-Keeps keys m.pulsar_namespace (get_admin_roles super_roles)
                (create_key_secrets api lib now keys m s) ns name old
                (create_key_secrets-Keeps keys m s ns name old h)))
  ]

  heal_tokens-Keeps :
      (super_roles : Text) (m : Cluster) (private_key public_key : Text) (s : S)
      → Keeps api s (heal_tokens api lib now super_roles m private_key public_key s).0
  unfolding heal_tokens
  heal_tokens-Keeps super_roles m private_key public_key s =
      elim (Result-cases (load_rsa_key_pair_from_base64 lib private_key public_key)) [
        | inr (inl (message, e)) ↦ rw (heal_tokens, e) (λ ns name old h. h)
        | inr (inr e) ↦ rw (heal_tokens, e) (λ ns name old h. h)
        | inl (keys, e) ↦
            rw (heal_tokens, e)
              (with_status-Keeps m s
                (repair_tokens api lib now keys m.pulsar_namespace (get_admin_roles super_roles) s)
                (repair_tokens-Keeps keys m.pulsar_namespace (get_admin_roles super_roles) s))
      ]

  pub healer-Keeps :
      (super_roles : Text) (m : Cluster) (s : S)
      → Keeps api s (healer api lib now super_roles m s).0
  unfolding healer
  healer-Keeps super_roles m s =
      elim (Result-cases (
        get_key_from_secret api lib now s m.pulsar_namespace token_private_key
          m.private_key_file_name)) [
            | inr (inl (message, e)) ↦ rw (healer, e) (create_cluster-Keeps super_roles m s)
            | inr (inr e) ↦ rw (healer, e) (λ ns name old h. h)
            | inl (private_key, e) ↦
                elim (Result-cases (
                  get_key_from_secret api lib now s m.pulsar_namespace token_public_key
                    m.public_key_file_name)) [
                      | inr (inl (message, f)) ↦
                          rw (healer, e, f) (create_cluster-Keeps super_roles m s)
                      | inr (inr f) ↦ rw (healer, e, f) (λ ns name old h. h)
                      | inl (public_key, f) ↦
                          rw (healer, e, f)
                            (heal_tokens-Keeps super_roles m private_key public_key s)
                    ]
          ]

  heal_rounds-Keeps :
      (ticks : ℕ) (super_roles : Text) (m : Cluster) (s : S)
      → Keeps api s (heal_rounds api lib now ticks super_roles m s).0
  unfolding heal_rounds
  heal_rounds-Keeps zero super_roles m s ns name old h = h
  heal_rounds-Keeps (suc ticks) super_roles m s ns name old h =
      heal_rounds-Keeps ticks super_roles (healer api lib now super_roles m s).1
        (healer api lib now super_roles m s).0 ns name old
        (healer-Keeps super_roles m s ns name old h)

  -- Whether the workflow runs once or for any number of ticks, and whichever of its steps fail: a
  -- secret that is in the cluster, of any namespace, is there afterwards with the same data.
  config_keys_jwts-get :
      (once : Bool) (ticks : ℕ) (super_roles : Text) (m : Cluster) (s : S) (ns name : Text)
      (old : Secret)
      → api.get s ns name ≡ ok old
      → api.get (config_keys_jwts api lib now once ticks super_roles m s).0 ns name ≡ ok old
  unfolding config_keys_jwts
  config_keys_jwts-get true ticks super_roles m s = heal_rounds-Keeps 1 super_roles m s
  config_keys_jwts-get false ticks super_roles m s = heal_rounds-Keeps ticks super_roles m s
