-- ===== src/Workflow/Bootstrap.antt =====
-- From a namespace without keys: one round makes everything, and the next one finds it whole.
use burnell.Prelude.{
  ℕ, ◌≡◌, refl, sym, ap, subst, ◌∙◌, inl, inr, false, List, [], ◌∷◌, ◌++◌, All, arith,
}
use burnell.Text.{Text, ◌==◌, trim_space}
use burnell.Result.{ok, err}
use burnell.K8s.{KubeApi, Documented, is_at, create_secret}
use burnell.K8s.Laws.{
  Available, get_secret-cases, create_secret-free, create_secret-keeps, create_secret-elsewhere,
}
use burnell.Icrypto.Keys.{
  KeyLibrary, Inverse, RsaKeyPair, new_rsa_key_pair, load_rsa_key_pair_from_base64,
}
use burnell.Icrypto.Keys.Laws.{load-new}
use burnell.Workflow.{
  Cluster, succeeded, role_token, secret_of_role, jwt_file_extension, create_tokens,
  create_key_secrets, create_cluster, with_status, healer, get_key_from_secret, get_admin_roles,
  token_private_key, token_public_key,
}
use burnell.Workflow.Keeping.{Keeps, create_tokens-Keeps}
use burnell.Workflow.Repairing.{CanSign, HasSecret, healer_loaded, repair_tokens_complete}
use burnell.Workflow.Mismatch.{create_tokens-ok, stored_key, missing_key}

other_secret : (ns : Text) → is_at ns token_private_key ns token_public_key ≡ false
unfolding ◌==◌
other_secret ns = ground arith

module _ {S Priv Pub : Type 0} (api : KubeApi S) (d : Documented api) (a : Available api)
    (lib : KeyLibrary Priv Pub) (now : ℕ) (keys : RsaKeyPair Priv Pub)
    (sign : CanSign lib now keys) where
  -- Whether it was there or not, the secret is there after its creation.
  create_secret-HasSecret :
      (ns v : Text) (contents : List (Text × Text)) (s : S)
      → HasSecret api (create_secret api s ns (secret_of_role (trim_space v)) contents).0 ns v
  create_secret-HasSecret ns v contents s =
      let name = secret_of_role (trim_space v) in
      elim (get_secret-cases api s ns name a) [
        | inl (found, g, f) ↦ (found, create_secret-keeps api d s ns name contents ns name found g)
        | inr (message, g, f) ↦ (_, create_secret-free api s ns name message contents d a g)
      ]

  create_step :
      (ns v token_string : Text) (roles : List Text) (s : S)
      → role_token lib now keys (trim_space v) ≡ ok token_string
      → create_tokens api lib now keys ns (v ∷ roles) s
        ≡ create_tokens api lib now keys ns roles
            (create_secret api s ns
              (secret_of_role (trim_space v))
              ((trim_space v ++ jwt_file_extension, token_string) ∷ [])).0
  unfolding create_tokens
  create_step ns v token_string roles s e = rw (create_tokens, e) refl

  create_tokens-All :
      (ns : Text) (roles : List Text) (s : S)
      → All (HasSecret api (create_tokens api lib now keys ns roles s).0 ns) roles
  unfolding create_tokens
  create_tokens-All ns [] s = tt
  create_tokens-All ns (v ∷ roles) s =
      let (token_string, e) = sign (trim_space v) in
      let name = secret_of_role (trim_space v) in
      let contents = (trim_space v ++ jwt_file_extension, token_string) ∷ [] in
      let s1 = (create_secret api s ns name contents).0 in
      let (made, there) = create_secret-HasSecret ns v contents s in
      subst (λ z. All (HasSecret api z.0 ns) (v ∷ roles))
        (sym (create_step ns v token_string roles s e))
        (
          (made, create_tokens-Keeps api d lib now keys ns roles s1 ns name made there),
          create_tokens-All ns roles s1,
        )

  -- Both keys are stored where neither was.
  create_key_secrets-both :
      (m : Cluster) (s : S) (message message' : Text)
      → api.get s m.pulsar_namespace token_private_key ≡ err message
      → api.get s m.pulsar_namespace token_public_key ≡ err message'
      → (api.get (create_key_secrets api lib now keys m s) m.pulsar_namespace token_private_key
          ≡ ok (record {
            name = token_private_key;
            contents = (m.private_key_file_name, keys.private_key_bytes) ∷ [];
          }))
        × (api.get (create_key_secrets api lib now keys m s) m.pulsar_namespace token_public_key
            ≡ ok (record {
              name = token_public_key;
              contents = (m.public_key_file_name, keys.public_key_bytes) ∷ [];
            }))
  unfolding create_key_secrets
  create_key_secrets-both m s message message' no_private no_public =
      let ns = m.pulsar_namespace in
      let private = (m.private_key_file_name, keys.private_key_bytes) ∷ [] in
      let public = (m.public_key_file_name, keys.public_key_bytes) ∷ [] in
      let s1 = (create_secret api s ns token_private_key private).0 in
      (
        create_secret-keeps api d s1 ns token_public_key public ns token_private_key _
            (create_secret-free api s ns token_private_key message private d a no_private),
        create_secret-free api s1 ns token_public_key message' public d a (
            create_secret-elsewhere api s ns token_private_key ns token_public_key message private d
              a no_private (other_secret ns)
            ∙ no_public),
      )

create_parts :
    {S Priv Pub : Type 0} (api : KubeApi S) (lib : KeyLibrary Priv Pub) (now : ℕ)
    (super_roles message : Text) (keys : RsaKeyPair Priv Pub) (m : Cluster) (s : S)
    → get_key_from_secret api lib now s m.pulsar_namespace token_private_key m.private_key_file_name
      ≡ err message
    → new_rsa_key_pair lib ≡ ok keys
    → (create_tokens api lib now keys m.pulsar_namespace
        (get_admin_roles super_roles)
        (create_key_secrets api lib now keys m s)).1
      ≡ ok tt
    → healer api lib now super_roles m s ≡ (
      (create_tokens api lib now keys m.pulsar_namespace
          (get_admin_roles super_roles)
          (create_key_secrets api lib now keys m s)).0,
      record m { keys_and_jwt = succeeded },
      ok tt,
    )
unfolding healer create_cluster
create_parts api lib now super_roles message keys m s missing made done =
    let s' =
      (create_tokens api lib now keys m.pulsar_namespace (get_admin_roles super_roles)
        (create_key_secrets api lib now keys m s)).0 in
    rw (healer, missing, create_cluster, made) (ap (λ r. with_status m (s', r)) done)

-- Where neither key is stored, a pair can be made whose keys parse again once marshalled, tokens can
-- be signed and Kubernetes answers and takes new secrets: after a round of the healer both keys of the
-- new pair are found under the names that the healer looks for and load as that pair, every admin
-- role has a secret, and the next round changes nothing.
pub healer-bootstraps :
    {S Priv Pub : Type 0} (api : KubeApi S) (lib : KeyLibrary Priv Pub) (now : ℕ)
    (super_roles message message' : Text) (keys : RsaKeyPair Priv Pub) (m : Cluster) (s : S)
    → Documented api
    → Available api
    → Inverse lib
    → CanSign lib now keys
    → new_rsa_key_pair lib ≡ ok keys
    → api.get s m.pulsar_namespace token_private_key ≡ err message
    → api.get s m.pulsar_namespace token_public_key ≡ err message'
    → (s' : S) × (healer api lib now super_roles m s
        ≡ (s', record m { keys_and_jwt = succeeded }, ok tt))
      × (get_key_from_secret api lib now s' m.pulsar_namespace token_private_key
            m.private_key_file_name
          ≡ ok keys.private_key_bytes)
      × (get_key_from_secret api lib now s' m.pulsar_namespace token_public_key
            m.public_key_file_name
          ≡ ok keys.public_key_bytes)
      × (load_rsa_key_pair_from_base64 lib keys.private_key_bytes keys.public_key_bytes ≡ ok keys)
      × All (HasSecret api s' m.pulsar_namespace) (get_admin_roles super_roles)
      × (healer api lib now super_roles (record m { keys_and_jwt = succeeded }) s'
          ≡ (s', record m { keys_and_jwt = succeeded }, ok tt))
healer-bootstraps api lib now super_roles message message' keys m s d a inverse sign made no_private
      no_public =
    let ns = m.pulsar_namespace in
    let roles = get_admin_roles super_roles in
    let s1 = create_key_secrets api lib now keys m s in
    let s' = (create_tokens api lib now keys ns roles s1).0 in
    let (private, public) =
      create_key_secrets-both api d a lib now keys sign m s message message' no_private no_public in
    let k : Keeps api s1 s' = create_tokens-Keeps api d lib now keys ns roles s1 in
    let private_key =
      stored_key api lib now s' ns token_private_key m.private_key_file_name keys.private_key_bytes
        (k ns token_private_key _ private) in
    let public_key =
      stored_key api lib now s' ns token_public_key m.public_key_file_name keys.public_key_bytes
        (k ns token_public_key _ public) in
    let all_there = create_tokens-All api d a lib now keys sign ns roles s1 in
    (
      s',
      create_parts api lib now super_roles message keys m s
          (missing_key api lib now s ns token_private_key m.private_key_file_name message
            no_private)
          made (create_tokens-ok api d a lib now keys sign ns roles s1),
      private_key,
      public_key,
      load-new lib keys inverse made,
      all_there,
      healer_loaded api lib now super_roles keys.private_key_bytes keys.public_key_bytes keys
          (record m { keys_and_jwt = succeeded }) s' s' private_key public_key
          (load-new lib keys inverse made)
          (repair_tokens_complete api d a lib now keys sign ns roles s' all_there),
    )
