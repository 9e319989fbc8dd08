-- ===== src/Workflow/Mismatch.antt =====
-- A public key that is missing is replaced by one that does not belong to the private key.
use burnell.Prelude.{ℕ, ◌≡◌, refl, sym, ap, subst, inl, inr, List, [], ◌∷◌, ◌++◌}
use burnell.Text.{Text, trim_space}
use burnell.Text.Laws.{eq_refl}
use burnell.Assoc.{lookup}
use burnell.Result.{Result-cases, ok, err}
use burnell.K8s.{Secret, KubeApi, Documented, get_secret, create_secret}
use burnell.K8s.Laws.{Available, create_secret-free, create_secret-taken}
use burnell.Icrypto.Keys.{KeyLibrary, RsaKeyPair, new_rsa_key_pair}
use burnell.Workflow.{
  Cluster, succeeded, secret_of_role, jwt_file_extension, create_tokens, create_key_secrets,
  create_cluster, with_status, healer, get_key_from_secret, get_admin_roles, token_private_key,
  token_public_key, entry_of,
}
use burnell.Workflow.Keeping.{Keeps, create_tokens-Keeps, create_key_secrets-Keeps}
use burnell.Workflow.Repairing.{CanSign, get_key_from_secret-Keeps}

-- A secret of one entry has that entry's key.
pub stored_key :
    {S Priv Pub : Type 0} (api : KubeApi S) (lib : KeyLibrary Priv Pub) (now : ℕ) (s : S)
    (ns name key value : Text)
    → api.get s ns name ≡ ok (record { name = name; contents = (key, value) ∷ [] })
    → get_key_from_secret api lib now s ns name key ≡ ok value
unfolding get_key_from_secret get_secret lookup
stored_key api lib now s ns name key value h =
    rw (get_key_from_secret, get_secret, h) (rw (entry_of, lookup, eq_refl key) refl)

secret_of_key :
    {S Priv Pub : Type 0} (api : KubeApi S) (lib : KeyLibrary Priv Pub) (now : ℕ) (s : S)
    (ns name key value : Text)
    → get_key_from_secret api lib now s ns name key ≡ ok value
    → (secret : Secret) × (api.get s ns name ≡ ok secret)
unfolding get_key_from_secret get_secret
secret_of_key api lib now s ns name key value h = elim (Result-cases (api.get s ns name)) [
  | inl (secret, e) ↦ (secret, e)
  | inr (inl (message, e)) ↦ cc (rw e at h)
  | inr (inr e) ↦ cc (rw e at h)
]

-- A key of a secret that is missing is an error.
pub missing_key :
    {S Priv Pub : Type 0} (api : KubeApi S) (lib : KeyLibrary Priv Pub) (now : ℕ) (s : S)
    (ns name key message : Text)
    → api.get s ns name ≡ err message
    → get_key_from_secret api lib now s ns name key ≡ err message
unfolding get_key_from_secret get_secret
missing_key api lib now s ns name key message h = rw (get_key_from_secret, get_secret, h) refl

module _ {S Priv Pub : Type 0} (api : KubeApi S) (d : Documented api) (a : Available api)
    (lib : KeyLibrary Priv Pub) (now : ℕ) (keys : RsaKeyPair Priv Pub)
    (sign : CanSign lib now keys) where
  pub create_tokens-ok :
      (ns : Text) (roles : List Text) (s : S)
      → (create_tokens api lib now keys ns roles s).1 ≡ ok tt
  unfolding create_tokens
  create_tokens-ok ns [] s = refl
  create_tokens-ok ns (v ∷ roles) s =
      let (token_string, e) = sign (trim_space v) in
      rw (create_tokens, e)
        (create_tokens-ok ns roles
          (create_secret api s ns (secret_of_role (trim_space v))
            ((trim_space v ++ jwt_file_extension, token_string) ∷ [])).0)

  -- The private key's secret is left as it is, the public key's is made of the new pair.
  create_key_secrets-halves :
      (m : Cluster) (s : S) (old : Secret) (message : Text)
      → api.get s m.pulsar_namespace token_private_key ≡ ok old
      → api.get s m.pulsar_namespace token_public_key ≡ err message
      → (create_key_secrets api lib now keys m s
          ≡ (create_secret api s m.pulsar_namespace token_public_key
              ((m.public_key_file_name, keys.public_key_bytes) ∷ [])).0)
  unfolding create_key_secrets create_secret
  create_key_secrets-halves m s old message private missing =
      rw
        (create_secret-taken api s m.pulsar_namespace token_private_key
          ((m.private_key_file_name, keys.private_key_bytes) ∷ []) old d private)
        refl

-- Where the private key is stored and the public key's secret is missing, a new pair can be made,
-- tokens can be signed and Kubernetes answers and takes new secrets: a round of the healer succeeds
-- and stores the public key of a new pair, but keeps the old private key.
pub healer-mismatch :
    {S Priv Pub : Type 0} (api : KubeApi S) (lib : KeyLibrary Priv Pub) (now : ℕ)
    (super_roles private_key message : Text) (keys : RsaKeyPair Priv Pub) (m : Cluster) (s : S)
    → Documented api
    → Available api
    → CanSign lib now keys
    → get_key_from_secret api lib now s m.pulsar_namespace token_private_key m.private_key_file_name
      ≡ ok private_key
    → api.get s m.pulsar_namespace token_public_key ≡ err message
    → new_rsa_key_pair lib ≡ ok keys
    → (s' : S) × (healer api lib now super_roles m s
        ≡ (s', record m { keys_and_jwt = succeeded }, ok tt))
      × (get_key_from_secret api lib now s' m.pulsar_namespace token_private_key
            m.private_key_file_name
          ≡ ok private_key)
      × (get_key_from_secret api lib now s' m.pulsar_namespace token_public_key
            m.public_key_file_name
          ≡ ok keys.public_key_bytes)
unfolding healer create_cluster
healer-mismatch api lib now super_roles private_key message keys m s d a sign private missing made =
    let ns = m.pulsar_namespace in
    let roles = get_admin_roles super_roles in
    let (old, stored) =
      secret_of_key api lib now s ns token_private_key m.private_key_file_name private_key
        private in
    let s1 = create_key_secrets api lib now keys m s in
    let s' = (create_tokens api lib now keys ns roles s1).0 in
    let done = create_tokens-ok api d a lib now keys sign ns roles s1 in
    let k : Keeps api s1 s' = create_tokens-Keeps api d lib now keys ns roles s1 in
    let halves =
      create_key_secrets-halves api d a lib now keys sign m s old message stored missing in
    (
      s',
      rw
          (
            healer,
            private,
            missing_key api lib now s ns token_public_key m.public_key_file_name message missing,
            create_cluster,
            made,
          )
          (ap (λ r. with_status m (s', r)) done),
      get_key_from_secret-Keeps api lib now s s' ns token_private_key m.private_key_file_name
          private_key
          (λ n name secret h.
            k n name secret (create_key_secrets-Keeps api d lib now keys m s n name secret h))
          private,
      stored_key api lib now s' ns token_public_key m.public_key_file_name keys.public_key_bytes (
          k ns token_public_key _ (
            subst
              (λ z.
                api.get z ns token_public_key
                ≡ ok (record {
                  name = token_public_key;
                  contents = (m.public_key_file_name, keys.public_key_bytes) ∷ [];
                }))
              (sym halves)
              (create_secret-free api s ns token_public_key message
                ((m.public_key_file_name, keys.public_key_bytes) ∷ []) d a missing))),
    )
