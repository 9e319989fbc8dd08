-- ===== src/Workflow/Repairing.antt =====
-- A repair creates the secrets that are missing, and a second one finds nothing to do.
use burnell.Prelude.{ℕ, ◌≡◌, refl, sym, ap, subst, inl, inr, List, [], ◌∷◌, ◌++◌, All}
use burnell.Text.{Text, trim_space}
use burnell.Result.{Result-cases, Result, ok, err}
use burnell.K8s.{Secret, KubeApi, Documented, get_secret, create_secret}
use burnell.K8s.Laws.{Available, get_secret-cases, create_secret-free}
use burnell.Icrypto.Keys.{KeyLibrary, RsaKeyPair, load_rsa_key_pair_from_base64}
use burnell.Workflow.{
  Cluster, succeeded, role_token, secret_of_role, jwt_file_extension, repair_tokens, heal_tokens,
  healer, get_key_from_secret, get_admin_roles, token_private_key, token_public_key,
}
use burnell.Workflow.Keeping.{Keeps, repair_tokens-Keeps}

-- The namespace has a secret for the role.
abbrev pub HasSecret : {S : Type 0} → KubeApi S → S → Text → Text → Type 0
HasSecret api s ns v =
    (secret : Secret) × (api.get s ns (secret_of_role (trim_space v)) ≡ ok secret)

-- The repair has succeeded, and no role is without a secret.
abbrev pub Settled : {S : Type 0} → KubeApi S → Text → List Text → S × Result (Unit {0}) → Type 0
Settled api ns roles (s, done) = (done ≡ ok tt) × All (HasSecret api s ns) roles

-- Every role's token can be signed.
abbrev pub CanSign : {Priv Pub : Type 0} → KeyLibrary Priv Pub → ℕ → RsaKeyPair Priv Pub → Type 0
CanSign lib now keys =
    (role : Text) → (token_string : Text) × (role_token lib now keys role ≡ ok token_string)

module _ {S Priv Pub : Type 0} (api : KubeApi S) (d : Documented api) (a : Available api)
    (lib : KeyLibrary Priv Pub) (now : ℕ) (keys : RsaKeyPair Priv Pub)
    (sign : CanSign lib now keys) where
  repair_tokens-present :
      (ns v : Text) (roles : List Text) (s : S)
      → HasSecret api s ns v
      → repair_tokens api lib now keys ns (v ∷ roles) s ≡ repair_tokens api lib now keys ns roles s
  unfolding repair_tokens
  repair_tokens-present ns v roles s (secret, h) =
      let (token_string, e) = sign (trim_space v) in
      elim (get_secret-cases api s ns (secret_of_role (trim_space v)) a) [
        | inl (found, g, f) ↦ rw (repair_tokens, e, f) refl
        | inr (message, g, f) ↦ cc (h, g)
      ]

  repair_tokens-missing :
      (ns v message : Text) (roles : List Text) (s : S)
      → api.get s ns (secret_of_role (trim_space v)) ≡ err message
      → (s' : S) × HasSecret api s' ns v
        × (repair_tokens api lib now keys ns (v ∷ roles) s
            ≡ repair_tokens api lib now keys ns roles s')
  unfolding repair_tokens
  repair_tokens-missing ns v message roles s h =
      let (token_string, e) = sign (trim_space v) in
      elim (get_secret-cases api s ns (secret_of_role (trim_space v)) a) [
        | inl (found, g, f) ↦ cc (h, g)
        | inr (m, g, f) ↦ (
          (create_secret api s ns (secret_of_role (trim_space v))
              ((trim_space v ++ jwt_file_extension, token_string) ∷ [])).0,
          (
            record {
              name = secret_of_role (trim_space v);
              contents = (trim_space v ++ jwt_file_extension, token_string) ∷ [];
            },
            create_secret-free api s ns (secret_of_role (trim_space v)) m
                ((trim_space v ++ jwt_file_extension, token_string) ∷ []) d a g,
          ),
          rw (repair_tokens, e, f) refl,
        )
      ]

  -- After a repair no role is without a secret, and a further repair changes nothing.
  repair_tokens-settles :
      (ns : Text) (roles : List Text) (s : S)
      → Settled api ns roles (repair_tokens api lib now keys ns roles s)
  unfolding repair_tokens
  repair_tokens-settles ns [] s = (refl, tt)
  repair_tokens-settles ns (v ∷ roles) s =
      elim (get_secret-cases api s ns (secret_of_role (trim_space v)) a) [
        | inl (found, g, f) ↦
            let (done, all_there) = repair_tokens-settles ns roles s in
            subst (λ r. Settled api ns (v ∷ roles) r)
              (sym (repair_tokens-present ns v roles s (found, g)))
              (
                done,
                (
                  (
                    found,
                    repair_tokens-Keeps api d lib now keys ns roles s ns
                        (secret_of_role (trim_space v)) found g,
                  ),
                  all_there,
                ),
              )
        | inr (message, g, f) ↦
            let (s', (made, there), e) = repair_tokens-missing ns v message roles s g in
            let (done, all_there) = repair_tokens-settles ns roles s' in
            subst (λ r. Settled api ns (v ∷ roles) r) (sym e)
              (
                done,
                (
                  (
                    made,
                    repair_tokens-Keeps api d lib now keys ns roles s' ns
                        (secret_of_role (trim_space v)) made there,
                  ),
                  all_there,
                ),
              )
      ]

  pub repair_tokens_complete :
      (ns : Text) (roles : List Text) (s : S)
      → All (HasSecret api s ns) roles
      → repair_tokens api lib now keys ns roles s ≡ (s, ok tt)
  unfolding repair_tokens
  repair_tokens_complete ns [] s h = refl
  repair_tokens_complete ns (v ∷ roles) s (h, hs) =
      rw (repair_tokens-present ns v roles s h) (repair_tokens_complete ns roles s hs)

-- What does not change the secrets does not change the keys.
pub get_key_from_secret-Keeps :
    {S Priv Pub : Type 0} (api : KubeApi S) (lib : KeyLibrary Priv Pub) (now : ℕ) (s s' : S)
    (ns name key value : Text)
    → Keeps api s s'
    → get_key_from_secret api lib now s ns name key ≡ ok value
    → get_key_from_secret api lib now s' ns name key ≡ ok value
unfolding get_key_from_secret get_secret
get_key_from_secret-Keeps api lib now s s' ns name key value k h =
    elim (Result-cases (api.get s ns name)) [
      | inl (old, e) ↦ rw (get_key_from_secret, get_secret, k ns name old e) (rw e at h)
      | inr (inl (message, e)) ↦ cc (rw e at h)
      | inr (inr e) ↦ cc (rw e at h)
    ]

repair_parts :
    {S Priv Pub : Type 0} (api : KubeApi S) (lib : KeyLibrary Priv Pub) (now : ℕ)
    (keys : RsaKeyPair Priv Pub) (ns : Text) (roles : List Text) (s : S)
    → (repair_tokens api lib now keys ns roles s).1 ≡ ok tt
    → repair_tokens api lib now keys ns roles s
      ≡ ((repair_tokens api lib now keys ns roles s).0, ok tt)
repair_parts api lib now keys ns roles s done =
    ap (λ r. ((repair_tokens api lib now keys ns roles s).0, r)) done

-- A round of the healer with keys that load is the repair of the tokens.
pub healer_loaded :
    {S Priv Pub : Type 0} (api : KubeApi S) (lib : KeyLibrary Priv Pub) (now : ℕ)
    (super_roles private_key public_key : Text) (keys : RsaKeyPair Priv Pub) (m : Cluster)
    (s s' : S)
    → get_key_from_secret api lib now s m.pulsar_namespace token_private_key m.private_key_file_name
      ≡ ok private_key
    → get_key_from_secret api lib now s m.pulsar_namespace token_public_key m.public_key_file_name
      ≡ ok public_key
    → load_rsa_key_pair_from_base64 lib private_key public_key ≡ ok keys
    → repair_tokens api lib now keys m.pulsar_namespace (get_admin_roles super_roles) s
      ≡ (s', ok tt)
    → healer api lib now super_roles m s ≡ (s', record m { keys_and_jwt = succeeded }, ok tt)
unfolding healer heal_tokens
healer_loaded api lib now super_roles private_key public_key keys m s s' private public loaded
      done =
    rw (healer, private, public, heal_tokens, loaded, done) refl

-- Where the two keys are stored and load, tokens can be signed and Kubernetes takes the secrets, one
-- round of the healer leaves a secret for every admin role, and the next one changes nothing.
pub healer-settles :
    {S Priv Pub : Type 0} (api : KubeApi S) (lib : KeyLibrary Priv Pub) (now : ℕ)
    (super_roles private_key public_key : Text) (keys : RsaKeyPair Priv Pub) (m : Cluster) (s : S)
    → Documented api
    → Available api
    → CanSign lib now keys
    → get_key_from_secret api lib now s m.pulsar_namespace token_private_key m.private_key_file_name
      ≡ ok private_key
    → get_key_from_secret api lib now s m.pulsar_namespace token_public_key m.public_key_file_name
      ≡ ok public_key
    → load_rsa_key_pair_from_base64 lib private_key public_key ≡ ok keys
    → (s' : S) × (healer api lib now super_roles m s
        ≡ (s', record m { keys_and_jwt = succeeded }, ok tt))
      × All (HasSecret api s' m.pulsar_namespace) (get_admin_roles super_roles)
      × (healer api lib now super_roles (record m { keys_and_jwt = succeeded }) s'
          ≡ (s', record m { keys_and_jwt = succeeded }, ok tt))
healer-settles api lib now super_roles private_key public_key keys m s d a sign private public
      loaded =
    let ns = m.pulsar_namespace in
    let roles = get_admin_roles super_roles in
    let s' = (repair_tokens api lib now keys ns roles s).0 in
    let (done, all_there) = repair_tokens-settles api d a lib now keys sign ns roles s in
    let k = repair_tokens-Keeps api d lib now keys ns roles s in
    (
      s',
      healer_loaded api lib now super_roles private_key public_key keys m s s' private public loaded
          (repair_parts api lib now keys ns roles s done),
      all_there,
      healer_loaded api lib now super_roles private_key public_key keys
          (record m { keys_and_jwt = succeeded }) s' s'
          (get_key_from_secret-Keeps api lib now s s' ns token_private_key m.private_key_file_name
            private_key k private)
          (get_key_from_secret-Keeps api lib now s s' ns token_public_key m.public_key_file_name
            public_key k public)
          loaded (repair_tokens_complete api d a lib now keys sign ns roles s' all_there),
    )
