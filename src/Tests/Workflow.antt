-- ===== src/Tests/Workflow.antt =====
-- Tests of the keys and the tokens of the admin roles, over a cluster in memory.
use burnell.Prelude.{ℕ, ◌≡◌, refl, [], ◌∷◌, Option, none, some, All, arith}
use burnell.Text.{Text, codes, ◌==◌}
use burnell.Assoc.{lookup}
use burnell.Util.{assign_string}
use burnell.Result.{Result, ok, err}
use burnell.K8s.{Secret, get_secret}
use burnell.K8s.Memory.{Memory, find, memory_api, memory-Documented, memory-Available}
use burnell.Icrypto.Token.{Claims, str, other, generate_claims}
use burnell.Icrypto.Keys.{
  KeyLibrary, Inverse, RsaKeyPair, new_rsa_key_pair, make_rsa_key_pair,
  load_rsa_key_pair_from_base64, parse_x509_pkcs8_private_key, parse_x509_pkix_public_key,
  generate_token,
}
use burnell.Workflow.{
  Cluster, new_cluster, succeeded, get_admin_roles, get_key_from_secret, healer, token_private_key,
  token_public_key,
}
use burnell.Workflow.Repairing.{HasSecret, CanSign, healer-settles}
use burnell.Workflow.Mismatch.{healer-mismatch}
use burnell.Workflow.Bootstrap.{healer-bootstraps}

-- Keys are numbers, and a token is the subject behind the key.
abbrev first_byte : Text → Result (Option ℕ)
first_byte [] = err (codes "no key")
first_byte (n ∷ rest) = ok (some n)

-- Claims with times are not signed.
abbrev signed : Claims → ℕ → Result Text
signed claims n = elim claims.exp [
  | some exp ↦ err []
  | none ↦ elim claims.iat [
    | some iat ↦ err []
    | none ↦ elim claims.sub [ some (str s) ↦ ok (n ∷ s) | some other ↦ err [] | none ↦ err [] ]
  ]
]

abbrev pub toy : KeyLibrary ℕ ℕ
toy = record {
  generate_key = ok 7;
  validate = λ k. ok tt;
  public_of = λ k. k;
  marshal_private = λ k. ok (k ∷ []);
  marshal_public = λ k. ok (k ∷ []);
  parse_private = first_byte;
  parse_public = first_byte;
  pem_decode = λ bytes. none;
  signed_string = λ method claims k. signed claims k;
}

toy-Inverse : Inverse toy
toy-Inverse = record {
  private_again = λ k bytes e. ground arith;
  public_again = λ k bytes e. ground arith;
}

abbrev pub pair : ℕ → RsaKeyPair ℕ ℕ
pair n = record {
  private_key = n;
  public_key = n;
  private_key_bytes = n ∷ [];
  public_key_bytes = n ∷ [];
}

toy-CanSign : (keys : RsaKeyPair ℕ ℕ) → CanSign toy 0 keys
unfolding generate_token generate_claims
toy-CanSign keys role = (keys.private_key ∷ role, refl)

abbrev ns : Text
ns = codes "burnell-ns"

abbrev here : Cluster
here = new_cluster [] [] (codes "c") ns

abbrev key_secret : Text → Text → ℕ → Secret
key_secret name file n = record { name = name; contents = (file, n ∷ []) ∷ [] }

abbrev private_alone : Memory
private_alone = (ns, key_secret token_private_key (codes "my-private.key") 5) ∷ []

abbrev both_keys : Memory
both_keys = (ns, key_secret token_public_key (codes "my-public.key") 5) ∷ private_alone

healer-settles_example :
    (s' : Memory) × (healer memory_api toy 0 (codes "superuser") here both_keys
      ≡ (s', record here { keys_and_jwt = succeeded }, ok tt))
    × All (HasSecret memory_api s' ns) (get_admin_roles (codes "superuser"))
    × (healer memory_api toy 0 (codes "superuser") (record here { keys_and_jwt = succeeded }) s'
        ≡ (s', record here { keys_and_jwt = succeeded }, ok tt))
unfolding get_key_from_secret get_secret find lookup new_cluster assign_string ◌==◌
    load_rsa_key_pair_from_base64 parse_x509_pkcs8_private_key parse_x509_pkix_public_key
    make_rsa_key_pair
healer-settles_example =
    healer-settles memory_api toy 0 (codes "superuser") (5 ∷ []) (5 ∷ []) (pair 5) here both_keys
      memory-Documented memory-Available (toy-CanSign (pair 5)) refl refl refl

healer-mismatch_example :
    (s' : Memory) × (healer memory_api toy 0 (codes "superuser") here private_alone
      ≡ (s', record here { keys_and_jwt = succeeded }, ok tt))
    × (get_key_from_secret memory_api toy 0 s' ns token_private_key (codes "my-private.key")
        ≡ ok (5 ∷ []))
    × (get_key_from_secret memory_api toy 0 s' ns token_public_key (codes "my-public.key")
        ≡ ok (7 ∷ []))
unfolding get_key_from_secret get_secret find lookup new_cluster assign_string ◌==◌ new_rsa_key_pair
    make_rsa_key_pair
healer-mismatch_example =
    healer-mismatch memory_api toy 0 (codes "superuser") (5 ∷ []) (codes "not found") (pair 7) here
      private_alone memory-Documented memory-Available (toy-CanSign (pair 7)) refl refl refl

abbrev empty_cluster : Memory
empty_cluster = []

healer-bootstraps_example :
    (s' : Memory) × (healer memory_api toy 0 (codes "superuser") here empty_cluster
      ≡ (s', record here { keys_and_jwt = succeeded }, ok tt))
    × (get_key_from_secret memory_api toy 0 s' ns token_private_key here.private_key_file_name
        ≡ ok (7 ∷ []))
    × (get_key_from_secret memory_api toy 0 s' ns token_public_key here.public_key_file_name
        ≡ ok (7 ∷ []))
    × (load_rsa_key_pair_from_base64 toy (7 ∷ []) (7 ∷ []) ≡ ok (pair 7))
    × All (HasSecret memory_api s' ns) (get_admin_roles (codes "superuser"))
    × (healer memory_api toy 0 (codes "superuser") (record here { keys_and_jwt = succeeded }) s'
        ≡ (s', record here { keys_and_jwt = succeeded }, ok tt))
unfolding find new_rsa_key_pair make_rsa_key_pair new_cluster
healer-bootstraps_example =
    healer-bootstraps memory_api toy 0 (codes "superuser") (codes "not found") (codes "not found")
      (pair 7) here empty_cluster memory-Documented memory-Available toy-Inverse
      (toy-CanSign (pair 7)) refl refl refl
