-- ===== src/Icrypto/Cipher.antt =====
-- src/icrypto/icrypto.go and src/icrypto/util.go: encryption with AES and RSA. The packages
-- crypto/aes, crypto/cipher, crypto/rsa, crypto/x509 and encoding/base64 are the arguments
-- `AesLibrary`, `RsaLibrary` and `Base64`; randomness is an argument.
pub mod Laws
use burnell.Prelude.{
  ℕ, ◌-◌, ◌≡◌, Bool, true, false, List, [], ◌∷◌, ◌++◌, Option, none, some, get_elem?, if◌then◌else◌,
  ltb, length, take, drop,
}
use burnell.Text.{Text, codes}
use burnell.Result.{Result, ok, err, panic, ◌>>=◌}

-- `aes.NewCipher` with `cipher.NewGCM` is `new_gcm`.
pub record AesLibrary (Gcm : Type 0) : Type 0 where
  pub new_gcm : Text → Result Gcm
  pub nonce_size : Gcm → ℕ
  pub seal : Gcm → (nonce plaintext : Text) → Text
  pub open_sealed : Gcm → (nonce ciphertext : Text) → Result Text

-- What was sealed with a nonce opens with it.
pub record Opens {Gcm : Type 0} (lib : AesLibrary Gcm) : Type 0 where
  pub opens :
      (gcm : Gcm) (nonce plaintext : Text)
      → length nonce ≡ lib.nonce_size gcm
      → lib.open_sealed gcm nonce (lib.seal gcm nonce plaintext) ≡ ok plaintext

pub record Base64 : Type 0 where
  pub encode_to_string : Text → Text
  pub decode_string : Text → Result Text

-- `defaultSymKey`
abbrev pub default_sym_key : Text
default_sym_key = codes "popl4190LKOI4862"

-- `random` is what `io.ReadFull` reads of the random source for a nonce of the size.
module _ {Gcm : Type 0} (lib : AesLibrary Gcm) (random : ℕ → Result Text) where
  unfoldable pub encrypt : Text → Text → Result Text
  encrypt plaintext key = do
    gcm ← lib.new_gcm key
    nonce ← random (lib.nonce_size gcm)
    ok (nonce ++ lib.seal gcm nonce plaintext)

  abbrev open_with : Gcm → Text → Result Text
  open_with gcm ciphertext =
      let nonce_size = lib.nonce_size gcm in
      if ltb (length ciphertext) nonce_size
      then err (codes "ciphertext too short")
      else lib.open_sealed gcm (take nonce_size ciphertext) (drop nonce_size ciphertext)

  unfoldable pub decrypt : Text → Text → Result Text
  decrypt ciphertext key = lib.new_gcm key >>= λ gcm. open_with gcm ciphertext

  -- The methods of an `AES` with the salt.
  unfoldable pub encrypt_with_default_key : Text → Text → Result Text
  encrypt_with_default_key default_salt plaintext = encrypt plaintext default_salt

  unfoldable pub decrypt_with_default_key : Text → Text → Result Text
  decrypt_with_default_key default_salt ciphertext = decrypt ciphertext default_salt

  unfoldable pub encrypt_with_base64 : Base64 → Text → Result Text
  encrypt_with_base64 base64 str = do
    encrypted ← encrypt_with_default_key default_sym_key str
    ok (base64.encode_to_string encrypted)

  unfoldable pub decrypt_with_base64 : Base64 → Text → Result Text
  decrypt_with_base64 base64 str = do
    decoded ← base64.decode_string str
    decrypt_with_default_key default_sym_key decoded

abbrev pub default_runes : Text
default_runes = codes "0123456789abcdefghijklmnopqrstuvwxyzABCDEFGHIJKLMNOPQRSTUVWXYZ"

abbrev rune_at : Option ℕ → Result ℕ
rune_at none = panic
rune_at (some rune) = ok rune

-- `RandKey`: `picks` are what `rand.Intn` returns, one for each of the `n` runes. An index out of
-- range panics.
unfoldable pub rand_key : List ℕ → Result Text
rand_key [] = ok []
rand_key (i ∷ picks) = do
  rune ← rune_at (get_elem? default_runes i)
  runes ← rand_key picks
  ok (rune ∷ runes)

-- `GenTopicKey`, where `random n` are `n` random numbers.
unfoldable pub gen_topic_key : (ℕ → List ℕ) → Result Text
unfolding rand_key
gen_topic_key random = rand_key (random 24)

-- `NewRSAWithKeys`, `NewRSA` and the methods of `RSA`; a key that is nil is `none`.
pub record RsaLibrary (Priv Pub : Type 0) : Type 0 where
  pub parse_pkcs1_private : Text → Result Priv
  pub parse_pkcs1_public : Text → Result Pub
  pub generate_key : Result Priv
  pub public_of : Priv → Pub
  pub encrypt_pkcs1 : Pub → Text → Result Text
  pub decrypt_pkcs1 : Priv → Text → Result Text

-- What was encrypted with the public key of a private key decrypts with it.
pub record Decrypts {Priv Pub : Type 0} (lib : RsaLibrary Priv Pub) : Type 0 where
  pub decrypts :
      (key : Priv) (plaintext ciphertext : Text)
      → lib.encrypt_pkcs1 (lib.public_of key) plaintext ≡ ok ciphertext
      → lib.decrypt_pkcs1 key ciphertext ≡ ok plaintext

pub record Rsa (Priv Pub : Type 0) : Type 0 where
  pub my_private_key : Option Priv
  pub my_public_key : Option Pub

module _ {Priv Pub : Type 0} (lib : RsaLibrary Priv Pub) where
  abbrev parsed : {K : Type 0} → (Text → Result K) → Option Text → Result (Option K)
  parsed parse none = ok none
  parsed parse (some bytes) = parse bytes >>= λ key. ok (some key)

  unfoldable pub new_rsa_with_keys : Option Text → Option Text → Result (Rsa Priv Pub)
  new_rsa_with_keys priv pub_bytes = do
    priv_key ← parsed lib.parse_pkcs1_private priv
    pub_key ← parsed lib.parse_pkcs1_public pub_bytes
    ok (record { my_private_key = priv_key; my_public_key = pub_key })

  unfoldable pub new_rsa : Result (Rsa Priv Pub)
  new_rsa = do
    key ← lib.generate_key
    ok (record { my_private_key = some key; my_public_key = some (lib.public_of key) })

  -- A key that is nil panics in the library.
  abbrev with_key : {K : Type 0} → (K → Text → Result Text) → Option K → Text → Result Text
  with_key run none text = panic
  with_key run (some key) text = run key text

  unfoldable pub rsa_encrypt_with_default_key : Rsa Priv Pub → Text → Result Text
  rsa_encrypt_with_default_key a plaintext = with_key lib.encrypt_pkcs1 a.my_public_key plaintext

  unfoldable pub rsa_decrypt_with_default_key : Rsa Priv Pub → Text → Result Text
  rsa_decrypt_with_default_key a ciphertext = with_key lib.decrypt_pkcs1 a.my_private_key ciphertext

  -- Only the default keys are supported.
  unfoldable pub rsa_encrypt : Rsa Priv Pub → Text → Text → Result Text
  rsa_encrypt a plaintext key = err (codes "unsupported")

  unfoldable pub rsa_decrypt : Rsa Priv Pub → Text → Text → Result Text
  rsa_decrypt a ciphertext key = err (codes "unsupported")

  -- `x509.MarshalPKCS1PublicKey` and `x509.MarshalPKCS1PrivateKey` read the key: one that is nil
  -- panics.
  unfoldable pub get_rsa_public_key : (Pub → Text) → Rsa Priv Pub → Result Text
  get_rsa_public_key marshal a = elim a.my_public_key [ none ↦ panic | some key ↦ ok (marshal key) ]

  unfoldable pub get_rsa_private_key : (Priv → Text) → Rsa Priv Pub → Result Text
  get_rsa_private_key marshal a = elim a.my_private_key [
    | none ↦ panic
    | some key ↦ ok (marshal key)
  ]
