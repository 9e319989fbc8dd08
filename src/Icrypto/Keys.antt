-- ===== src/Icrypto/Keys.antt =====
-- src/icrypto/pulsar-jwt.go: pairs of RSA keys, and the files that hold them. The packages crypto/rsa,
-- crypto/x509, encoding/pem and jwt are the argument `KeyLibrary`; a file is the bytes that it has,
-- or nothing where it does not open.
pub mod Laws
use burnell.Prelude.{
  ◌≡◌, ℕ, ◌+◌, ◌*◌, ◌-◌, ◌/◌, ◌%◌, ◌^◌, min, Bool, true, false, ◌&&◌, ◌||◌, List, [], ◌∷◌, Option,
  none, some, nat_eq, if◌then◌else◌, ltb,
}
use burnell.Prelude.Int.{ℤ, pos, ltb_ℤ}
use burnell.Text.{Text, codes}
use burnell.Result.{Result, ok, err, panic, ◌>>=◌}
use burnell.Icrypto.Token.{Claims, generate_claims}
use burnell.Icrypto.Period.{SigningMethod}

-- `none` of a parsed key is a key of another kind than RSA.
pub record KeyLibrary (Priv Pub : Type 0) : Type 0 where
  pub generate_key : Result Priv
  pub validate : Priv → Result (Unit {0})
  pub public_of : Priv → Pub
  pub marshal_private : Priv → Result Text
  pub marshal_public : Pub → Result Text
  pub parse_private : Text → Result (Option Priv)
  pub parse_public : Text → Result (Option Pub)
  pub pem_decode : Text → Option Text
  pub signed_string : SigningMethod → Claims → Priv → Result Text

-- A key that is marshalled and parsed again is the same key.
pub record Inverse {Priv Pub : Type 0} (lib : KeyLibrary Priv Pub) : Type 0 where
  pub private_again :
      (k : Priv) (bytes : Text)
      → lib.marshal_private k ≡ ok bytes
      → lib.parse_private bytes ≡ ok (some k)
  pub public_again :
      (k : Pub) (bytes : Text)
      → lib.marshal_public k ≡ ok bytes
      → lib.parse_public bytes ≡ ok (some k)

pub record RsaKeyPair (Priv Pub : Type 0) : Type 0 where
  pub private_key : Priv
  pub public_key : Pub
  pub private_key_bytes : Text
  pub public_key_bytes : Text

pub data FileFormat : Type 0 where
  pem : FileFormat
  der : FileFormat
  pkcs12 : FileFormat

-- `binary.BigEndian.Uint32` of four bytes.
abbrev pub big_endian : ℕ → ℕ → ℕ → ℕ → ℕ
big_endian a b c d = ((a * 256 + b) * 256 + c) * 256 + d

-- The masks `0xFFFF0000` and `0x0000FF00` are written as quotients and remainders.
unfoldable pub format_of_magic : ℕ → Result FileFormat
format_of_magic magic =
    if nat_eq magic 757935405 || nat_eq magic 1129270862
    then ok pem
    else if nat_eq (magic / 65536) 12418
    then (if nat_eq (magic / 256 % 256) 3 then ok der else ok pkcs12)
    else err (codes "undermined format")

unfoldable pub file_format : Option Text → Result FileFormat
file_format none = err (codes "not opened")
file_format (some (a ∷ b ∷ c ∷ d ∷ bytes)) = format_of_magic (big_endian a b c d)
file_format (some _) = err (codes "EOF")

abbrev read_all : Option Text → Result Text
read_all none = err (codes "not opened")
read_all (some bytes) = ok bytes

abbrev rsa_only : {A : Type 0} → Option A → Result A
rsa_only none = err (codes "expected key to be of type rsa")
rsa_only (some key) = ok key

module _ {Priv Pub : Type 0} (lib : KeyLibrary Priv Pub) where
  -- `data.Bytes` of a block that is nil panics.
  abbrev bytes_of_block : Option Text → Result Text
  bytes_of_block none = panic
  bytes_of_block (some bytes) = ok bytes

  unfoldable pub decode_pem : Option Text → Result Text
  decode_pem none = err (codes "not opened")
  decode_pem (some bytes) = bytes_of_block (lib.pem_decode bytes)

  unfoldable pub data_by_format : Option Text → FileFormat → Result Text
  data_by_format file pem = decode_pem file
  data_by_format file pkcs12 = read_all file
  data_by_format file der = err (codes "unsupported format")

  unfoldable pub get_data_from_key_file : Option Text → Result Text
  get_data_from_key_file file = file_format file >>= data_by_format file

  unfoldable pub parse_x509_pkcs8_private_key : Text → Result Priv
  parse_x509_pkcs8_private_key key_data = lib.parse_private key_data >>= rsa_only

  unfoldable pub parse_x509_pkix_public_key : Text → Result Pub
  parse_x509_pkix_public_key key_data = lib.parse_public key_data >>= rsa_only

  unfoldable pub make_rsa_key_pair : Priv → Pub → Result (RsaKeyPair Priv Pub)
  make_rsa_key_pair private_key public_key = do
    private_key_bytes ← lib.marshal_private private_key
    public_key_bytes ← lib.marshal_public public_key
    ok (record {
      private_key = private_key;
      public_key = public_key;
      private_key_bytes = private_key_bytes;
      public_key_bytes = public_key_bytes;
    })

  -- `NewRSAKeyPair`
  unfoldable pub new_rsa_key_pair : Result (RsaKeyPair Priv Pub)
  new_rsa_key_pair = do
    private_key ← lib.generate_key
    valid ← lib.validate private_key
    make_rsa_key_pair private_key (lib.public_of private_key)

  unfoldable pub load_rsa_key_pair_from_base64 : Text → Text → Result (RsaKeyPair Priv Pub)
  load_rsa_key_pair_from_base64 private_key_base64 public_key_base64 = do
    private_key ← parse_x509_pkcs8_private_key private_key_base64
    public_key ← parse_x509_pkix_public_key public_key_base64
    make_rsa_key_pair private_key public_key

  unfoldable pub get_private_key : Option Text → Result Priv
  get_private_key file = get_data_from_key_file file >>= parse_x509_pkcs8_private_key

  unfoldable pub get_public_key : Option Text → Result Pub
  get_public_key file = get_data_from_key_file file >>= parse_x509_pkix_public_key

  unfoldable pub load_rsa_key_pair : Option Text → Option Text → Result (RsaKeyPair Priv Pub)
  load_rsa_key_pair private_file public_file = do
    private_key ← get_private_key private_file
    public_key ← get_public_key public_file
    make_rsa_key_pair private_key public_key

  unfoldable pub generate_token : RsaKeyPair Priv Pub → Text → ℤ → SigningMethod → ℕ → Result Text
  generate_token keys user_subject time_duration signing_method now =
      lib.signed_string signing_method (generate_claims user_subject time_duration now)
        keys.private_key

-- `expireOffset`, in seconds
abbrev pub expire_offset : ℕ
expire_offset = 3600

-- `GetTokenRemainingValidity` of a time in whole seconds, or of a value that is no number; `now` is
-- in nanoseconds. The difference of two times stops at the longest duration.
unfoldable pub get_token_remaining_validity : Option ℕ → ℕ → ℕ
get_token_remaining_validity none now = expire_offset
get_token_remaining_validity (some validity) now =
    let remainer = min (validity * 1000000000 - now) (2 ^ 63 - 1) in
    if ltb 0 remainer then remainer / 1000000000 + expire_offset else expire_offset
