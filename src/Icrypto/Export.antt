-- ===== src/Icrypto/Export.antt =====
-- src/icrypto/pulsar-jwt.go: the keys of a pair as PEM, as Base64 and in files. The encodings are
-- arguments; `os.Create` with `binary.Write`, and `ioutil.WriteFile`, do to the disk what
-- `StringToNewFile` does.
use burnell.Prelude.{
  ℕ, ◌<◌, ◌≡◌, ◌≢◌, refl, ◌⊎◌, inl, inr, Bool, true, false, ◌∷◌, Option, some, arith, if◌then◌else◌,
}
use burnell.Text.{Text, ◌==◌}
use burnell.Text.Laws.{eq_iff, eq_refl}
use burnell.Result.{Result, ok}
use burnell.Util.Files.{Disk, Writes, string_to_new_file, read-string_to_new_file}
use burnell.Icrypto.Keys.{
  KeyLibrary, Inverse, RsaKeyPair, pem, pkcs12, file_format, format_of_magic, big_endian,
  data_by_format, decode_pem, get_data_from_key_file, get_private_key, get_public_key,
  parse_x509_pkcs8_private_key, parse_x509_pkix_public_key, make_rsa_key_pair, load_rsa_key_pair,
}

module _ {Priv Pub : Type 0} (keys : RsaKeyPair Priv Pub) where
  -- `pem.EncodeToMemory` of a block that has no type.
  unfoldable pub export_rsa_public_key_as_pem : (Text → Text) → Text
  export_rsa_public_key_as_pem pem_encode = pem_encode keys.public_key_bytes

  unfoldable pub export_rsa_private_key_as_pem : (Text → Text) → Text
  export_rsa_private_key_as_pem pem_encode = pem_encode keys.private_key_bytes

  unfoldable pub export_private_key_binary_base64 : (Text → Text) → Text
  export_private_key_binary_base64 base64 = base64 keys.private_key_bytes

  unfoldable pub export_public_key_binary_base64 : (Text → Text) → Text
  export_public_key_binary_base64 base64 = base64 keys.public_key_bytes

  module _ {S : Type 0} (disk : Disk S) where
    unfoldable pub export_rsa_public_key_binary_file : Text → S → S × Result (Unit {0})
    export_rsa_public_key_binary_file file_path s =
        string_to_new_file disk file_path keys.public_key_bytes s

    unfoldable pub export_rsa_private_key_binary_file : Text → S → S × Result (Unit {0})
    export_rsa_private_key_binary_file file_path s =
        string_to_new_file disk file_path keys.private_key_bytes s

unfoldable pub write_key_to_file : {S : Type 0} → Disk S → Text → Text → S → S × Result (Unit {0})
write_key_to_file disk key_bytes save_file_to s = string_to_new_file disk save_file_to key_bytes s

-- The two files that a pair is exported to, each in binary or as PEM.
module _ {Priv Pub S : Type 0} (disk : Disk S) (pem_encode : Text → Text)
    (keys : RsaKeyPair Priv Pub) where
  abbrev pub export_private : Bool → Text → S → S × Result (Unit {0})
  export_private true file_path s =
      write_key_to_file disk (export_rsa_private_key_as_pem keys pem_encode) file_path s
  export_private false file_path s = export_rsa_private_key_binary_file keys disk file_path s

  abbrev pub export_public : Bool → Text → S → S × Result (Unit {0})
  export_public true file_path s =
      write_key_to_file disk (export_rsa_public_key_as_pem keys pem_encode) file_path s
  export_public false file_path s = export_rsa_public_key_binary_file keys disk file_path s

-- The bytes of a long key in DER: the tag of a sequence, two bytes of a length, which is not of 768 to
-- 1023 bytes.
abbrev pub IsLongDer : Text → Type 0
IsLongDer bytes =
    (c : ℕ) × (d : ℕ) × (rest : Text) × (bytes ≡ 48 ∷ 130 ∷ c ∷ d ∷ rest)
    × (c < 256)
    × (d < 256)
    × (c ≢ 3)

-- What a file holds is a key's bytes in DER, or their PEM.
abbrev pub Holds : (Text → Text) → Option Text → Text → Type 0
Holds pem_encode file bytes = (file ≡ some bytes) ⊎ (file ≡ some (pem_encode bytes))

-- encoding/pem: a block begins with dashes, and is decoded to the bytes that were encoded.
pub record EncodesPem {Priv Pub : Type 0} (lib : KeyLibrary Priv Pub) (pem_encode : Text → Text)
    : Type 0 where
  pub dashes :
      (bytes : Text) → (rest : Text) × (pem_encode bytes ≡ b'-' ∷ b'-' ∷ b'-' ∷ b'-' ∷ rest)
  pub decodes : (bytes : Text) → lib.pem_decode (pem_encode bytes) ≡ some bytes

-- The text that an export writes.
abbrev text_of : (Text → Text) → Bool → Text → Text
text_of pem_encode as_pem bytes = if as_pem then pem_encode bytes else bytes

Holds-text_of :
    (pem_encode : Text → Text) (as_pem : Bool) (bytes : Text) (file : Option Text)
    → file ≡ some (text_of pem_encode as_pem bytes)
    → Holds pem_encode file bytes
Holds-text_of pem_encode true bytes file e = inr e
Holds-text_of pem_encode false bytes file e = inl e

module _ {Priv Pub S : Type 0} (disk : Disk S) (pem_encode : Text → Text)
    (keys : RsaKeyPair Priv Pub) (laws : Writes disk) where
  read-export_private :
      (as_pem : Bool) (file_path other : Text) (s s' : S)
      → export_private disk pem_encode keys as_pem file_path s ≡ (s', ok tt)
      → disk.read s' other ≡ (
          if file_path == other
          then some (text_of pem_encode as_pem keys.private_key_bytes)
          else disk.read s other)
  unfolding write_key_to_file export_rsa_private_key_as_pem export_rsa_private_key_binary_file
  read-export_private true file_path other s s' e =
      read-string_to_new_file disk laws file_path other (pem_encode keys.private_key_bytes) s s' e
  read-export_private false file_path other s s' e =
      read-string_to_new_file disk laws file_path other keys.private_key_bytes s s' e

  read-export_public :
      (as_pem : Bool) (file_path other : Text) (s s' : S)
      → export_public disk pem_encode keys as_pem file_path s ≡ (s', ok tt)
      → disk.read s' other ≡ (
          if file_path == other
          then some (text_of pem_encode as_pem keys.public_key_bytes)
          else disk.read s other)
  unfolding write_key_to_file export_rsa_public_key_as_pem export_rsa_public_key_binary_file
  read-export_public true file_path other s s' e =
      read-string_to_new_file disk laws file_path other (pem_encode keys.public_key_bytes) s s' e
  read-export_public false file_path other s s' e =
      read-string_to_new_file disk laws file_path other keys.public_key_bytes s s' e

magic-long :
    (c d : ℕ) → c < 256 → d < 256 → c ≢ 3 → format_of_magic (big_endian 48 130 c d) ≡ ok pkcs12
unfolding format_of_magic
magic-long c d hc hd h = ground arith

long_der-format : (bytes : Text) → IsLongDer bytes → file_format (some bytes) ≡ ok pkcs12
unfolding file_format
long_der-format bytes (c, d, rest, e, hc, hd, h) = rw e (magic-long c d hc hd h)

pem-format :
    (bytes rest : Text)
    → bytes ≡ b'-' ∷ b'-' ∷ b'-' ∷ b'-' ∷ rest
    → file_format (some bytes) ≡ ok pem
unfolding file_format format_of_magic
pem-format bytes rest e = rw e refl

module _ {Priv Pub : Type 0} (lib : KeyLibrary Priv Pub) (pem_encode : Text → Text)
    (encodes : EncodesPem lib pem_encode) where
  -- Either file gives the key's bytes.
  data_of_file :
      (file : Option Text) (bytes : Text)
      → IsLongDer bytes
      → Holds pem_encode file bytes
      → get_data_from_key_file lib file ≡ ok bytes
  unfolding get_data_from_key_file data_by_format decode_pem
  data_of_file file bytes long (inl e) =
      rw (e, get_data_from_key_file, long_der-format bytes long) refl
  data_of_file file bytes long (inr e) =
      let (rest, dashes) = encodes.dashes bytes in
      rw
        (
          e,
          get_data_from_key_file,
          pem-format (pem_encode bytes) rest dashes,
          e,
          data_by_format,
          decode_pem,
          encodes.decodes bytes,
        )
        refl

  get_keys :
      (keys : RsaKeyPair Priv Pub) (private_file public_file : Option Text)
      → Inverse lib
      → make_rsa_key_pair lib keys.private_key keys.public_key ≡ ok keys
      → get_data_from_key_file lib private_file ≡ ok keys.private_key_bytes
      → get_data_from_key_file lib public_file ≡ ok keys.public_key_bytes
      → load_rsa_key_pair lib private_file public_file ≡ ok keys
  unfolding load_rsa_key_pair get_private_key get_public_key parse_x509_pkcs8_private_key
      parse_x509_pkix_public_key make_rsa_key_pair
  get_keys keys private_file public_file inverse made private_data public_data = ground (
    arith,
    inverse.private_again keys.private_key keys.private_key_bytes,
    inverse.public_again keys.public_key keys.public_key_bytes,
  )

  -- The two keys of a pair that are exported without an error to two files, each in binary or as PEM,
  -- load from these as the same pair: for keys that parse again once marshalled, whose bytes in DER
  -- have a length of two bytes that is not 768 to 1023, a PEM encoding that begins with dashes and is
  -- decoded again, and a disk that keeps what is written.
  pub load-exported :
      {S : Type 0} (disk : Disk S) (keys : RsaKeyPair Priv Pub)
      (private_as_pem public_as_pem : Bool) (private_path public_path : Text) (s s1 s2 : S)
      → Inverse lib
      → Writes disk
      → make_rsa_key_pair lib keys.private_key keys.public_key ≡ ok keys
      → IsLongDer keys.private_key_bytes
      → IsLongDer keys.public_key_bytes
      → private_path ≢ public_path
      → export_private disk pem_encode keys private_as_pem private_path s ≡ (s1, ok tt)
      → export_public disk pem_encode keys public_as_pem public_path s1 ≡ (s2, ok tt)
      → load_rsa_key_pair lib (disk.read s2 private_path) (disk.read s2 public_path) ≡ ok keys
  load-exported disk keys private_as_pem public_as_pem private_path public_path s s1 s2 inverse laws
        made long_private long_public apart e1 e2 =
      let stored : disk.read s2 private_path
          ≡ some (text_of pem_encode private_as_pem keys.private_key_bytes) =
        ground (
          arith,
          read-export_public disk pem_encode keys laws public_as_pem public_path private_path s1 s2
              e2,
          read-export_private disk pem_encode keys laws private_as_pem private_path private_path s
              s1 e1,
          eq_refl private_path,
          eq_iff public_path private_path,
        ) in
      let beside : disk.read s2 public_path
          ≡ some (text_of pem_encode public_as_pem keys.public_key_bytes) =
        ground (
          arith,
          read-export_public disk pem_encode keys laws public_as_pem public_path public_path s1 s2
              e2,
          eq_refl public_path,
        ) in
      get_keys keys (disk.read s2 private_path) (disk.read s2 public_path) inverse made
        (data_of_file (disk.read s2 private_path) keys.private_key_bytes long_private (
          Holds-text_of pem_encode private_as_pem keys.private_key_bytes (disk.read s2 private_path)
            stored))
        (data_of_file (disk.read s2 public_path) keys.public_key_bytes long_public (
          Holds-text_of pem_encode public_as_pem keys.public_key_bytes (disk.read s2 public_path)
            beside))
