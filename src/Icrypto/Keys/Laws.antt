-- ===== src/Icrypto/Keys/Laws.antt =====
-- The formats of key files, and that stored keys load as the pair that they were made from.
use burnell.Prelude.{ℕ, ◌<◌, ◌≡◌, ◌≢◌, ◌↔◌, ◌⊎◌, ◌∷◌, Option, none, some, arith}
use burnell.Text.{Text}
use burnell.Result.{ok, panic}
use burnell.Icrypto.Keys.{
  KeyLibrary, Inverse, RsaKeyPair, pem, der, pkcs12, big_endian, format_of_magic, file_format,
  decode_pem, data_by_format, get_data_from_key_file, parse_x509_pkcs8_private_key,
  parse_x509_pkix_public_key, make_rsa_key_pair, new_rsa_key_pair, load_rsa_key_pair_from_base64,
  load_rsa_key_pair, get_private_key,
}

-- Bytes.
abbrev pub IsByte : ℕ → Type 0
IsByte b = b < 256

format_of_magic-pem :
    (a b c d : ℕ)
    → IsByte a
    → IsByte b
    → IsByte c
    → IsByte d
    → (format_of_magic (big_endian a b c d) ≡ ok pem) ↔ (
        ((a ≡ b'-') × (b ≡ b'-') × (c ≡ b'-') × (d ≡ b'-'))
        ⊎ ((a ≡ b'C') × (b ≡ b'O') × (c ≡ b'N') × (d ≡ b'N')))
unfolding format_of_magic
format_of_magic-pem a b c d ha hb hc hd = ground arith

format_of_magic-der :
    (a b c d : ℕ)
    → IsByte a
    → IsByte b
    → IsByte c
    → IsByte d
    → (format_of_magic (big_endian a b c d) ≡ ok der) ↔ ((a ≡ 48) × (b ≡ 130) × (c ≡ 3))
unfolding format_of_magic
format_of_magic-der a b c d ha hb hc hd = ground arith

format_of_magic-pkcs12 :
    (a b c d : ℕ)
    → IsByte a
    → IsByte b
    → IsByte c
    → IsByte d
    → (format_of_magic (big_endian a b c d) ≡ ok pkcs12) ↔ ((a ≡ 48) × (b ≡ 130) × (c ≢ 3))
unfolding format_of_magic
format_of_magic-pkcs12 a b c d ha hb hc hd = ground arith

-- Which first four bytes make a file one of PEM, of DER or of PKCS12: `----` and `CONN` the first,
-- 30 82 the others, told apart by the third byte.
pub file_format_iff :
    (a b c d : ℕ) (bytes : Text)
    → IsByte a
    → IsByte b
    → IsByte c
    → IsByte d
    → ((file_format (some (a ∷ b ∷ c ∷ d ∷ bytes)) ≡ ok pem) ↔ (
        ((a ≡ b'-') × (b ≡ b'-') × (c ≡ b'-') × (d ≡ b'-'))
        ⊎ ((a ≡ b'C') × (b ≡ b'O') × (c ≡ b'N') × (d ≡ b'N'))))
      × ((file_format (some (a ∷ b ∷ c ∷ d ∷ bytes)) ≡ ok der) ↔ ((a ≡ 48) × (b ≡ 130) × (c ≡ 3)))
      × ((file_format (some (a ∷ b ∷ c ∷ d ∷ bytes)) ≡ ok pkcs12)
          ↔ ((a ≡ 48) × (b ≡ 130) × (c ≢ 3)))
unfolding file_format
file_format_iff a b c d bytes ha hb hc hd = (
  format_of_magic-pem a b c d ha hb hc hd,
  format_of_magic-der a b c d ha hb hc hd,
  format_of_magic-pkcs12 a b c d ha hb hc hd,
)

-- A file that looks like PEM and holds no PEM block makes the loading of a key pair panic.
pub load-malformed_pem :
    {Priv Pub : Type 0} (lib : KeyLibrary Priv Pub) (bytes : Text) (public_file : Option Text)
    → file_format (some bytes) ≡ ok pem
    → lib.pem_decode bytes ≡ none
    → load_rsa_key_pair lib (some bytes) public_file ≡ panic
unfolding load_rsa_key_pair get_private_key get_data_from_key_file data_by_format decode_pem
load-malformed_pem lib bytes public_file f n = ground arith

-- A pair that was made anew loads again from the bytes of its two keys.
pub load-new :
    {Priv Pub : Type 0} (lib : KeyLibrary Priv Pub) (keys : RsaKeyPair Priv Pub)
    → Inverse lib
    → new_rsa_key_pair lib ≡ ok keys
    → load_rsa_key_pair_from_base64 lib keys.private_key_bytes keys.public_key_bytes ≡ ok keys
unfolding new_rsa_key_pair load_rsa_key_pair_from_base64 make_rsa_key_pair
    parse_x509_pkcs8_private_key parse_x509_pkix_public_key
load-new lib keys inverse e = ground (
  arith,
  inverse.private_again keys.private_key keys.private_key_bytes,
  inverse.public_again keys.public_key keys.public_key_bytes,
)
