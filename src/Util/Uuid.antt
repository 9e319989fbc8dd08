-- ===== src/Util/Uuid.antt =====
-- src/util/util.go, `NewUUID`, and src/route/raw-cache.go, `HashKey`: bytes as hexadecimal digits. The
-- random source and SHA-256 are arguments.
use Prim.Native.Nat.{bit_and, bit_or}
use burnell.Prelude.{
  ℕ, zero, suc, ◌+◌, ◌-◌, ◌/◌, ◌%◌, ◌≤◌, ◌<◌, ◌≡◌, ◌⊎◌, refl, Bool, true, ◌&&◌, List, [], ◌∷◌, ◌++◌,
  arith, nat_eq, ltb, if◌then◌else◌, length, take, drop, All,
}
use burnell.Text.{Text, codes}
use burnell.Result.{Result, ok, err, panic}

-- The verb `%x`, two digits for each byte.
unfoldable pub hex_digit : ℕ → ℕ
hex_digit n = if ltb n 10 then b'0' + n else b'a' + (n - 10)

unfoldable pub encode_to_string : List ℕ → Text
encode_to_string [] = []
encode_to_string (b ∷ bytes) = hex_digit (b / 16) ∷ hex_digit (b % 16) ∷ encode_to_string bytes

unfoldable pub hash_key : (Text → List ℕ) → Text → Text
hash_key sha256 s = encode_to_string (sha256 s)

-- `uuid[i] = f(uuid[i])`
abbrev update_at : ℕ → (ℕ → ℕ) → List ℕ → List ℕ
update_at i f [] = []
update_at zero f (b ∷ bytes) = f b ∷ bytes
update_at (suc i) f (b ∷ bytes) = b ∷ update_at i f bytes

-- `&^ 0xc0 | 0x80` and `&^ 0xf0 | 0x40` on a byte.
unfoldable pub variant : ℕ → ℕ
variant b = bit_or (bit_and b 0x3f) 0x80

unfoldable pub version : ℕ → ℕ
version b = bit_or (bit_and b 0x0f) 0x40

abbrev slice : List ℕ → ℕ → ℕ → Text
slice uuid from to = encode_to_string (take (to - from) (drop from uuid))

unfoldable pub format_uuid : List ℕ → Text
format_uuid uuid =
    slice uuid 0 4
    ++ (codes "-"
        ++ (slice uuid 4 6
            ++ (codes "-"
                ++ (slice uuid 6 8
                    ++ (codes "-"
                        ++ (slice uuid 8 10 ++ (codes "-" ++ encode_to_string (drop 10 uuid))))))))

-- `random` is what `io.ReadFull` reads.
unfoldable pub new_uuid : Result (List ℕ) → Result Text
new_uuid (ok uuid) =
    if nat_eq (length uuid) 16
    then ok (format_uuid (update_at 6 version (update_at 8 variant uuid)))
    else err (codes "unexpected EOF")
new_uuid (err message) = err message
new_uuid panic = panic

-- A digit of `%x`.
abbrev pub IsHex : ℕ → Type 0
IsHex c = ((b'0' ≤ c) × (c ≤ b'9')) ⊎ ((b'a' ≤ c) × (c ≤ b'f'))

-- The text of a UUID of version 4 in RFC 4122: five groups of hexadecimal digits, the third of which
-- begins with a 4 and the fourth with one of 8, 9, a and b.
pub record IsUuid4 (text : Text) : Type 0 where
  pub a : Text
  pub b : Text
  pub c : Text
  pub d0 : ℕ
  pub d : Text
  pub e : Text
  pub groups :
      text
      ≡ a
        ++ (codes "-"
            ++ (b ++ (codes "-" ++ ((b'4' ∷ c) ++ (codes "-" ++ ((d0 ∷ d) ++ (codes "-" ++ e)))))))
  pub lengths : (length a ≡ 8) × (length b ≡ 4) × (length c ≡ 3) × (length d ≡ 3) × (length e ≡ 12)
  pub digits : All IsHex a × All IsHex b × All IsHex c × All IsHex d × All IsHex e
  pub is_variant : (d0 ≡ b'8') ⊎ (d0 ≡ b'9') ⊎ (d0 ≡ b'a') ⊎ (d0 ≡ b'b')

-- Whether two functions on numbers agree on those under a bound, by trying each.
agree_under : (f g : ℕ → ℕ) (bound : ℕ) → Bool
agree_under f g zero = true
agree_under f g (suc bound) = nat_eq (f bound) (g bound) && agree_under f g bound

same_under : (f g : ℕ → ℕ) (bound b : ℕ) → agree_under f g bound ≡ true → b < bound → f b ≡ g b
unfolding agree_under
same_under f g zero b tried h = absurd (omega (arith, h))
same_under f g (suc bound) b tried h = ground (arith, same_under f g bound b)

variant-eq : (b : ℕ) → b < 256 → variant b ≡ b % 64 + 128
unfolding agree_under variant
variant-eq b = same_under variant (λ x. x % 64 + 128) 256 b refl

version-eq : (b : ℕ) → b < 256 → version b ≡ b % 16 + 64
unfolding agree_under version
version-eq b = same_under version (λ x. x % 16 + 64) 256 b refl

hex_digit-IsHex : (n : ℕ) → n < 16 → IsHex (hex_digit n)
unfolding hex_digit
hex_digit-IsHex n h = ground arith

encode-IsHex : (bytes : List ℕ) → All (λ b. b < 256) bytes → All IsHex (encode_to_string bytes)
unfolding encode_to_string
encode-IsHex [] h = tt
encode-IsHex (b ∷ bytes) (small, h) = (
  hex_digit-IsHex (b / 16) (omega (arith, small)),
  (hex_digit-IsHex (b % 16) (omega arith), encode-IsHex bytes h),
)

length-encode : (bytes : List ℕ) → length (encode_to_string bytes) ≡ length bytes + length bytes
unfolding encode_to_string
length-encode [] = omega arith
length-encode (b ∷ bytes) = omega (arith, length-encode bytes)

-- The first digit of the byte with the version, and of the one with the variant.
version-digit : (b : ℕ) → b < 256 → hex_digit (version b / 16) ≡ b'4'
unfolding hex_digit
version-digit b h = rw (version-eq b h) (ground arith)

variant-digit :
    (b : ℕ)
    → b < 256
    → (hex_digit (variant b / 16) ≡ b'8')
      ⊎ (hex_digit (variant b / 16) ≡ b'9')
      ⊎ (hex_digit (variant b / 16) ≡ b'a')
      ⊎ (hex_digit (variant b / 16) ≡ b'b')
unfolding hex_digit
variant-digit b h = rw (variant-eq b h) (ground arith)

-- From sixteen bytes `NewUUID` makes the text of a UUID of version 4.
pub new_uuid-IsUuid4 :
    (uuid : List ℕ)
    → length uuid ≡ 16
    → All (λ b. b < 256) uuid
    → (text : Text) × (new_uuid (ok uuid) ≡ ok text) × IsUuid4 text
unfolding new_uuid format_uuid encode_to_string
new_uuid-IsUuid4
      (b0 ∷ b1 ∷ b2 ∷ b3 ∷ b4 ∷ b5 ∷ b6 ∷ b7 ∷ b8 ∷ b9 ∷ b10 ∷ b11 ∷ b12 ∷ b13 ∷ b14 ∷ b15 ∷ []) l
      (h0, (h1, (h2, (h3, (h4, (h5, (h6, (h7, (h8, (h9, last)))))))))) =
    (
      format_uuid (
          b0
          ∷ b1
          ∷ b2
          ∷ b3
          ∷ b4
          ∷ b5
          ∷ version b6
          ∷ b7
          ∷ variant b8
          ∷ b9
          ∷ b10
          ∷ b11
          ∷ b12
          ∷ b13
          ∷ b14
          ∷ b15
          ∷ []),
      refl,
      record {
        a = encode_to_string (b0 ∷ b1 ∷ b2 ∷ b3 ∷ []);
        b = encode_to_string (b4 ∷ b5 ∷ []);
        c = hex_digit (version b6 % 16) ∷ encode_to_string (b7 ∷ []);
        d0 = hex_digit (variant b8 / 16);
        d = hex_digit (variant b8 % 16) ∷ encode_to_string (b9 ∷ []);
        e = encode_to_string (b10 ∷ b11 ∷ b12 ∷ b13 ∷ b14 ∷ b15 ∷ []);
        groups = rw (version-digit b6 h6) refl;
        lengths = (refl, refl, refl, refl, refl);
        digits = (
          encode-IsHex (b0 ∷ b1 ∷ b2 ∷ b3 ∷ []) (h0, (h1, (h2, (h3, tt)))),
          encode-IsHex (b4 ∷ b5 ∷ []) (h4, (h5, tt)),
          (hex_digit-IsHex (version b6 % 16) (omega arith), encode-IsHex (b7 ∷ []) (h7, tt)),
          (hex_digit-IsHex (variant b8 % 16) (omega arith), encode-IsHex (b9 ∷ []) (h9, tt)),
          encode-IsHex (b10 ∷ b11 ∷ b12 ∷ b13 ∷ b14 ∷ b15 ∷ []) last,
        );
        is_variant = variant-digit b8 h8;
      },
    )
new_uuid-IsUuid4 uuid l h = absurd (omega (arith, l))
