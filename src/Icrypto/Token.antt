-- ===== src/Icrypto/Token.antt =====
-- src/icrypto/pulsar-jwt.go: the claims of a token. The jwt library is an argument: `parse` is
-- `jwt.Parse` with the public key, and returns the claims with the token's `Valid` flag.
use burnell.Prelude.{ℕ, Bool, true, false, Option, none, some, if◌then◌else◌, ◌/◌, ◌+◌}
use burnell.Prelude.Int.{ℤ, pos, pos_part, ltb_ℤ}
use burnell.Text.{Text, codes, ◌==◌}
use burnell.Result.{Result, ok, err, panic, ◌>>=◌}

-- The value of a claim: a text, or any other JSON value.
pub data ClaimValue : Type 0 where
  str : Text → ClaimValue
  other : ClaimValue

-- The claims that the program writes or reads, `exp` and `iat` in seconds.
pub record Claims : Type 0 where
  pub sub : Option ClaimValue
  pub exp : Option ℕ
  pub iat : Option ℕ

abbrev second : ℕ
second = 1000000000

-- `GenerateToken` up to the signature. The time and the duration are in nanoseconds.
unfoldable pub generate_claims : Text → ℤ → ℕ → Claims
generate_claims user_subject time_duration now =
    if ltb_ℤ (pos 0) time_duration
    then record {
      sub = some (str user_subject);
      exp = some ((now + pos_part time_duration) / second);
      iat = some (now / second);
    }
    else record { sub = some (str user_subject); exp = none; iat = none }

module _ (parse : Text → Option (Claims × Bool)) where
  unfoldable pub decode_token : Text → Result Claims
  decode_token token_str = elim (parse token_str) [
    | none ↦ err (codes "parse error")
    | some (token, valid) ↦ if valid then ok token else err (codes "invalid token")
  ]

  -- The cast to a text panics on any other value.
  abbrev subject_of : Option ClaimValue → Result Text
  subject_of none = err (codes "missing subjects")
  subject_of (some (str s)) = ok s
  subject_of (some other) = panic

  unfoldable pub get_token_subject : Text → Result Text
  unfolding decode_token
  get_token_subject token_str = do claims ← decode_token token_str; subject_of claims.sub

  abbrev sub_is : Option ClaimValue → Text → Bool
  sub_is (some (str s)) subject = subject == s
  sub_is _ subject = false

  unfoldable pub verify_token_subject : Text → Text → Result Bool
  unfolding decode_token ◌==◌
  verify_token_subject token_str subject = do
    claims ← decode_token token_str
    if sub_is claims.sub subject then ok true else err (codes "incorrect sub")
