-- ===== src/Icrypto/Period.antt =====
-- src/icrypto/pulsar-jwt.go: how long a token lasts, and how it is signed.
pub mod Laws
use burnell.Prelude.{
  ℕ, ◌*◌, ◌-◌, Bool, true, false, ◌&&◌, List, [], ◌∷◌, ◌++◌, Option, none, some, leb, nat_eq, all,
  if◌then◌else◌,
}
use burnell.Prelude.Int.{ℤ, pos, ◌*ℤ◌, wrap}
use burnell.Text.{Text, codes, ◌==◌, is_digit, to_lower, trim_space}
use burnell.Text.Atoi.{atoi}

-- `time.Hour`
abbrev pub hour : ℕ
hour = 3600000000000

-- `duration[:len(duration)-1]` and the byte behind it.
unfoldable pub split_unit : Text → Option (Text × ℕ)
split_unit [] = none
split_unit (c ∷ []) = some ([], c)
split_unit (c ∷ d ∷ s) = elim (split_unit (d ∷ s)) [
  | none ↦ none
  | some (n, unit) ↦ some (c ∷ n, unit)
]

-- `[1-9][0-9]*`
unfoldable pub is_count : Text → Bool
is_count [] = false
is_count (c ∷ s) = leb b'1' c && leb c b'9' && all is_digit s

-- A `time.Duration` of `n` times `per` hours; each product wraps around.
abbrev pub hours : ℤ → ℕ → ℤ
hours n per = wrap (wrap (n *ℤ pos per) *ℤ pos hour)

abbrev hours_of : Option ℤ → ℕ → Option ℤ
hours_of none per = none
hours_of (some n) per = some (hours n per)

-- The year's product has one more factor.
abbrev years_of : Option ℤ → Option ℤ
years_of none = none
years_of (some n) = some (hours (wrap (n *ℤ pos 365)) 24)

abbrev period_of : Option (Text × ℕ) → Option ℤ
period_of none = none
period_of (some (n, unit)) =
    if is_count n && nat_eq unit b'd'
    then hours_of (atoi n) 24
    else if is_count n && nat_eq unit b'y'
    then years_of (atoi n)
    else none

unfoldable pub validate_duration_period : Text → Option ℤ
validate_duration_period duration = period_of (split_unit duration)

pub data SigningMethod : Type 0 where
  rs256 rs384 rs512 hs256 hs384 hs512 es256 es384 es512 ps256 ps384 ps512 none_method :
      SigningMethod

unfoldable pub sig_method : Text → Option SigningMethod
unfolding ◌==◌ to_lower
sig_method algo =
    let a = to_lower algo in
    if a == codes "rs256"
    then some rs256
    else if a == codes "rs384"
    then some rs384
    else if a == codes "rs512"
    then some rs512
    else if a == codes "hs256"
    then some hs256
    else if a == codes "hs384"
    then some hs384
    else if a == codes "hs512"
    then some hs512
    else if a == codes "es256"
    then some es256
    else if a == codes "es384"
    then some es384
    else if a == codes "es512"
    then some es512
    else if a == codes "ps256"
    then some ps256
    else if a == codes "ps384"
    then some ps384
    else if a == codes "ps512"
    then some ps512
    else if a == codes "none"
    then some none_method
    else none

-- The duration of `ValidateClaims`: what Go's own parser says where the period is of another form.
abbrev duration_of : Option ℤ → Option ℤ → Option ℤ
duration_of (some period) parsed = some period
duration_of none parsed = parsed

abbrev pair_of : Option ℤ → Option SigningMethod → Option (ℤ × SigningMethod)
pair_of (some d) (some m) = some (d, m)
pair_of _ _ = none

-- `ValidateClaims`; `parse_duration` is `time.ParseDuration`.
unfoldable pub validate_claims : (Text → Option ℤ) → Text → Text → Option (ℤ × SigningMethod)
validate_claims parse_duration expiry_duration signing_method =
    let dur = trim_space (to_lower expiry_duration) in
    pair_of (duration_of (validate_duration_period dur) (parse_duration dur))
      (sig_method signing_method)
