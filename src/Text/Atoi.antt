-- ===== src/Text/Atoi.antt =====
-- `strconv.Atoi` in base 10: a sign, digits, and an error on what an `int64` does not hold.
use burnell.Prelude.{
  ℕ, ◌-◌, ◌^◌, ◌<◌, true, arith, ◌≡◌, refl, ◌&&◌, [], ◌∷◌, Option, none, some, leb, nat_eq,
  if◌then◌else◌, all,
}
use burnell.Prelude.Int.{ℤ, pos, negsuc}
use burnell.Text.{Text, codes, is_digit, decimal}

-- The digits behind the sign, if their number is at most `most`.
magnitude : ℕ → Text → Option ℕ
unfolding decimal
magnitude most [] = none
magnitude most (c ∷ s) =
    if all is_digit (c ∷ s) && leb (decimal 0 (c ∷ s)) most then some (decimal 0 (c ∷ s)) else none

abbrev negate : ℕ → ℤ
negate n = if nat_eq n 0 then pos 0 else negsuc (n - 1)

abbrev signed : (ℕ → ℤ) → Option ℕ → Option ℤ
signed f none = none
signed f (some n) = some (f n)

unfoldable pub atoi : Text → Option ℤ
unfolding magnitude
atoi [] = none
atoi (c ∷ s) =
    if nat_eq c b'-'
    then signed negate (magnitude (2 ^ 63) s)
    else if nat_eq c b'+'
    then signed pos (magnitude (2 ^ 63 - 1) s)
    else signed pos (magnitude (2 ^ 63 - 1) (c ∷ s))

atoi_tests :
    (atoi (codes "-42") ≡ some (negsuc 41))
    × (atoi (codes "+7") ≡ some (pos 7))
    × (atoi (codes "9223372036854775808") ≡ none)
    × (atoi (codes "1_0") ≡ none)
unfolding atoi
atoi_tests = (refl, refl, refl, refl)

-- Digits that spell a number of an `int64` are read as that number.
pub atoi_small :
    (c : ℕ) (s : Text)
    → all is_digit (c ∷ s) ≡ true
    → decimal 0 (c ∷ s) < 2 ^ 63
    → atoi (c ∷ s) ≡ some (pos (decimal 0 (c ∷ s)))
unfolding atoi
atoi_small c s h small = ground arith
