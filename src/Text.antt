-- ===== src/Text.antt =====
-- Go's `string` as its list of bytes, with the functions of the packages `strings` and `strconv`
-- that the program calls. `to_lower` and `trim_space` are those of ASCII texts.
pub mod Split
pub mod Laws
pub mod Search
pub mod Atoi
use Prim.Native.Char.{code}
use Prim.Native.String.{String}
use burnell.Prelude.{
  ℕ, zero, suc, ◌+◌, ◌-◌, ◌*◌, Bool, true, false, ◌&&◌, ◌||◌, List, [], ◌∷◌, ◌++◌, map, reverse,
  Option, none, some, ltb, leb, nat_eq, if◌then◌else◌, length, drop,
}
use mathlib.Core.Option

abbrev pub Text : Type 0
Text = List ℕ

-- The bytes of a literal.
abbrev pub codes : String → Text
codes String.[] = []
codes (String.◌∷◌ c s) = code c ∷ codes s

infix 50 ◌==◌
unfoldable pub ◌==◌ : Text → Text → Bool
[] == [] = true
(a ∷ s) == (b ∷ t) = nat_eq a b && (s == t)
_ == _ = false

unfoldable pub has_prefix : Text → Text → Bool
has_prefix s [] = true
has_prefix [] (b ∷ p) = false
has_prefix (a ∷ s) (b ∷ p) = nat_eq a b && has_prefix s p

unfoldable pub has_suffix : Text → Text → Bool
unfolding has_prefix
has_suffix s p = has_prefix (reverse s) (reverse p)

-- What stands before and behind the first `sep`.
unfoldable pub cut : Text → Text → Option (Text × Text)
unfolding has_prefix
cut [] sep = none
cut (c ∷ s) sep =
    let later = Option.map (λ r. (c ∷ r.0, r.1)) (cut s sep) in
    if has_prefix (c ∷ s) sep then some ([], drop (length sep) (c ∷ s)) else later

-- `strings.Replace(s, old, new, 1)`
unfoldable pub replace_first : Text → Text → Text → Text
unfolding cut
replace_first s old new = elim (cut s old) [ none ↦ s | some (a, b) ↦ a ++ (new ++ b) ]

split_on_fuel : ℕ → Text → Text → List Text
unfolding cut
split_on_fuel zero s sep = s ∷ []
split_on_fuel (suc n) s sep = elim (cut s sep) [
  | none ↦ s ∷ []
  | some (a, b) ↦ a ∷ split_on_fuel n b sep
]

-- `strings.Split` at a separator of several bytes: there are no more parts than bytes, and one.
unfoldable pub split_on : Text → Text → List Text
unfolding split_on_fuel
split_on s sep = split_on_fuel (length s) s sep

-- `strings.Split` at a separator of one byte.
abbrev push_head : ℕ → List Text → List Text
push_head c [] = (c ∷ []) ∷ []
push_head c (p ∷ ps) = (c ∷ p) ∷ ps

unfoldable pub split : Text → ℕ → List Text
split [] sep = [] ∷ []
split (c ∷ s) sep = let rest = split s sep in if nat_eq c sep then [] ∷ rest else push_head c rest

unfoldable pub join : List Text → Text → Text
join [] sep = []
join (p ∷ []) sep = p
join (p ∷ q ∷ ps) sep = p ++ (sep ++ join (q ∷ ps) sep)

abbrev pub is_space : ℕ → Bool
is_space c = nat_eq c 32 || (leb 9 c && leb c 13)

unfoldable pub trim_left : Text → Text
trim_left [] = []
trim_left (c ∷ s) = let rest = trim_left s in if is_space c then rest else c ∷ s

unfoldable pub trim_space : Text → Text
unfolding trim_left
trim_space s = reverse (trim_left (reverse (trim_left s)))

abbrev pub lower : ℕ → ℕ
lower c = if leb b'A' c && leb c b'Z' then c + 32 else c

unfoldable pub to_lower : Text → Text
to_lower s = map lower s

unfoldable pub contains_byte : Text → ℕ → Bool
contains_byte [] c = false
contains_byte (d ∷ s) c = nat_eq d c || contains_byte s c

-- `strings.Index` of one byte.
unfoldable pub index_byte : Text → ℕ → Option ℕ
index_byte [] c = none
index_byte (d ∷ s) c =
    let later = Option.map (λ n. suc n) (index_byte s c) in if nat_eq d c then some 0 else later

-- `strings.LastIndex` of one byte.
unfoldable pub last_index_byte : Text → ℕ → Option ℕ
last_index_byte [] c = none
last_index_byte (d ∷ s) c = elim (last_index_byte s c) [
  | some n ↦ some (suc n)
  | none ↦ if nat_eq d c then some 0 else none
]

abbrev pub is_digit : ℕ → Bool
is_digit c = leb b'0' c && leb c b'9'

-- The number that digits spell behind `n`.
unfoldable pub decimal : ℕ → Text → ℕ
decimal n [] = n
decimal n (c ∷ s) = decimal (n * 10 + (c - b'0')) s
