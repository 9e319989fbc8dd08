-- ===== src/Policy/FeatureCodes/Laws.antt =====
-- The codes that are valid.
use mathlib.Core.List.{reverse-cons, reverse-reverse}
use burnell.Prelude.{ℕ, ◌≡◌, ◌≢◌, refl, Bool, true, [], ◌∷◌, ◌++◌, reverse, arith, all}
use burnell.Text.{Text, to_lower, trim_space, trim_left}
use burnell.Policy.FeatureCodes.{is_code_byte, is_code, validate_feature_code}

to_lower-code : (s : Text) → all is_code_byte s ≡ true → to_lower s ≡ s
unfolding to_lower
to_lower-code [] h = refl
to_lower-code (c ∷ s) h = ground (arith, to_lower-code s)

trim_left-code : (s : Text) → all is_code_byte s ≡ true → trim_left s ≡ s
unfolding trim_left
trim_left-code [] h = refl
trim_left-code (c ∷ s) h = ground arith

all-append : (p : ℕ → Bool) (s t : Text) → all p s ≡ true → all p t ≡ true → all p (s ++ t) ≡ true
all-append p [] t h k = k
all-append p (c ∷ s) t h k = ground (arith, all-append p s t)

all-reverse : (p : ℕ → Bool) (s : Text) → all p s ≡ true → all p (reverse s) ≡ true
all-reverse p [] h = refl
all-reverse p (c ∷ s) h =
    rw (reverse-cons c s)
      (all-append p (reverse s) (c ∷ []) (all-reverse p s (ground (arith, h))) (ground (arith, h)))

trim_space-code : (s : Text) → all is_code_byte s ≡ true → trim_space s ≡ s
unfolding trim_space
trim_space-code s h =
    rw (trim_space, trim_left-code s h, trim_left-code (reverse s) (all-reverse is_code_byte s h))
      (reverse-reverse s)

code_bytes : (s : Text) → is_code s ≡ true → all is_code_byte s ≡ true
unfolding is_code
code_bytes [] h = cc
code_bytes (c ∷ s) h = h

code_not_empty : (s : Text) → is_code s ≡ true → s ≢ []
unfolding is_code
code_not_empty [] h = cc
code_not_empty (c ∷ s) h = ground arith

-- A code that `ValidateFeatureCode` accepts is its own normal form: validating it again changes
-- nothing, and it is a name that is not empty, of small letters, digits and dashes.
pub validate_feature_code-again :
    (name p : Text)
    → validate_feature_code name ≡ (p, true)
    → (validate_feature_code p ≡ (p, true)) × (p ≢ []) × (all is_code_byte p ≡ true)
unfolding validate_feature_code is_code
validate_feature_code-again name p h =
    let valid : is_code p ≡ true = ground (arith, h) in
    let bytes : all is_code_byte p ≡ true = code_bytes p valid in
    (
      rw (validate_feature_code, to_lower-code p bytes, trim_space-code p bytes, valid) refl,
      code_not_empty p valid,
      bytes,
    )
