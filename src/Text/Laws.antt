-- ===== src/Text/Laws.antt =====
-- Equality, prefixes and searches of texts.
use mathlib.Core.List.{reverse-cons}
use burnell.Prelude.{
  ◌≡◌, ◌≢◌, ◌↔◌, refl, true, [], ◌∷◌, ◌++◌, none, some, arith, length, drop, drop-append, sym,
  append-nil, append_assoc, reverse,
}
use burnell.Text.{Text, ◌==◌, has_prefix, has_suffix, cut, replace_first, split_on, split_on_fuel}

pub eq_iff : (s t : Text) → ((s == t) ≡ true) ↔ (s ≡ t)
unfolding ◌==◌
eq_iff [] [] = (λ _. refl, λ _. refl)
eq_iff [] (b ∷ t) = (λ e. cc, λ e. cc)
eq_iff (a ∷ s) [] = (λ e. cc, λ e. cc)
eq_iff (a ∷ s) (b ∷ t) = ground (arith, eq_iff s t)

pub eq_refl : (s : Text) → (s == s) ≡ true
eq_refl s = (eq_iff s s).1 refl

pub has_prefix-append : (p s : Text) → has_prefix (p ++ s) p ≡ true
unfolding has_prefix
has_prefix-append [] s = refl
has_prefix-append (c ∷ p) s = ground (arith, has_prefix-append p s)

pub has_prefix_sound : (s p : Text) → has_prefix s p ≡ true → s ≡ p ++ drop (length p) s
unfolding has_prefix
has_prefix_sound s [] h = refl
has_prefix_sound [] (b ∷ p) h = cc
has_prefix_sound (a ∷ s) (b ∷ p) h = ground (arith, has_prefix_sound s p)

-- A prefix that is there is replaced once.
pub replace_first-append : (p s new : Text) → p ≢ [] → replace_first (p ++ s) p new ≡ new ++ s
unfolding replace_first cut
replace_first-append [] s new h = absurd (h refl)
replace_first-append (c ∷ p) s new h = ground (arith, has_prefix-append p s, drop-append p s)

pub split_on-once :
    (s sep a b : Text) → cut s sep ≡ some (a, b) → cut b sep ≡ none → split_on s sep ≡ a ∷ b ∷ []
unfolding split_on
split_on-once [] sep a b h k = unfold cut in cc
split_on-once (c ∷ []) sep a b h k = rw (h, split_on_fuel)
split_on-once (c ∷ d ∷ s) sep a b h k = rw (h, split_on_fuel) (rw (k, split_on_fuel))

reverse-append : (s p : Text) → reverse (s ++ p) ≡ reverse p ++ reverse s
reverse-append [] p = sym (append-nil (reverse p))
reverse-append (c ∷ s) p =
    rw (reverse-cons c (s ++ p), reverse-append s p, reverse-cons c s)
      (append_assoc (reverse p) (reverse s) (c ∷ []))

pub has_suffix-append : (s p : Text) → has_suffix (s ++ p) p ≡ true
unfolding has_suffix
has_suffix-append s p = rw (reverse-append s p) (has_prefix-append (reverse p) (reverse s))
