-- ===== src/Text/Split.antt =====
-- Splitting a text at one byte, and joining the parts.
use burnell.Prelude.{ℕ, ◌≡◌, ◌≢◌, refl, List, [], ◌∷◌, ◌++◌, arith, All, append_assoc}
use mathlib.Core.List.{cons-ne-nil}
use burnell.Text.{Text, split, join, push_head}

-- The byte does not occur.
abbrev pub Lacks : ℕ → Text → Type 0
Lacks c = All (λ d. d ≢ c)

pub split-ne-nil : (s : Text) (c : ℕ) → split s c ≢ []
unfolding split
split-ne-nil [] c = cc
split-ne-nil (x ∷ s) c = ground (arith, split-ne-nil s c)

push_head-append :
    (x : ℕ) (ps qs : List Text) → ps ≢ [] → push_head x (ps ++ qs) ≡ push_head x ps ++ qs
push_head-append x [] qs h = absurd (h refl)
push_head-append x (p ∷ ps) qs h = refl

-- A separator in the text starts a new part.
pub split-append : (s t : Text) (c : ℕ) → split (s ++ c ∷ t) c ≡ split s c ++ split t c
unfolding split
split-append [] t c = ground arith
split-append (x ∷ s) t c =
    ground
      (arith, split-append s t c, push_head-append x (split s c) (split t c) (split-ne-nil s c))

pub split-Lacks : (s : Text) (c : ℕ) → Lacks c s → split s c ≡ s ∷ []
unfolding split
split-Lacks [] c h = refl
split-Lacks (x ∷ s) c h = ground (arith, split-Lacks s c h.1)

join-push_head :
    (x : ℕ) (ps : List Text) (sep : Text) → ps ≢ [] → join (push_head x ps) sep ≡ x ∷ join ps sep
unfolding join
join-push_head x [] sep h = absurd (h refl)
join-push_head x (p ∷ []) sep h = refl
join-push_head x (p ∷ q ∷ ps) sep h = refl

join-cons_nil : (ps : List Text) (sep : Text) → ps ≢ [] → join ([] ∷ ps) sep ≡ sep ++ join ps sep
unfolding join
join-cons_nil [] sep h = absurd (h refl)
join-cons_nil (p ∷ ps) sep h = refl

pub join-split : (s : Text) (c : ℕ) → join (split s c) (c ∷ []) ≡ s
unfolding split
join-split [] c = unfold join in refl
join-split (x ∷ s) c = ground (
  arith,
  join-split s c,
  join-push_head x (split s c) (c ∷ []) (split-ne-nil s c),
  join-cons_nil (split s c) (c ∷ []) (split-ne-nil s c),
)

-- Splitting and joining at a last part behind the separator.
pub join-append_last :
    (ps : List Text) (q sep : Text) → ps ≢ [] → join (ps ++ q ∷ []) sep ≡ join ps sep ++ (sep ++ q)
unfolding join
join-append_last [] q sep h = absurd (h refl)
join-append_last (p ∷ []) q sep h = refl
join-append_last (p ∷ r ∷ ps) q sep h =
    simp (join-append_last (r ∷ ps) q sep (cons-ne-nil r ps), append_assoc)

pub split-last : (s t : Text) (c : ℕ) → Lacks c t → split (s ++ c ∷ t) c ≡ split s c ++ t ∷ []
split-last s t c h = rw (split-append s t c, split-Lacks t c h)
