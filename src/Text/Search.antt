-- ===== src/Text/Search.antt =====
-- Where a byte stands first and last in a text.
use burnell.Prelude.{
  ℕ, zero, suc, ◌≡◌, inl, inr, refl, true, false, none, some, [], ◌∷◌, ◌++◌, arith, length, take,
  Bool-cases, nat_eq,
}
use burnell.Text.{Text, contains_byte, index_byte, last_index_byte}
use burnell.Text.Split.{Lacks}

-- The last place of the byte, with what the two functions answer.
pub data LastPlace (s : Text) (c : ℕ) : Type 0 where
  no_place : Lacks c s → last_index_byte s c ≡ none → contains_byte s c ≡ false → LastPlace s c
  last_place :
      (a b : Text)
      → s ≡ a ++ c ∷ b
      → Lacks c b
      → last_index_byte s c ≡ some (length a)
      → contains_byte s c ≡ true
      → LastPlace s c

LastPlace-cons : (d : ℕ) (s : Text) (c : ℕ) → LastPlace s c → LastPlace (d ∷ s) c
unfolding last_index_byte contains_byte
LastPlace-cons d s c (last_place a b e l i h) = last_place (d ∷ a) b (rw e) l (rw i) (ground arith)
LastPlace-cons d s c (no_place l i h) = elim (Bool-cases (nat_eq d c)) [
  | inl e ↦ last_place [] s (ground arith) l (rw (i, e)) (rw e)
  | inr e ↦ no_place (ground arith, l) (rw (i, e)) (rw (e, h))
]

pub find_last : (s : Text) (c : ℕ) → LastPlace s c
unfolding last_index_byte contains_byte
find_last [] c = no_place _ refl refl
find_last (d ∷ s) c = LastPlace-cons d s c (find_last s c)

-- The first place of the byte.
pub data FirstPlace (s : Text) (c : ℕ) : Type 0 where
  nowhere : Lacks c s → index_byte s c ≡ none → FirstPlace s c
  first_place :
      (a b : Text) → s ≡ a ++ c ∷ b → Lacks c a → index_byte s c ≡ some (length a) → FirstPlace s c

FirstPlace-cons : (d : ℕ) (s : Text) (c : ℕ) → FirstPlace s c → FirstPlace (d ∷ s) c
unfolding index_byte
FirstPlace-cons d s c place = elim (Bool-cases (nat_eq d c)) [
  | inl e ↦ first_place [] s (ground arith) _ (rw e)
  | inr e ↦ elim place [
    | nowhere l i ↦ nowhere (ground arith, l) (rw (e, i))
    | first_place a b s_is l i ↦ first_place (d ∷ a) b (rw s_is) (ground arith, l) (rw (e, i))
  ]
]

pub find_first : (s : Text) (c : ℕ) → FirstPlace s c
unfolding index_byte
find_first [] c = nowhere _ refl
find_first (d ∷ s) c = FirstPlace-cons d s c (find_first s c)

pub contains_byte-take :
    (n : ℕ) (s : Text) (c : ℕ) → contains_byte s c ≡ false → contains_byte (take n s) c ≡ false
unfolding contains_byte
contains_byte-take zero s c h = refl
contains_byte-take (suc n) [] c h = refl
contains_byte-take (suc n) (d ∷ s) c h = ground (arith, contains_byte-take n s c)

last_index_byte-Lacks : (s : Text) (c : ℕ) → Lacks c s → last_index_byte s c ≡ none
unfolding last_index_byte
last_index_byte-Lacks [] c l = refl
last_index_byte-Lacks (d ∷ s) c l = ground (arith, last_index_byte-Lacks s c l.1)

pub last_index_byte-append :
    (a b : Text) (c : ℕ) → Lacks c b → last_index_byte (a ++ c ∷ b) c ≡ some (length a)
unfolding last_index_byte
last_index_byte-append [] b c l = ground (arith, last_index_byte-Lacks b c l)
last_index_byte-append (d ∷ a) b c l = rw (last_index_byte-append a b c l) refl
