-- ===== src/Util/Laws.antt =====
-- What the small helpers of util.go promise.
use burnell.Prelude.{◌≡◌, ◌≢◌, sym, inl, inr, true, List, [], ◌∷◌, arith, Bool-cases}
use mathlib.Core.List.{Memᴰ}
use burnell.Text.{Text, ◌==◌}
use burnell.Text.Laws.{eq_iff}
use burnell.Util.{assign_string, str_contains}

pub str_contains_sound :
    (strs : List Text) (str : Text) → str_contains strs str ≡ true → Memᴰ str strs
unfolding str_contains
str_contains_sound [] str h = cc
str_contains_sound (v ∷ strs) str h = elim (Bool-cases (v == str)) [
  | inl e ↦ Memᴰ.head (sym ((eq_iff v str).0 e))
  | inr e ↦ Memᴰ.tail (str_contains_sound strs str (ground arith))
]

pub str_contains_complete :
    (strs : List Text) (str : Text) → Memᴰ str strs → str_contains strs str ≡ true
unfolding str_contains
str_contains_complete [] str m = elim m [ ]
str_contains_complete (v ∷ strs) str (Memᴰ.head e) = ground (arith, eq_iff v str)
str_contains_complete (v ∷ strs) str (Memᴰ.tail m) =
    ground (arith, str_contains_complete strs str m)

-- The first text of a list that is not empty, or the empty text where all are.
pub data IsFirstSet : List Text → Text → Type 0 where
  none_set : IsFirstSet [] []
  skipped : {v : Text} {values : List Text} → IsFirstSet values v → IsFirstSet ([] ∷ values) v
  found : {v : Text} {values : List Text} → v ≢ [] → IsFirstSet (v ∷ values) v

-- `AssignString` returns the first of its arguments that is not empty, and the empty text if there
-- is none.
pub assign_string-IsFirstSet : (values : List Text) → IsFirstSet values (assign_string values)
unfolding assign_string
assign_string-IsFirstSet [] = none_set
assign_string-IsFirstSet ([] ∷ values) = skipped (assign_string-IsFirstSet values)
assign_string-IsFirstSet ((c ∷ s) ∷ values) = found (cc)
