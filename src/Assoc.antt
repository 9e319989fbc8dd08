-- ===== src/Assoc.antt =====
-- A Go map with texts for keys, as an association list: the first entry of a key counts.
use burnell.Prelude.{◌≡◌, List, [], ◌∷◌, Option, none, some, arith, if◌then◌else◌}
use burnell.Text.{Text, ◌==◌}
use burnell.Text.Laws.{eq_iff}

module _ {ℓ} {V : Type ℓ} where
  unfoldable pub lookup : Text → List (Text × V) → Option V
  unfolding ◌==◌
  lookup key [] = none
  lookup key (entry ∷ entries) =
      let later = lookup key entries in if entry.0 == key then some entry.1 else later

  unfoldable pub delete : Text → List (Text × V) → List (Text × V)
  unfolding ◌==◌
  delete key [] = []
  delete key (entry ∷ entries) =
      let later = delete key entries in if entry.0 == key then later else entry ∷ later

  -- The order of the entries is no part of a Go map.
  unfoldable pub insert : Text → V → List (Text × V) → List (Text × V)
  unfolding delete
  insert key value entries = (key, value) ∷ delete key entries

  pub lookup-delete :
      (key other : Text) (entries : List (Text × V))
      → lookup other (delete key entries) ≡ (if key == other then none else lookup other entries)
  unfolding lookup delete
  lookup-delete key other [] = ground arith
  lookup-delete key other ((name, value) ∷ entries) =
      ground (
        arith,
        eq_iff key other,
        eq_iff name key,
        eq_iff name other,
        lookup-delete key other entries,
      )

  pub lookup-insert :
      (key other : Text) (value : V) (entries : List (Text × V))
      → lookup other (insert key value entries)
        ≡ (if key == other then some value else lookup other entries)
  unfolding lookup insert
  lookup-insert key other value entries = ground (arith, lookup-delete key other entries)
