-- ===== src/Policy/TopicStats/Page.antt =====
-- src/policy/topic-stats.go: `PaginateTopicStats` behind its look-up of the tenant's rows.
use burnell.Prelude.{
  Bool, true, false, ◌||◌, List, [], ◌∷◌, Option, none, some, if◌then◌else◌, length, take, drop,
  ltb, nat_eq, ◌-◌, ◌&&◌,
}
use burnell.Prelude.Int.{ℤ, pos, negsuc, wrap, ◌+ℤ◌, ltb_ℤ}
use burnell.Text.{Text}
use burnell.Assoc.{lookup, insert}
use burnell.Result.{Result, ok, err, panic}

-- `sort.Strings`
unfoldable pub text_ltb : Text → Text → Bool
text_ltb [] [] = false
text_ltb [] (b ∷ t) = true
text_ltb (a ∷ s) [] = false
text_ltb (a ∷ s) (b ∷ t) = ltb a b || (nat_eq a b && text_ltb s t)

unfoldable pub insert_sorted : Text → List Text → List Text
insert_sorted key [] = key ∷ []
insert_sorted key (other ∷ keys) =
    let later = insert_sorted key keys in
    if text_ltb other key then other ∷ later else key ∷ other ∷ keys

unfoldable pub sort_strings : List Text → List Text
sort_strings [] = []
sort_strings (key ∷ keys) = insert_sorted key (sort_strings keys)

-- The slice `keys[low:high]` of a slice with no more room than keys.
unfoldable pub slice {ℓ} : {A : Type ℓ} → List A → ℤ → ℤ → Result (List A)
slice keys (pos low) (pos high) =
    if ltb high low || ltb (length keys) high then panic else ok (take (high - low) (drop low keys))
slice keys (pos low) (negsuc high) = panic
slice keys (negsuc low) high = panic

-- The loop that fills `newMap`; a key that is missing in `allTopics` has the zero value there.
module _ {D : Type 0} (no_data : D) where
  abbrev or_no_data : Option D → D
  or_no_data none = no_data
  or_no_data (some d) = d

  unfoldable pub fill_map : List (Text × D) → List Text → List (Text × D) → List (Text × D)
  fill_map all_topics [] new_map = new_map
  fill_map all_topics (v ∷ keys) new_map =
      fill_map all_topics keys (insert v (or_no_data (lookup v all_topics)) new_map)

  abbrev answer_of : List (Text × D) → ℤ → ℤ → Result (List Text) → Result (ℤ × ℤ × List (Text × D))
  answer_of all_topics total new_offset panic = panic
  answer_of all_topics total new_offset (err e) = err e
  answer_of all_topics total new_offset (ok req_keys) =
      ok (total, new_offset, fill_map all_topics req_keys [])

  -- From the sorting of the keys on.
  unfoldable pub page : List (Text × D) → List Text → ℤ → ℤ → Result (ℤ × ℤ × List (Text × D))
  page all_topics keys offset page_size =
      let total = pos (length keys) in
      let moved = wrap (offset +ℤ page_size) in
      let new_offset = if ltb_ℤ total moved then total else moved in
      if ltb_ℤ total offset
      then ok (negsuc 0, negsuc 0, [])
      else answer_of all_topics total new_offset (slice (sort_strings keys) offset new_offset)
