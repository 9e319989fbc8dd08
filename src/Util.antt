-- ===== src/Util.antt =====
-- src/util/util.go: the helpers on strings and numbers.
pub mod Topics
pub mod Uuid
pub mod Responses
pub mod Files
pub mod Laws
use burnell.Prelude.{
  ℕ, ◌/◌, ◌-◌, Bool, true, false, not, ◌&&◌, ◌||◌, List, [], ◌∷◌, ◌++◌, Option, none, some, ltb,
  leb, nat_eq, if◌then◌else◌, length, drop,
}
use burnell.Prelude.Int.{ℤ, pos}
use burnell.Text.Atoi.{atoi}
use burnell.Text.{Text, codes, ◌==◌, has_prefix, has_suffix, replace_first, split, split_on}

-- The loop of `JoinString`, with what the builder holds.
abbrev join_string_from : Text → List Text → Text
join_string_from sb [] = sb
join_string_from sb (s ∷ strs) = join_string_from (sb ++ s) strs

unfoldable pub join_string : List Text → Text
join_string strs = join_string_from [] strs

-- `AssignString`: the first value that is not empty.
unfoldable pub assign_string : List Text → Text
unfolding ◌==◌
assign_string [] = []
assign_string (value ∷ values) =
    let rest = assign_string values in if not (value == []) then value else rest

unfoldable pub str_contains : List Text → Text → Bool
unfolding ◌==◌
str_contains [] str = false
str_contains (v ∷ strs) str = let rest = str_contains strs str in if v == str then true else rest

unfoldable pub single_join_slash : Text → Text → Text
unfolding has_prefix has_suffix
single_join_slash a b =
    let aslash = has_suffix a (codes "/") in
    let bslash = has_prefix b (codes "/") in
    if aslash && bslash
    then a ++ drop 1 b
    else if not aslash && not bslash
    then a ++ (codes "/" ++ b)
    else a ++ b

abbrev three_parts : List Text → Option (Text × Text × Text)
three_parts (tenant ∷ namespace ∷ topic ∷ []) = some (tenant, namespace, topic)
three_parts _ = none

abbrev second_part : List Text → Option Text
second_part (scheme ∷ rest ∷ []) = some rest
second_part _ = none

-- `ExtractPartsFromTopicFn`; `none` is an error.
unfoldable pub extract_parts_from_topic_fn : Text → Option (Text × Text × Text)
unfolding has_prefix
extract_parts_from_topic_fn topic_fn =
    if not (
      has_prefix topic_fn (codes "persistent://")
      || has_prefix topic_fn (codes "non-persistent://"))
    then none
    else elim (second_part (split_on topic_fn (codes "://"))) [
      | none ↦ none
      | some rest ↦ three_parts (split rest b'/')
    ]

-- `BytesToMegaBytesFloor` of an `int64`.
unfoldable pub bytes_to_mega_bytes_floor : ℤ → ℤ
bytes_to_mega_bytes_floor (pos n) =
    if nat_eq n 0 then pos 0 else let mb = n / 1000000 in if ltb 1 mb then pos mb else pos 1
bytes_to_mega_bytes_floor (ℤ.negsuc n) = pos 1

unfoldable pub condition_assign : Bool → Text → Text → Text
condition_assign condition true_value false_value = if condition then true_value else false_value

abbrev pub partition_prefix : Text
partition_prefix = codes "partition-"

abbrev pub persistent_prefix : Text
persistent_prefix = codes "persistent://"

unfoldable pub parse_partition_topic_name : Text → Text × Bool
unfolding has_prefix replace_first
parse_partition_topic_name topic =
    if has_prefix topic partition_prefix
    then (replace_first topic partition_prefix [], true)
    else (topic, false)

unfoldable pub is_persistent_topic : Text → Bool
unfolding has_prefix
is_persistent_topic topic = has_prefix topic persistent_prefix

-- `ComputeDelta` of three `uint64`.
unfoldable pub compute_delta : ℕ → ℕ → ℕ → ℕ
compute_delta last current default_value =
    if leb current last then default_value else current - last

-- `GetEnvInt`: the variable is not set, or holds `env_value`.
unfoldable pub get_env_int : Text → ℤ → ℤ
unfolding atoi
get_env_int env_value default_num = elim (atoi env_value) [ some i ↦ i | none ↦ default_num ]

-- `PreserveHeaderForRedirect`: headers as an association list; `via` holds those of the earlier
-- requests, the first one first. `none` is the error that stops the redirects.
abbrev missing_from : List (Text × Text) → Text → Bool
missing_from [] attr = true
missing_from ((k, v) ∷ header) attr = not (k == attr) && missing_from header attr

abbrev preserve_from : List (Text × Text) → List (Text × Text) → List (Text × Text)
preserve_from header [] = header
preserve_from header ((attr, val) ∷ first) =
    preserve_from (if missing_from header attr then header ++ (attr, val) ∷ [] else header) first

unfoldable pub preserve_header_for_redirect :
    List (Text × Text) → List (List (Text × Text)) → Option (List (Text × Text))
unfolding ◌==◌
preserve_header_for_redirect header [] = some header
preserve_header_for_redirect header (first ∷ via) =
    if leb 50 (length (first ∷ via)) then none else some (preserve_from header first)
