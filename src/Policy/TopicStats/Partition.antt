-- ===== src/Policy/TopicStats/Partition.antt =====
-- src/policy/topic-stats.go: the names of partitions.
pub mod Laws
use burnell.Prelude.{
  ℕ, ◌-◌, suc, Bool, true, false, not, ◌&&◌, List, [], ◌∷◌, Option, none, some, leb, if◌then◌else◌,
  length, take, drop, all,
}
use burnell.Text.{Text, codes, has_suffix, split, join, contains_byte, last_index_byte, is_digit}

abbrev pub starts_lower : Text → Bool
starts_lower [] = false
starts_lower (c ∷ s) = leb b'a' c && leb c b'z'

-- What `.` stands for is every byte but a newline.
unfoldable pub matches_at : Text → Text → Bool
matches_at u digits =
    let base = take (length u - 10) u in
    has_suffix u (codes "-partition")
    && starts_lower base
    && not (contains_byte base 10)
    && all is_digit digits
    && leb 1 (length digits)
    && leb (length digits) 5

-- The expression `^[a-z].*-partition-[0-9]{1,5}$`: its last dash is the last one of the text.
unfoldable pub matches_partition : Text → Bool
matches_partition name = elim (last_index_byte name b'-') [
  | none ↦ false
  | some n ↦ matches_at (take n name) (drop (suc n) name)
]

unfoldable pub is_partition_topic : Text → Text × Bool
is_partition_topic name =
    let parts = split name b'-' in
    if matches_partition name
    then (join (take (length parts - 2) parts) (b'-' ∷ []), true)
    else ([], false)
