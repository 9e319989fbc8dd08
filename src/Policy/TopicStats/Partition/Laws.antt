-- ===== src/Policy/TopicStats/Partition/Laws.antt =====
-- `IsPartitionTopic` and the names that a partitioned topic's partitions have.
use burnell.Prelude.{
  ℕ, suc, ◌-◌, ◌≤◌, ◌≡◌, refl, ◌∙◌, true, false, List, [], ◌∷◌, ◌++◌, arith, length, take, drop,
  all, leb, append_assoc, take-append, take-same, length-append,
}
use burnell.Text.{Text, codes, split, contains_byte, is_digit}
use burnell.Text.Split.{Lacks, split-last, join-split}
use burnell.Text.Search.{last_index_byte-append}
use burnell.Text.Laws.{has_suffix-append}
use burnell.Policy.TopicStats.Partition.{
  starts_lower, matches_at, matches_partition, is_partition_topic,
}

abbrev partition_word : Text
partition_word = codes "partition"

digits-Lacks : (digits : Text) → all is_digit digits ≡ true → Lacks b'-' digits
digits-Lacks [] h = _
digits-Lacks (d ∷ digits) h = ground (arith, digits-Lacks digits)

-- A base name: it begins with a small letter, and has no newline.
abbrev pub IsBaseName : Text → Type 0
IsBaseName base = (starts_lower base ≡ true) × (contains_byte base 10 ≡ false)

-- One to five digits.
abbrev pub IsPartitionNumber : Text → Type 0
IsPartitionNumber digits = (all is_digit digits ≡ true) × (1 ≤ length digits) × (length digits ≤ 5)

abbrev stem : Text → Text
stem base = base ++ b'-' ∷ partition_word

take-stem : (base : Text) → take (length (stem base) - 10) (stem base) ≡ base
take-stem base =
    take-same (length (stem base) - 10) (length base) (stem base)
      (omega (arith, length-append base (b'-' ∷ partition_word)))
    ∙ take-append base (b'-' ∷ partition_word)

le→leb : (m n : ℕ) → m ≤ n → leb m n ≡ true
le→leb m n h = ground arith

matches_at-stem :
    (base digits : Text)
    → IsBaseName base
    → IsPartitionNumber digits
    → matches_at (stem base) digits ≡ true
unfolding matches_at
matches_at-stem base digits (lower, line) (ds, least, most) =
    rw
      (
        take-stem base,
        has_suffix-append base (codes "-partition"),
        lower,
        line,
        ds,
        le→leb 1 (length digits) least,
        le→leb (length digits) 5 most,
      )
      refl

drop-behind : (s : Text) (c : ℕ) (t : Text) → drop (suc (length s)) (s ++ c ∷ t) ≡ t
drop-behind [] c t = refl
drop-behind (d ∷ s) c t = drop-behind s c t

partition_word-Lacks : Lacks b'-' partition_word
partition_word-Lacks = omega arith

parts_of_stem :
    (base digits : Text)
    → Lacks b'-' digits
    → split (stem base ++ b'-' ∷ digits) b'-' ≡ split base b'-' ++ (partition_word ∷ digits ∷ [])
parts_of_stem base digits l =
    split-last (stem base) digits b'-' l
    ∙ rw (split-last base partition_word b'-' partition_word-Lacks)
        (append_assoc (split base b'-') (partition_word ∷ []) (digits ∷ []))

take-parts :
    (ps : List Text) (p q : Text) → take (length (ps ++ (p ∷ q ∷ [])) - 2) (ps ++ (p ∷ q ∷ [])) ≡ ps
take-parts ps p q =
    take-same (length (ps ++ (p ∷ q ∷ [])) - 2) (length ps) (ps ++ (p ∷ q ∷ []))
      (omega (arith, length-append ps (p ∷ q ∷ [])))
    ∙ take-append ps (p ∷ q ∷ [])

matches_partition-append :
    (u digits : Text)
    → Lacks b'-' digits
    → matches_partition (u ++ b'-' ∷ digits) ≡ matches_at u digits
unfolding matches_partition
matches_partition-append u digits l = ground (
  arith,
  last_index_byte-append u digits b'-' l,
  take-append u (b'-' ∷ digits),
  drop-behind u b'-' digits,
)

matches_partition-stem :
    (base digits : Text)
    → IsBaseName base
    → IsPartitionNumber digits
    → matches_partition (stem base ++ b'-' ∷ digits) ≡ true
matches_partition-stem base digits hb hd =
    matches_partition-append (stem base) digits (digits-Lacks digits hd.0)
    ∙ matches_at-stem base digits hb hd

-- A name of the form base, `-partition-` and one to five digits is a partition topic, of the base
-- name.
pub is_partition_topic-partition :
    (base digits : Text)
    → IsBaseName base
    → IsPartitionNumber digits
    → is_partition_topic ((base ++ codes "-partition") ++ b'-' ∷ digits) ≡ (base, true)
unfolding is_partition_topic
is_partition_topic-partition base digits hb hd =
    rw
      (
        parts_of_stem base digits (digits-Lacks digits hd.0),
        matches_partition-stem base digits hb hd,
        take-parts (split base b'-') partition_word digits,
        join-split base b'-',
      )
      refl
