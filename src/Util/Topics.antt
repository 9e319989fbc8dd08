-- ===== src/Util/Topics.antt =====
-- Topic names: `ExtractPartsFromTopicFn` and `ParsePartitionTopicName` against the names that
-- Pulsar forms.
use burnell.Prelude.{
  ◌≡◌, refl, if◌then◌else◌, append-nil, All-append, Bool, true, false, [], ◌∷◌, ◌++◌, none, some,
  arith,
}
use burnell.Text.{Text, codes, split, split_on, cut}
use burnell.Text.Split.{Lacks, split-append, split-Lacks}
use burnell.Text.Laws.{split_on-once, has_prefix-append, replace_first-append}
use burnell.Util.{extract_parts_from_topic_fn, parse_partition_topic_name, partition_prefix}

-- A name behind the partition prefix is taken back, whatever the name.
pub parse_partition-prefix :
    (name : Text) → parse_partition_topic_name (partition_prefix ++ name) ≡ (name, true)
unfolding parse_partition_topic_name
parse_partition-prefix name = ground (
  arith,
  has_prefix-append partition_prefix name,
  replace_first-append partition_prefix name [] (cc),
  append-nil name,
)

cut-Lacks : (s : Text) → Lacks b':' s → cut s (codes "://") ≡ none
unfolding cut
cut-Lacks [] h = refl
cut-Lacks (c ∷ s) h = ground (arith, cut-Lacks s h.1)

-- The part of a topic's name behind its scheme.
abbrev path_of : Text → Text → Text → Text
path_of tenant namespace topic = tenant ++ b'/' ∷ (namespace ++ b'/' ∷ topic)

split_path :
    (t n x : Text)
    → Lacks b'/' t
    → Lacks b'/' n
    → Lacks b'/' x
    → split (path_of t n x) b'/' ≡ t ∷ n ∷ x ∷ []
split_path t n x ht hn hx = rw (
  split-append t (n ++ b'/' ∷ x) b'/',
  split-Lacks t b'/' ht,
  split-append n x b'/',
  split-Lacks n b'/' hn,
  split-Lacks x b'/' hx,
)

abbrev scheme : Bool → Text
scheme is_persistent = if is_persistent then codes "persistent" else codes "non-persistent"

-- The name of a topic of either kind.
abbrev pub topic_name : Bool → Text → Text → Text → Text
topic_name is_persistent tenant namespace topic =
    scheme is_persistent ++ codes "://" ++ path_of tenant namespace topic

cut-scheme :
    (is_persistent : Bool) (rest : Text)
    → cut (scheme is_persistent ++ codes "://" ++ rest) (codes "://")
      ≡ some (scheme is_persistent, rest)
unfolding cut
cut-scheme true rest = refl
cut-scheme false rest = refl

-- A part of a name that Pulsar accepts: no separator of names in it.
abbrev pub IsPart : Text → Type 0
IsPart s = Lacks b'/' s × Lacks b':' s

path_of-Lacks : (t n x : Text) → IsPart t → IsPart n → IsPart x → Lacks b':' (path_of t n x)
path_of-Lacks t n x (_, ht) (_, hn) (_, hx) =
    All-append _ t _ ht (omega arith, All-append _ n _ hn (omega arith, hx))

split_topic_name :
    (is_persistent : Bool) (t n x : Text)
    → IsPart t
    → IsPart n
    → IsPart x
    → split_on (topic_name is_persistent t n x) (codes "://")
      ≡ scheme is_persistent ∷ path_of t n x ∷ []
split_topic_name b t n x ht hn hx =
    split_on-once _ (codes "://") (scheme b) (path_of t n x) (cut-scheme b _)
      (cut-Lacks _ (path_of-Lacks t n x ht hn hx))

-- The name of a persistent or of a non-persistent topic whose three parts hold no slash and no
-- colon is taken apart into these parts.
extract_parts-topic_name :
    (is_persistent : Bool) (t n x : Text)
    → IsPart t
    → IsPart n
    → IsPart x
    → extract_parts_from_topic_fn (topic_name is_persistent t n x) ≡ some (t, n, x)
unfolding extract_parts_from_topic_fn
extract_parts-topic_name true t n x ht hn hx =
    rw (split_topic_name true t n x ht hn hx, split_path t n x ht.0 hn.0 hx.0)
extract_parts-topic_name false t n x ht hn hx =
    rw (split_topic_name false t n x ht hn hx, split_path t n x ht.0 hn.0 hx.0)

extract_tests :
    (extract_parts_from_topic_fn (codes "persistent://t/n/x")
      ≡ some (codes "t", codes "n", codes "x"))
    × (extract_parts_from_topic_fn (codes "t/n/x") ≡ none)
unfolding extract_parts_from_topic_fn split_on split
extract_tests = (refl, refl)
