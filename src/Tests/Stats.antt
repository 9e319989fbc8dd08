-- ===== src/Tests/Stats.antt =====
-- Tests of the topic statistics.
use burnell.Prelude.{◌≡◌, refl, true, false, [], ◌∷◌, List}
use burnell.Text.{Text, codes, split, join, contains_byte, last_index_byte, has_suffix, has_prefix}
use burnell.Policy.TopicStats.{TopicStats}
use burnell.Policy.TopicStats.Partition.{is_partition_topic, matches_partition, matches_at}
use burnell.Policy.AdminApi.{Fetched, answered}

abbrev rows : List (TopicStats Text)
rows =
    record {
      id = codes "b";
      tenant = codes "t";
      namespace = codes "t/n";
      topic = [];
      stats_data = [];
      updated_at = 5;
    }
    ∷ record {
      id = codes "a";
      tenant = codes "t";
      namespace = codes "t/n";
      topic = [];
      stats_data = [];
      updated_at = 7;
    }
    ∷ []

abbrev two_keys : List Text
two_keys = codes "b" ∷ codes "a" ∷ []

abbrev no_topics : List (Text × Text)
no_topics = []

partition_tests :
    (is_partition_topic (codes "persistent://t/n/a-b-partition-12")
      ≡ (codes "persistent://t/n/a-b", true))
    × (is_partition_topic (codes "persistent://t/n/a-partition-") ≡ ([], false))
    × (is_partition_topic (codes "persistent://t/n/a-partition-123456") ≡ ([], false))
    × (is_partition_topic (codes "-partition-1") ≡ ([], false))
unfolding is_partition_topic matches_partition matches_at split join contains_byte last_index_byte
    has_suffix has_prefix
partition_tests = (refl, refl, refl, refl)

no_newline : contains_byte (codes "persistent://t/n/a") 10 ≡ false
unfolding contains_byte
no_newline = refl

-- A broker whose whole answer is its address.
abbrev at_brokers : Text → Fetched
at_brokers url = answered 200 url
