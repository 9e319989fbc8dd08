-- ===== src/Policy/TopicStats/Worker.antt =====
-- src/policy/topic-stats.go: the table of topic statistics in go-memdb, and the worker that fills it.
-- `memdb.NewMemDB` is the argument `new_mem_db`.
use burnell.Prelude.{ℕ, Bool, true, false, List, [], ◌∷◌, Option}
use burnell.Prelude.Int.{ℤ, pos, ◌*ℤ◌, wrap}
use burnell.Text.{Text, codes}
use burnell.Util.{get_env_int}
use burnell.Policy.TopicStats.{TopicStats, Nested, brokers_stats_topic_query}

-- An index by the text of a field.
pub record StatsIndex (D : Type 0) : Type 0 where
  pub name : Text
  pub unique : Bool
  pub field : TopicStats D → Text

abbrev pub topic_stats_db_table : Text
topic_stats_db_table = codes "topic-stats"

-- The schema of `InitTopicStatsDB`.
abbrev pub topic_stats_schema : {D : Type 0} → List (StatsIndex D)
topic_stats_schema =
    record { name = codes "id"; unique = true; field = λ p. p.id }
    ∷ record { name = codes "tenant"; unique = false; field = λ p. p.tenant }
    ∷ record { name = codes "namespace"; unique = false; field = λ p. p.namespace }
    ∷ record { name = codes "topic"; unique = false; field = λ p. p.topic }
    ∷ []

unfoldable pub init_topic_stats_db :
    {D Db : Type 0} → (new_mem_db : Text → List (StatsIndex D) → Option Db) → Option Db
init_topic_stats_db new_mem_db = new_mem_db topic_stats_db_table topic_stats_schema

-- The interval of the worker's ticker in nanoseconds, of the value of `StatsPullIntervalSecond`.
unfoldable pub pull_interval : Text → ℤ
unfolding get_env_int
pull_interval env_value = wrap (get_env_int env_value (pos 9) *ℤ pos 1000000000)

-- `CacheTopicStatsWorker`: a query at once, and one more at each tick. A query has its time, what is
-- answered of single topics, and the answers of the brokers.
module _ {D Db : Type 0} (insert_row : TopicStats D → Db → Db) where
  unfoldable pub cache_topic_stats_worker :
      List (ℕ × (Text → Option D) × List (Option (Nested D))) → Db → Db
  unfolding brokers_stats_topic_query
  cache_topic_stats_worker [] db = db
  cache_topic_stats_worker ((now, stats_of, answers) ∷ ticks) db =
      cache_topic_stats_worker ticks (brokers_stats_topic_query insert_row now stats_of answers db)
