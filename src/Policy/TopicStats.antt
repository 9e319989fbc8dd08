-- ===== src/Policy/TopicStats.antt =====
-- src/policy/topic-stats.go: the table of topic statistics, and what is asked of it. go-memdb is the
-- arguments `insert_row` and `by_tenant`; a GET request is the argument `fetch`, which takes its URL
-- and has no result on an error. Times are nanoseconds, `now` is the time of the call.
pub mod Partition
pub mod Page
pub mod Brokers
pub mod Laws
pub mod Worker
use burnell.Prelude.{
  ℕ, ◌-◌, ◌+◌, Bool, true, false, List, [], ◌∷◌, ◌++◌, Option, none, some, ltb, if◌then◌else◌,
  length,
}
use burnell.Prelude.Int.{ℤ, pos, negsuc}
use burnell.Text.{Text, codes, has_prefix, split}
use burnell.Assoc.{lookup, insert}
use burnell.Util.{
  extract_parts_from_topic_fn, condition_assign, single_join_slash, partition_prefix,
  parse_partition_topic_name,
}
use burnell.Result.{Result, ok}
use burnell.Policy.TopicStats.Page.{page}
use burnell.Policy.TopicStats.Partition.{is_partition_topic}

pub record TopicStats (D : Type 0) : Type 0 where
  pub id : Text
  pub tenant : Text
  pub namespace : Text
  pub topic : Text
  pub stats_data : D
  pub updated_at : ℕ

abbrev pub across_namespaces : Text
across_namespaces = codes "partition topics across namespaces"

-- `time.Since(topicInfo.UpdatedAt) < 90*time.Second`
unfoldable pub is_fresh : {D : Type 0} → ℕ → TopicStats D → Bool
is_fresh now p = ltb (now - p.updated_at) 90000000000

-- The loop over the tenant's rows in `PaginateTopicStats`: the keys and the topics by them. What it
-- deletes it deletes in a transaction that it aborts.
unfoldable pub fresh_topics :
    {D : Type 0}
    → ℕ
    → List (TopicStats D)
    → List Text × List (Text × D)
    → List Text × List (Text × D)
fresh_topics now [] state = state
fresh_topics now (p ∷ rows) (keys, all_topics) = fresh_topics now rows (
    if is_fresh now p
    then (keys ++ p.id ∷ [], insert p.id p.stats_data all_topics)
    else (keys, all_topics))

abbrev pub append_to : Text → List (Text × List Text) → Text → List (Text × List Text)
append_to namespace namespaces id = elim (lookup namespace namespaces) [
  | some topics ↦ insert namespace (topics ++ id ∷ []) namespaces
  | none ↦ insert namespace (id ∷ []) namespaces
]

unfoldable pub count_from :
    {D : Type 0} → ℕ → List (Text × List Text) → List (TopicStats D) → List (Text × List Text)
count_from now namespaces [] = namespaces
count_from now namespaces (p ∷ rows) =
    count_from now (if is_fresh now p then append_to p.namespace namespaces p.id else namespaces)
      rows

-- `CountTopics`, of the rows that the tenant's index has.
unfoldable pub count_topics :
    {D : Type 0} → ℕ → Option (List (TopicStats D)) → List (Text × List Text) × ℤ
count_topics now none = ([], negsuc 0)
count_topics now (some rows) = (count_from now [] rows, pos (length rows))

abbrev stats_paths : Text → Bool → Text × Text × Text → Text
stats_paths topic_fullname is_partition_topic (tenant, ns, topic) =
    codes "admin/v2/"
    ++ (condition_assign (has_prefix topic_fullname (codes "persistent://")) (codes "persistent/")
          (codes "non-persistent/")
        ++ (tenant
            ++ (codes "/"
                ++ (ns
                    ++ (codes "/"
                        ++ (topic
                            ++ condition_assign is_partition_topic (codes "/partitioned-stats")
                                (codes "/stats")))))))

unfoldable pub get_single_topic_stats :
    {D : Type 0} → (fetch : Text → Option D) → Text → Text → Bool → Option D
get_single_topic_stats fetch broker_url topic_fullname is_partition_topic =
    elim (extract_parts_from_topic_fn topic_fullname) [
      | none ↦ none
      | some parts ↦
          fetch (single_join_slash broker_url (stats_paths topic_fullname is_partition_topic parts))
    ]

-- A broker's answer: namespaces, bundles and kinds of topic by their names, then topics.
abbrev pub Nested : Type 0 → Type 0
Nested D = List (Text × List (Text × List (Text × List (Text × D))))

abbrev head_of : List Text → Text
head_of [] = []
head_of (part ∷ parts) = part

module _ {D Db : Type 0} (insert_row : TopicStats D → Db → Db) (now : ℕ) where
  -- The loops over a broker's answer, with the partition topics by tenant. From the inside out:
  -- topics, kinds of topic, bundles, namespaces.
  unfoldable pub store_topics :
      Text → List (Text × D) → Db × List (Text × Text) → Db × List (Text × Text)
  store_topics k [] state = state
  store_topics k ((topic_fn, v4) ∷ topics) (db, names) =
      let tenant = head_of (split k b'/') in
      let (partition_name, is_partition) = is_partition_topic topic_fn in
      store_topics k topics (
        insert_row
            (record {
              id = topic_fn;
              tenant = tenant;
              namespace = k;
              topic = [];
              stats_data = v4;
              updated_at = now;
            })
            db,
        if is_partition then insert tenant partition_name names else names,
      )

  unfoldable pub store_kinds :
      Text → List (Text × List (Text × D)) → Db × List (Text × Text) → Db × List (Text × Text)
  store_kinds k [] state = state
  store_kinds k ((persistent_key, v3) ∷ kinds) state = store_kinds k kinds (store_topics k v3 state)

  unfoldable pub store_bundles :
      Text
      → List (Text × List (Text × List (Text × D)))
      → Db × List (Text × Text)
      → Db × List (Text × Text)
  store_bundles k [] state = state
  store_bundles k ((bundle_key, v2) ∷ bundles) state =
      store_bundles k bundles (store_kinds k v2 state)

  unfoldable pub store_namespaces : Nested D → Db × List (Text × Text) → Db × List (Text × Text)
  store_namespaces [] state = state
  store_namespaces ((k, v) ∷ result) state = store_namespaces result (store_bundles k v state)

  -- The loop over the partition topics of both functions below.
  unfoldable pub store_partitions : (Text → Option D) → List (Text × Text) → Db → Db
  store_partitions stats_of [] db = db
  store_partitions stats_of ((tenant_key, name) ∷ names) db =
      store_partitions stats_of names (elim (stats_of name) [
        | none ↦ db
        | some stats_data ↦
            insert_row
              (record {
                id = partition_prefix ++ name;
                tenant = tenant_key;
                namespace = across_namespaces;
                topic = [];
                stats_data = stats_data;
                updated_at = now;
              })
              db
      ])

  -- `brokerStatsTopicsQuery` of an answer; a request without one adds nothing.
  unfoldable pub broker_stats_topics_query :
      (Text → Option D) → Option (Nested D) → Db → Db × List (Text × Text)
  broker_stats_topics_query stats_of none db = (db, [])
  broker_stats_topics_query stats_of (some result) db =
      let (stored, names) = store_namespaces result (db, []) in
      (store_partitions stats_of names stored, names)

  abbrev merge_names : List (Text × Text) → List (Text × Text) → List (Text × Text)
  merge_names [] names = names
  merge_names ((k, v) ∷ topics) names = merge_names topics (insert k v names)

  -- `brokersStatsTopicQuery` over the answers of the brokers.
  unfoldable pub query_brokers :
      (Text → Option D)
      → List (Option (Nested D))
      → Db × List (Text × Text)
      → Db × List (Text × Text)
  query_brokers stats_of [] state = state
  query_brokers stats_of (answer ∷ answers) (db, names) =
      let (stored, topics) = broker_stats_topics_query stats_of answer db in
      query_brokers stats_of answers (stored, merge_names topics names)

  unfoldable pub brokers_stats_topic_query : (Text → Option D) → List (Option (Nested D)) → Db → Db
  brokers_stats_topic_query stats_of answers db =
      let (stored, names) = query_brokers stats_of answers (db, []) in
      store_partitions stats_of names stored

  -- The loop over the mandatory topics in `PaginateTopicStats`.
  abbrev namespace_of : Text → Text → Text
  namespace_of tenant t_name = elim (extract_parts_from_topic_fn t_name) [
    | none ↦ []
    | some (owner, namespace, topic) ↦ tenant ++ (codes "/" ++ namespace)
  ]

  -- The body of the loop for a topic that is missing.
  unfoldable pub store_missing : (Text → Bool → Option D) → Text → Text → Db → Db
  store_missing stats_of tenant name db =
      let (t_name, is_partitioned) = parse_partition_topic_name name in
      elim (stats_of t_name is_partitioned) [
        | none ↦ db
        | some stats_data ↦
            insert_row
              (record {
                id = partition_prefix ++ name;
                tenant = tenant;
                namespace =
                    condition_assign is_partitioned across_namespaces (namespace_of tenant t_name);
                topic = [];
                stats_data = stats_data;
                updated_at = now;
              })
              db
      ]

  unfoldable pub store_mandatory :
      (Text → Bool → Option D) → Text → List (Text × D) → List Text → Db → Db
  store_mandatory stats_of tenant all_topics [] db = db
  store_mandatory stats_of tenant all_topics (name ∷ mandatory) db = elim (lookup name all_topics) [
    | some stats_data ↦ store_mandatory stats_of tenant all_topics mandatory db
    | none ↦
        store_mandatory stats_of tenant all_topics mandatory (store_missing stats_of tenant name db)
  ]

-- `PaginateTopicStats`: the table it leaves, and its answer. The mandatory topics are stored, and
-- not part of the answer.
module _ {D Db : Type 0} (insert_row : TopicStats D → Db → Db)
    (by_tenant : Db → Text → Option (List (TopicStats D))) (stats_of : Text → Bool → Option D)
    (no_data : D) where
  unfoldable pub paginate_topic_stats :
      ℕ → Text → ℤ → ℤ → List Text → Db → Db × Result (ℤ × ℤ × List (Text × D))
  paginate_topic_stats now tenant offset page_size mandatory_topics db =
      elim (by_tenant db tenant) [
        | none ↦ (db, ok (negsuc 0, negsuc 0, []))
        | some rows ↦
            let (keys, all_topics) = fresh_topics now rows ([], []) in
            (
              store_mandatory insert_row now stats_of tenant all_topics mandatory_topics db,
              page no_data all_topics keys offset page_size,
            )
      ]
