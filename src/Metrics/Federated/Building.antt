-- ===== src/Metrics/Federated/Building.antt =====
-- What `BuildTenantUsage` makes of the parsed metrics: the rows that it inserts, and the usage that
-- `GetTenantUsage` then finds.
use burnell.Prelude.{
  ℕ, ◌%◌, ◌^◌, ◌≡◌, Bool, true, false, List, [], ◌∷◌, ◌++◌, Option, none, some, if◌then◌else◌, All,
}
use burnell.Text.{Text, codes, ◌==◌}
use burnell.Assoc.{lookup, insert}
use burnell.Util.{extract_parts_from_topic_fn}
use burnell.Result.{Result}
use burnell.Metrics.{TopicPerBrokerUsage, Usage, empty_row, with_counter}
use burnell.Metrics.Totals.{sum_of}
use burnell.Metrics.UsageDb.{MemDb, Inserts}
use burnell.Metrics.Federated.{Metric, counter_value, label_value, tenant_metric_names}

-- The row of a metric; `none` where its topic is no topic's name, or its label no counter's.
row_of : ℕ → Text → Metric → Option TopicPerBrokerUsage
row_of now label entry =
    elim (extract_parts_from_topic_fn (label_value (codes "topic") [] entry.labels)) [
      | none ↦ none
      | some parts ↦
          with_counter label (counter_value entry.untyped)
            (empty_row now (label_value (codes "kubernetes_pod_name") [] entry.labels) label parts)
    ]

abbrev or_no_row : Option TopicPerBrokerUsage → List TopicPerBrokerUsage → List TopicPerBrokerUsage
or_no_row none rows = rows
or_no_row (some p) rows = p ∷ rows

metric_rows : ℕ → Text → List Metric → List TopicPerBrokerUsage
metric_rows now label [] = []
metric_rows now label (entry ∷ entries) =
    or_no_row (row_of now label entry) (metric_rows now label entries)

-- The rows of the families whose label is one of the five of a tenant's metrics.
unfoldable pub usage_rows : ℕ → List (Text × List Metric) → List TopicPerBrokerUsage
unfolding metric_rows row_of
usage_rows now [] = []
usage_rows now ((label, entries) ∷ families) = elim (lookup label tenant_metric_names) [
  | none ↦ usage_rows now families
  | some known ↦ metric_rows now label entries ++ usage_rows now families
]

module _ {Db : Type 0} (memdb : MemDb Db) (now : ℕ) where
  insert_all : List TopicPerBrokerUsage → Db → Db
  insert_all [] db = db
  insert_all (p ∷ rows) db = insert_all rows (memdb.insert p db)

  abbrev Usages : Type 0
  Usages = Db × List (Text × Bool)

  abbrev with_row : Usages → Option TopicPerBrokerUsage → Option Usages
  with_row s none = none
  with_row (db, tenants) (some p) = some (memdb.insert p db, insert p.tenant true tenants)

-- No two rows have the same id.
abbrev pub DistinctIds : List TopicPerBrokerUsage → Type 0
DistinctIds [] = Unit {0}
DistinctIds (p ∷ rows) = All (λ q. (p.id == q.id) ≡ false) rows × DistinctIds rows

abbrev pub of_tenant : (TopicPerBrokerUsage → ℕ) → Text → TopicPerBrokerUsage → ℕ
of_tenant counter tenant p = if p.tenant == tenant then counter p else 0

-- Each of the five counters is the sum over the rows of the tenant, modulo 2 ^ 64.
abbrev pub IsTotal : Usage → Text → List TopicPerBrokerUsage → Type 0
IsTotal usage tenant rows =
    (usage.total_bytes_in ≡ sum_of (of_tenant (λ p. p.total_bytes_in) tenant) rows % 2 ^ 64)
    × (usage.total_messages_in ≡ sum_of (of_tenant (λ p. p.total_messages_in) tenant) rows % 2 ^ 64)
    × (usage.total_bytes_out ≡ sum_of (of_tenant (λ p. p.total_bytes_out) tenant) rows % 2 ^ 64)
    × (usage.total_messages_out
        ≡ sum_of (of_tenant (λ p. p.total_messages_out) tenant) rows % 2 ^ 64)
    × (usage.msg_in_backlog ≡ sum_of (of_tenant (λ p. p.msg_in_backlog) tenant) rows % 2 ^ 64)

module _ {Db : Type 0} (memdb : MemDb Db) (inserts : Inserts memdb) (now : ℕ) where
  abbrev IsNew : Db → TopicPerBrokerUsage → Type 0
  IsNew db p = memdb.get (codes "id") p.id db ≡ []
