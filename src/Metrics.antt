-- ===== src/Metrics.antt =====
-- src/metrics/federated-prometheus.go: the usage of topics, tenants and namespaces, and the cache of
-- what was scraped. go-memdb's `Insert` is the argument `insert_row`, the rows of a tenant are an
-- argument of what sums them. Counters are `uint64`, times nanoseconds.
pub mod Totals
pub mod UsageDb
pub mod Federated
use burnell.Prelude.{
  ℕ, ◌+◌, ◌-◌, ◌%◌, ◌^◌, Bool, true, false, List, [], ◌∷◌, ◌++◌, map, Option, none, some,
  if◌then◌else◌, ltb,
}
use burnell.Text.{Text, codes, ◌==◌}
use burnell.Assoc.{lookup, insert}
use burnell.Util.{extract_parts_from_topic_fn}

pub record Usage : Type 0 where
  pub name : Text
  pub total_messages_in : ℕ
  pub total_bytes_in : ℕ
  pub total_messages_out : ℕ
  pub total_bytes_out : ℕ
  pub msg_in_backlog : ℕ
  pub updated_at : ℕ

pub record TopicPerBrokerUsage : Type 0 where
  pub id : Text
  pub tenant : Text
  pub namespace : Text
  pub topic : Text
  pub broker_instance : Text
  pub total_messages_in : ℕ
  pub total_bytes_in : ℕ
  pub total_messages_out : ℕ
  pub total_bytes_out : ℕ
  pub msg_in_backlog : ℕ
  pub updated_at : ℕ

pub record TenantPromMetrics : Type 0 where
  pub prom_data : Text
  pub update_time : ℕ

unfoldable pub set_cache :
    ℕ → Text → Text → List (Text × TenantPromMetrics) → List (Text × TenantPromMetrics)
set_cache now tenant prom_data cache =
    insert tenant (record { prom_data = prom_data; update_time = now }) cache

unfoldable pub get_cache : ℕ → Text → List (Text × TenantPromMetrics) → Option Text
get_cache now tenant cache = elim (lookup tenant cache) [
  | none ↦ none
  | some metrics ↦
      if ltb (now - metrics.update_time) 60000000000 then some metrics.prom_data else none
]

-- The row of a counter; `none` is a label that is no tenant's metric.
unfoldable pub with_counter : Text → ℕ → TopicPerBrokerUsage → Option TopicPerBrokerUsage
with_counter label counter p =
    if label == codes "pulsar_in_bytes_total"
    then some (record p { total_bytes_in = counter })
    else if label == codes "pulsar_in_messages_total"
    then some (record p { total_messages_in = counter })
    else if label == codes "pulsar_out_bytes_total"
    then some (record p { total_bytes_out = counter })
    else if label == codes "pulsar_out_messages_total"
    then some (record p { total_messages_out = counter })
    else if label == codes "pulsar_msg_backlog"
    then some (record p { msg_in_backlog = counter })
    else none

abbrev empty_row : ℕ → Text → Text → Text × Text × Text → TopicPerBrokerUsage
empty_row now broker label (tenant_name, namespace, topic_name) = record {
  id = tenant_name ++ (namespace ++ (topic_name ++ (broker ++ label)));
  tenant = tenant_name;
  namespace = namespace;
  topic = topic_name;
  broker_instance = broker;
  total_messages_in = 0;
  total_bytes_in = 0;
  total_messages_out = 0;
  total_bytes_out = 0;
  msg_in_backlog = 0;
  updated_at = now;
}

-- `UpdatePerBrokerTenantUsage`: the table and the known tenants; `none` is an error.
unfoldable pub update_per_broker_tenant_usage :
    {Db : Type 0}
    → (TopicPerBrokerUsage → Db → Db)
    → ℕ
    → Text
    → Text
    → Text
    → ℕ
    → Db × List (Text × Bool)
    → Option (Db × List (Text × Bool))
update_per_broker_tenant_usage insert_row now topic broker label counter (db, tenants) =
    elim (extract_parts_from_topic_fn topic) [
      | none ↦ none
      | some parts ↦ elim (with_counter label counter (empty_row now broker label parts)) [
        | none ↦ none
        | some per_broker_usage ↦
            some (insert_row per_broker_usage db, insert per_broker_usage.tenant true tenants)
      ]
    ]

abbrev pub add_uint64 : ℕ → ℕ → ℕ
add_uint64 a b = (a + b) % 2 ^ 64

-- The body of the loops over the rows.
unfoldable pub add_row : Usage → TopicPerBrokerUsage → Usage
add_row usage p = record usage {
  total_bytes_in = add_uint64 usage.total_bytes_in p.total_bytes_in;
  total_messages_in = add_uint64 usage.total_messages_in p.total_messages_in;
  total_bytes_out = add_uint64 usage.total_bytes_out p.total_bytes_out;
  total_messages_out = add_uint64 usage.total_messages_out p.total_messages_out;
  msg_in_backlog = add_uint64 usage.msg_in_backlog p.msg_in_backlog;
}

unfoldable pub add_rows : Usage → List TopicPerBrokerUsage → Usage
add_rows usage [] = usage
add_rows usage (p ∷ rows) = add_rows (add_row usage p) rows

abbrev pub no_usage : Text → ℕ → Usage
no_usage name now = record {
  name = name;
  total_messages_in = 0;
  total_bytes_in = 0;
  total_messages_out = 0;
  total_bytes_out = 0;
  msg_in_backlog = 0;
  updated_at = now;
}

-- `GetTenantUsage`
unfoldable pub get_tenant_usage : ℕ → Text → List TopicPerBrokerUsage → Usage
get_tenant_usage now tenant rows = add_rows (no_usage tenant now) rows

abbrev or_no_usage : ℕ → Text → Option Usage → Usage
or_no_usage now key none = no_usage key now
or_no_usage now key (some usage) = usage

-- The loop of `GetTenantNamespacesUsage` over the usages by tenant and namespace.
unfoldable pub add_namespaces :
    ℕ → Text → List (Text × Usage) → List TopicPerBrokerUsage → List (Text × Usage)
add_namespaces now tenant tnamespaces [] = tnamespaces
add_namespaces now tenant tnamespaces (p ∷ rows) =
    let key = tenant ++ (codes "/" ++ p.namespace) in
    add_namespaces now tenant
      (insert key (add_row (or_no_usage now key (lookup key tnamespaces)) p) tnamespaces) rows

unfoldable pub get_tenant_namespaces_usage : ℕ → Text → List TopicPerBrokerUsage → List Usage
get_tenant_namespaces_usage now tenant rows =
    map (λ entry. entry.1) (add_namespaces now tenant [] rows)
