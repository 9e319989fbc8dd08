-- ===== src/Metrics/UsageDb.antt =====
-- src/metrics/federated-prometheus.go: the table of usages in go-memdb, and when it is built. The
-- database is the argument `MemDb`.
use burnell.Prelude.{
  ℕ, ◌+◌, ◌≡◌, ◌≢◌, All, refl, Bool, true, false, not, ◌&&◌, List, [], ◌∷◌, Option, none, some,
  if◌then◌else◌, arith, Bool-cases, inl, inr, ap, sym, ◌∙◌,
}
use burnell.Prelude.Int.{ℤ, pos, ◌*ℤ◌, wrap}
use burnell.Text.{Text, codes, ◌==◌}
use burnell.Text.Laws.{eq_iff}
use burnell.Metrics.{TopicPerBrokerUsage}
use burnell.Metrics.Totals.{sum_of}

-- An index by the text of a field.
pub record IndexSchema : Type 0 where
  pub name : Text
  pub unique : Bool
  pub field : TopicPerBrokerUsage → Text

abbrev pub usage_db_table : Text
usage_db_table = codes "topic-usage"

-- The schema of `InitUsageDbTable`.
abbrev pub usage_schema : List IndexSchema
usage_schema =
    record { name = codes "id"; unique = true; field = λ p. p.id }
    ∷ record { name = codes "tenant"; unique = false; field = λ p. p.tenant }
    ∷ record { name = codes "namespace"; unique = false; field = λ p. p.namespace }
    ∷ record { name = codes "topic"; unique = false; field = λ p. p.topic }
    ∷ []

-- A database with one table, by the schema of its indexes.
pub record MemDb (Db : Type 0) : Type 0 where
  pub new_mem_db : Text → List IndexSchema → Option Db
  pub insert : TopicPerBrokerUsage → Db → Db
  pub get : Text → Text → Db → List TopicPerBrokerUsage

unfoldable pub init_usage_db_table : {Db : Type 0} → MemDb Db → Option Db
init_usage_db_table memdb = memdb.new_mem_db usage_db_table usage_schema

-- `Init`: the first interval of the ticker in nanoseconds, where the usages are built at all.
unfoldable pub init : Text → Bool → ℤ → Option ℤ
init url is_stats_mode scrape_seconds =
    let interval = wrap (scrape_seconds *ℤ pos 1000000000) in
    if not (url == []) && is_stats_mode then some (wrap (pos 5 *ℤ interval)) else none

-- A row with a text for each index, which go-memdb asks for unless an index allows that it is missing.
abbrev pub IsComplete : TopicPerBrokerUsage → Type 0
IsComplete p = All (λ index. index.field p ≢ []) usage_schema

-- go-memdb: a table that was just made has no rows; a complete row whose unique id is new is found by
-- its id, and is one more of the rows of its tenant, in whatever order, so that every sum over these
-- grows by the row.
pub record Inserts {Db : Type 0} (memdb : MemDb Db) : Type 0 where
  pub get-new :
      (db : Db) (index value : Text)
      → memdb.new_mem_db usage_db_table usage_schema ≡ some db
      → memdb.get index value db ≡ []
  pub id-insert :
      (p : TopicPerBrokerUsage) (id : Text) (db : Db)
      → IsComplete p
      → memdb.get (codes "id") p.id db ≡ []
      → memdb.get (codes "id") id (memdb.insert p db)
        ≡ (if p.id == id then p ∷ [] else memdb.get (codes "id") id db)
  pub tenant-insert :
      (counter : TopicPerBrokerUsage → ℕ) (p : TopicPerBrokerUsage) (tenant : Text) (db : Db)
      → IsComplete p
      → memdb.get (codes "id") p.id db ≡ []
      → sum_of counter (memdb.get (codes "tenant") tenant (memdb.insert p db))
        ≡ (if p.tenant == tenant then counter p else 0)
          + sum_of counter (memdb.get (codes "tenant") tenant db)

-- A table in memory: the rows, the latest first.
abbrev field_of : Text → TopicPerBrokerUsage → Text
field_of index p =
    if index == codes "id"
    then p.id
    else if index == codes "tenant"
    then p.tenant
    else if index == codes "namespace"
    then p.namespace
    else p.topic

abbrev rows_with :
    (TopicPerBrokerUsage → Text) → Text → List TopicPerBrokerUsage → List TopicPerBrokerUsage
rows_with field value [] = []
rows_with field value (p ∷ rows) =
    let rest = rows_with field value rows in if field p == value then p ∷ rest else rest

abbrev pub memory_db : MemDb (List TopicPerBrokerUsage)
memory_db = record {
  new_mem_db = λ table schema. some [];
  insert = λ p rows. p ∷ rows;
  get = λ index value rows. rows_with (field_of index) value rows;
}

memory-id :
    (p : TopicPerBrokerUsage) (id : Text) (rows : List TopicPerBrokerUsage)
    → rows_with (λ q. q.id) p.id rows ≡ []
    → rows_with (λ q. q.id) id (p ∷ rows)
      ≡ (if p.id == id then p ∷ [] else rows_with (λ q. q.id) id rows)
memory-id p id rows fresh = elim (Bool-cases (p.id == id)) [
  | inl e ↦ rw e (
      ap (λ l. p ∷ l) (ap (λ k. rows_with (λ q. q.id) k rows) (sym ((eq_iff p.id id).0 e)) ∙ fresh))
  | inr e ↦ rw e refl
]

memory-tenant :
    (counter : TopicPerBrokerUsage → ℕ) (p : TopicPerBrokerUsage) (tenant : Text)
    (rows : List TopicPerBrokerUsage)
    → sum_of counter (rows_with (λ q. q.tenant) tenant (p ∷ rows))
      ≡ (if p.tenant == tenant then counter p else 0)
        + sum_of counter (rows_with (λ q. q.tenant) tenant rows)
unfolding sum_of
memory-tenant counter p tenant rows = ground arith

empty_table :
    (index value : Text) (db : List TopicPerBrokerUsage)
    → memory_db.new_mem_db usage_db_table usage_schema ≡ some db
    → memory_db.get index value db ≡ []
empty_table index value [] e = refl
empty_table index value (p ∷ db) e = cc

pub memory_db-Inserts : Inserts memory_db
unfolding ◌==◌
memory_db-Inserts = record {
  get-new = λ db index value e. empty_table index value db e;
  id-insert = λ p id db complete fresh. memory-id p id db fresh;
  tenant-insert = λ counter p tenant db complete fresh. memory-tenant counter p tenant db;
}
