-- ===== src/Metrics/Federated.antt =====
-- src/metrics/federated-prometheus.go: scraping, and what is made of the text that was scraped. The
-- package regexp is the argument `match_string`, expfmt's parser the argument `parse`, and
-- `scrapeJob` the argument `scrape`, which returns the body or an error. A sample is a
-- `Float64`.
pub mod Filtering
pub mod Caching
pub mod Building
use burnell.Prelude.{
  ℕ, suc, ◌*◌, ◌/◌, ◌^◌, Bool, true, false, not, ◌&&◌, List, [], ◌∷◌, ◌++◌, map, reverse, Option,
  none, some, if◌then◌else◌, ltb, nat_eq, length,
}
use burnell.Text.{Text, codes, ◌==◌, split}
use burnell.Result.{Result, ok, err, panic}
use burnell.Assoc.{lookup}
use burnell.LogClient.Request.{itoa}
use burnell.Prelude.Int.{ℤ, pos, negsuc}
use burnell.Policy.AdminApi.{Fetched, answered, not_answered}
use burnell.Metrics.{
  TopicPerBrokerUsage, Usage, TenantPromMetrics, get_cache, set_cache, get_tenant_usage,
  update_per_broker_tenant_usage,
}

-- `bufio.Scanner` over lines: a text that ends with a newline has no further line, a line loses the
-- carriage return at its end, and the scan stops at a line that does not fit the buffer.
abbrev pub max_scan_token_size : ℕ
max_scan_token_size = 64 * 1024

abbrev chomp : Text → Text
chomp [] = []
chomp (c ∷ s) = if nat_eq c 13 then reverse s else reverse (c ∷ s)

abbrev pub drop_cr : Text → Text
drop_cr s = chomp (reverse s)

unfoldable pub scan_pieces : List Text → List Text
scan_pieces [] = []
scan_pieces ([] ∷ []) = []
scan_pieces (piece ∷ pieces) =
    let rest = scan_pieces pieces in
    if ltb (length piece) max_scan_token_size then drop_cr piece ∷ rest else []

unfoldable pub scan_lines : Text → List Text
scan_lines text = scan_pieces (split text 10)

abbrev pub type_def_pattern : Text
type_def_pattern = codes "^# TYPE .*"

abbrev pub namespace_pattern : Text → Text
namespace_pattern subject = codes ".*,namespace=\"" ++ (subject ++ codes ".*")

-- `none` is a pattern that is no regular expression, the error of `regexp.MatchString`.
abbrev matched : Option Bool → Bool
matched none = false
matched (some b) = b

-- The type definition in front of the line, where one is waiting.
abbrev with_type_def : Text → Text → List Text → List Text
with_type_def [] text rest = text ∷ rest
with_type_def (c ∷ type_def) text rest = (c ∷ type_def) ∷ text ∷ rest

module _ (match_string : Text → Text → Option Bool) (subject : Text) where
  abbrev pub is_type_def : Text → Bool
  is_type_def text = matched (match_string type_def_pattern text)

  abbrev pub is_of_subject : Text → Bool
  is_of_subject text = matched (match_string (namespace_pattern subject) text)

  -- The loop of `FilterFederatedMetrics`: the lines that it writes.
  unfoldable pub filter_lines : Text → List Text → List Text
  filter_lines type_def [] = []
  filter_lines type_def (text ∷ texts) =
      let with_new_type = filter_lines text texts in
      let written = filter_lines [] texts in
      let passed_over = filter_lines type_def texts in
      if is_type_def text
      then with_new_type
      else if is_of_subject text
      then with_type_def type_def text written
      else passed_over

  abbrev write_lines : List Text → Text
  write_lines [] = []
  write_lines (line ∷ lines) = line ++ (10 ∷ write_lines lines)

  unfoldable pub filter_federated_metrics : Text → Text
  filter_federated_metrics byte_data = write_lines (filter_lines [] (scan_lines byte_data))

abbrev pub super_role : Text
super_role = codes "SuperRole"

unfoldable pub scrape_url : Text → Text → Text
scrape_url base_url tenant =
    if tenant == super_role
    then base_url ++ codes "/?match[]={job=~\"broker.*\"}"
    else base_url ++ (codes "/?match[]={namespace=~\"" ++ (tenant ++ codes "/.*\"}"))

abbrev cached_result :
    ℕ
    → Text
    → List (Text × TenantPromMetrics)
    → Result Text
    → List (Text × TenantPromMetrics) × Result Text
cached_result now tenant cache (ok scraped) = (set_cache now tenant scraped cache, ok scraped)
cached_result now tenant cache (err message) = (cache, err message)
cached_result now tenant cache panic = (cache, panic)

unfoldable pub get_tenant_prom_metrics :
    (scrape : Text → Result Text)
    → Text
    → ℕ
    → Text
    → List (Text × TenantPromMetrics)
    → List (Text × TenantPromMetrics) × Result Text
get_tenant_prom_metrics scrape base_url now tenant cache = elim (get_cache now tenant cache) [
  | some prom_data ↦ (cache, ok prom_data)
  | none ↦ cached_result now tenant cache (scrape (scrape_url base_url tenant))
]

abbrev pub tenant_metric_names : List (Text × Bool)
tenant_metric_names =
    (codes "pulsar_in_bytes_total", true)
    ∷ (codes "pulsar_in_messages_total", true)
    ∷ (codes "pulsar_out_bytes_total", true)
    ∷ (codes "pulsar_out_messages_total", true)
    ∷ (codes "pulsar_msg_backlog", true)
    ∷ []

-- The value of a sample. `binary s e` is `s` times 2 to the power `e`, below 2 ^ 64; `outside` is any
-- other value, with what the platform converts it to.
pub data Float64 : Type 0 where
  binary : (significand : ℕ) (exponent : ℤ) → Float64
  outside : (converted : ℕ) → Float64

-- The conversion `uint64(x)`, which drops the fraction.
unfoldable pub uint64 : Float64 → ℕ
uint64 (binary significand (pos e)) = significand * 2 ^ e
uint64 (binary significand (negsuc e)) = significand / 2 ^ suc e
uint64 (outside converted) = converted

-- `uint64(entry.GetUntyped().GetValue())`: a sample of a typed family has no untyped value, whose
-- value is read as 0.
unfoldable pub counter_value : Option Float64 → ℕ
unfolding uint64
counter_value none = 0
counter_value (some v) = uint64 v

-- A metric: its labels by name, and the value of an untyped sample.
pub record Metric : Type 0 where
  pub labels : List (Text × Text)
  pub untyped : Option Float64

-- The last label with the name, or the empty text.
unfoldable pub label_value : Text → Text → List (Text × Text) → Text
label_value name value [] = value
label_value name value ((n, v) ∷ labels) =
    let found = label_value name v labels in
    let passed_over = label_value name value labels in if n == name then found else passed_over

module _ {Db : Type 0} (insert_row : TopicPerBrokerUsage → Db → Db) (now : ℕ) where
  abbrev State : Type 0
  State = Db × List (Text × Bool)

  -- What fails for a metric is dropped.
  abbrev kept : State → Option State → State
  kept s none = s
  kept s (some s') = s'

  unfoldable pub add_metrics : Text → List Metric → State → State
  add_metrics label [] s = s
  add_metrics label (entry ∷ entries) s = add_metrics label entries (
      kept s (
        update_per_broker_tenant_usage insert_row now (label_value (codes "topic") [] entry.labels)
          (label_value (codes "kubernetes_pod_name") [] entry.labels) label
          (counter_value entry.untyped) s))

  unfoldable pub add_families : List (Text × List Metric) → State → State
  add_families [] s = s
  add_families ((label, entries) ∷ families) s = elim (lookup label tenant_metric_names) [
    | none ↦ add_families families s
    | some known ↦ add_families families (add_metrics label entries s)
  ]

  abbrev add_parsed : State → Result (List (Text × List Metric)) → State
  add_parsed s (ok families) = add_families families s
  add_parsed s (err message) = s
  add_parsed s panic = s

  abbrev add_scraped :
      (parse : Text → Result (List (Text × List Metric))) → State → Result Text → State
  add_scraped parse s (ok byte_data) = add_parsed s (parse byte_data)
  add_scraped parse s (err message) = s
  add_scraped parse s panic = s

  -- The families come in the order in which the map is gone through.
  unfoldable pub build_tenant_usage :
      (scrape : Text → Result Text)
      → (parse : Text → Result (List (Text × List Metric))) → Text
      → List (Text × TenantPromMetrics)
      → State
      → List (Text × TenantPromMetrics) × State
  build_tenant_usage scrape parse base_url cache s =
      let (cache', byte_data) = get_tenant_prom_metrics scrape base_url now super_role cache in
      (cache', add_scraped parse s byte_data)

-- `GetTenantsUsage`: `rows_of` is go-memdb's `Get`, `none` an error of it.
unfoldable pub get_tenants_usage :
    ℕ → (Text → Option (List TopicPerBrokerUsage)) → List (Text × Bool) → Option (List Usage)
get_tenants_usage now rows_of [] = some []
get_tenants_usage now rows_of ((tenant_name, known) ∷ tenants) = elim (rows_of tenant_name) [
  | none ↦ none
  | some rows ↦ elim (get_tenants_usage now rows_of tenants) [
    | none ↦ none
    | some tenants_usage ↦ some (get_tenant_usage now tenant_name rows ∷ tenants_usage)
  ]
]

-- `scrapeJob`, where `get` is the request with its answer, and an answer is read whole. The text of
-- the client's own error is left out.
abbrev scraped_body : Fetched → Result Text
scraped_body not_answered = err []
scraped_body (answered status body) =
    if ltb 299 status then err (codes "failure status code " ++ itoa (pos status)) else ok body

unfoldable pub scrape_job : (get : Text → Fetched) → Text → Result Text
scrape_job get url = scraped_body (get url)
