-- ===== src/Metrics/Federated/Caching.antt =====
-- The cache of what was scraped: whose metrics a tenant gets, and when nothing is scraped.
use burnell.Prelude.{
  ℕ, ◌-◌, ◌≡◌, refl, subst, inl, inr, List, none, some, if◌then◌else◌, arith, Bool-cases,
  Option-cases, ltb,
}
use burnell.Text.{Text, ◌==◌}
use burnell.Text.Laws.{eq_iff, eq_refl}
use burnell.Assoc.{lookup, lookup-insert}
use burnell.Result.{Result, ok, err, panic, Result-cases}
use burnell.Metrics.{TenantPromMetrics, get_cache, set_cache}
use burnell.Metrics.Federated.{scrape_url, get_tenant_prom_metrics, cached_result}

abbrev Cache : Type 0
Cache = List (Text × TenantPromMetrics)

-- What the cache has for a tenant was once the answer to the tenant's own query.
abbrev pub IsScraped : (Text → Text → Type 0) → Text → List (Text × TenantPromMetrics) → Type 0
IsScraped Answered base_url cache =
    (tenant : Text) (metrics : TenantPromMetrics)
    → lookup tenant cache ≡ some metrics
    → Answered (scrape_url base_url tenant) metrics.prom_data

-- A result is an error or an answer to the tenant's own query.
abbrev pub IsOwn : (Text → Text → Type 0) → Text → Text → Result Text → Type 0
IsOwn Answered base_url tenant (ok prom_data) = Answered (scrape_url base_url tenant) prom_data
IsOwn Answered base_url tenant (err message) = Unit
IsOwn Answered base_url tenant panic = Unit

set_cache-IsScraped :
    (Answered : Text → Text → Type 0) (base_url : Text) (now : ℕ) (tenant prom_data : Text)
    (cache : Cache)
    → IsScraped Answered base_url cache
    → Answered (scrape_url base_url tenant) prom_data
    → IsScraped Answered base_url (set_cache now tenant prom_data cache)
unfolding set_cache
set_cache-IsScraped Answered base_url now tenant prom_data cache good answered other metrics h =
    elim (Bool-cases (tenant == other)) [
      | inl e ↦
          let entry : TenantPromMetrics = record { prom_data = prom_data; update_time = now } in
          let p : prom_data ≡ metrics.prom_data =
            ground (arith, e, h, lookup-insert tenant other entry cache) in
          let q : tenant ≡ other = (eq_iff tenant other).0 e in
          subst (λ t. Answered (scrape_url base_url t) metrics.prom_data) q
            (subst (λ z. Answered (scrape_url base_url tenant) z) p answered)
      | inr e ↦
          let entry : TenantPromMetrics = record { prom_data = prom_data; update_time = now } in
          good other metrics (ground (arith, e, h, lookup-insert tenant other entry cache))
    ]

get_cache-found :
    (now : ℕ) (tenant : Text) (cache : Cache) (prom_data : Text)
    → get_cache now tenant cache ≡ some prom_data
    → (metrics : TenantPromMetrics) × (lookup tenant cache ≡ some metrics)
      × (metrics.prom_data ≡ prom_data)
unfolding get_cache
get_cache-found now tenant cache prom_data h = elim (Option-cases (lookup tenant cache)) [
  | inl e ↦ ground (arith, e, h)
  | inr (metrics, e) ↦ (metrics, e, ground (arith, e, h))
]

-- Where the cache keeps for each tenant only answers to the tenant's own query, what is returned is
-- an error or such an answer, cached or scraped, and the cache still keeps no other ones.
pub get_tenant_prom_metrics-IsScraped :
    (Answered : Text → Text → Type 0) (scrape : Text → Result Text) (base_url : Text) (now : ℕ)
    (tenant : Text) (cache : List (Text × TenantPromMetrics))
    → IsScraped Answered base_url cache
    → ((url prom_data : Text) → scrape url ≡ ok prom_data → Answered url prom_data)
    → IsScraped Answered base_url (get_tenant_prom_metrics scrape base_url now tenant cache).0
      × IsOwn Answered base_url tenant (get_tenant_prom_metrics scrape base_url now tenant cache).1
unfolding get_tenant_prom_metrics
get_tenant_prom_metrics-IsScraped Answered scrape base_url now tenant cache good answers =
    elim (Option-cases (get_cache now tenant cache)) [
      | inr (found, e) ↦
          let (metrics, l, p) = get_cache-found now tenant cache found e in
          rw (get_tenant_prom_metrics, e)
            (good, subst (λ z. Answered (scrape_url base_url tenant) z) p (good tenant metrics l))
      | inl e ↦ elim (Result-cases (scrape (scrape_url base_url tenant))) [
        | inl (scraped, f) ↦
            let answered = answers (scrape_url base_url tenant) scraped f in
            rw (get_tenant_prom_metrics, e, f)
              (
                set_cache-IsScraped Answered base_url now tenant scraped cache good answered,
                answered,
              )
        | inr (inl (message, f)) ↦ rw (get_tenant_prom_metrics, e, f) (good, tt)
        | inr (inr f) ↦ rw (get_tenant_prom_metrics, e, f) (good, tt)
      ]
    ]

get_cache-set_cache :
    (now later : ℕ) (tenant prom_data : Text) (cache : Cache)
    → get_cache later tenant (set_cache now tenant prom_data cache)
      ≡ (if ltb (later - now) 60000000000 then some prom_data else none)
unfolding get_cache set_cache
get_cache-set_cache now later tenant prom_data cache =
    let entry : TenantPromMetrics = record { prom_data = prom_data; update_time = now } in
    rw (get_cache, set_cache, lookup-insert tenant tenant entry cache, eq_refl tenant) refl

scrape-set_cache :
    (scrape : Text → Result Text) (base_url : Text) (now : ℕ) (tenant prom_data : Text)
    (cache : Cache)
    → get_cache now tenant cache ≡ none
    → scrape (scrape_url base_url tenant) ≡ ok prom_data
    → get_tenant_prom_metrics scrape base_url now tenant cache
      ≡ (set_cache now tenant prom_data cache, ok prom_data)
unfolding get_tenant_prom_metrics
scrape-set_cache scrape base_url now tenant prom_data cache e f =
    rw (get_tenant_prom_metrics, e, f) refl

-- What was scraped for a tenant is answered for less than a minute, whatever a scrape would bring,
-- and is then scraped again.
pub get_tenant_prom_metrics-again :
    (scrape scrape' : Text → Result Text) (base_url : Text) (now later : ℕ)
    (tenant prom_data : Text) (cache : List (Text × TenantPromMetrics))
    → get_cache now tenant cache ≡ none
    → scrape (scrape_url base_url tenant) ≡ ok prom_data
    → get_tenant_prom_metrics scrape' base_url later tenant
        (get_tenant_prom_metrics scrape base_url now tenant cache).0
      ≡ (if ltb (later - now) 60000000000
          then (set_cache now tenant prom_data cache, ok prom_data)
          else cached_result later tenant
              (set_cache now tenant prom_data cache)
              (scrape' (scrape_url base_url tenant)))
unfolding get_tenant_prom_metrics
get_tenant_prom_metrics-again scrape scrape' base_url now later tenant prom_data cache e f =
    rw (scrape-set_cache scrape base_url now tenant prom_data cache e f)
      (elim (Bool-cases (ltb (later - now) 60000000000)) [
        | inl b ↦
            rw (get_tenant_prom_metrics, get_cache-set_cache now later tenant prom_data cache, b)
              refl
        | inr b ↦
            rw (get_tenant_prom_metrics, get_cache-set_cache now later tenant prom_data cache, b)
              refl
      ])
