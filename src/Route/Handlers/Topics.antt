-- ===== src/Route/Handlers/Topics.antt =====
-- src/route/handlers.go: the handlers of topics' statistics and of functions' logs, and the list of
-- tenants. What they ask is an argument, as is JSON, where `none` is an error.
use burnell.Prelude.{ℕ, List, [], Option, none, some, if◌then◌else◌}
use burnell.Prelude.Int.{ℤ, pos, ltb_ℤ}
use burnell.Text.{Text, codes, ◌==◌, has_suffix}
use burnell.Assoc.{lookup}
use burnell.Util.{single_join_slash}
use burnell.Result.{Result, ok, err, panic}
use burnell.LogClient.{FunctionMap, not_found_function, status_error}
use burnell.LogClient.Request.{
  FunctionLogRequest, FunctionLogResponse, LogReply, logs_read, no_log, server_error, server_panic,
}
use burnell.Policy.TopicStats.Brokers.{
  BrokersStats, AggregateReply, aggregated, aggregate_error, aggregate_panic, waiting,
}
use burnell.Route.Request.{Request}
use burnell.Route.Handlers.{Proxy, Exchange, replied, no_reply, no_body}
use burnell.Route.Handlers.Queries.{
  ask, reject, function_logs_request, topic_stats_page, broker_stats_page,
}

-- `TopicStatsResponse`
pub record TopicStatsResponse (D : Type 0) : Type 0 where
  pub tenant : Text
  pub offset : ℤ
  pub total : ℤ
  pub stats : List (Text × D)

-- A value as JSON with its status, a status alone, or a panic; `pending` is a handler that waits.
pub data Reply (A : Type 0) : Type 0 where
  json : (status : ℕ) (value : A) → Reply A
  bare : (status : ℕ) → Reply A
  reply_panic : Reply A
  pending : Reply A

abbrev stats_reply :
    {D : Type 0} → Text → Result (ℤ × ℤ × List (Text × D)) → Reply (TopicStatsResponse D)
stats_reply tenant (ok (total_size, new_offset, topics)) =
    if ltb_ℤ (pos 0) total_size
    then json 200
        (record { tenant = tenant; offset = new_offset; total = total_size; stats = topics })
    else bare 204
stats_reply tenant (err message) = bare 204
stats_reply tenant panic = reply_panic

abbrev paginated :
    {D Db : Type 0}
    → Text
    → Db × Result (ℤ × ℤ × List (Text × D))
    → Db × Reply (TopicStatsResponse D)
paginated tenant (db, result) = (db, stats_reply tenant result)

-- `topic_list` is the decoded body, the empty list where there is none; `paginate` is
-- `PaginateTopicStats`.
unfoldable pub tenant_topic_stats_handler :
    {D Db : Type 0}
    → (paginate : Text → ℤ → ℤ → List Text → Db → Db × Result (ℤ × ℤ × List (Text × D)))
    → Option (List Text)
    → Request
    → Db
    → Db × Reply (TopicStatsResponse D)
tenant_topic_stats_handler paginate topic_list r db = elim (lookup (codes "tenant") r.vars) [
  | none ↦ (db, bare 422)
  | some tenant ↦ elim topic_list [
    | none ↦ (db, bare 422)
    | some topics ↦
        let (offset, page_size) = topic_stats_page r in
        paginated tenant (paginate tenant offset page_size topics db)
  ]
]

-- `aggregate` is `AggregateBrokersStats`.
unfoldable pub broker_aggregator_handler :
    {S : Type 0} → (Text → ℤ → ℤ → AggregateReply S) → Request → Reply (BrokersStats S)
broker_aggregator_handler aggregate r =
    let (offset, limit) = broker_stats_page r in
    elim (aggregate r.uri offset limit) [
      | aggregated broker_stats ↦ json 200 broker_stats
      | aggregate_error status ↦ bare status
      | aggregate_panic ↦ reply_panic
      | waiting ↦ pending
    ]

-- `getTenantNameList`: `get` is the GET request, `decode` the decoding of a body.
unfoldable pub get_tenant_name_list :
    (get : Text → Exchange) → (decode : Text → Option (List Text)) → Proxy → Option (List Text)
get_tenant_name_list get decode px =
    elim (get (single_join_slash px.broker_proxy_url (codes "admin/v2/tenants"))) [
      | no_reply ↦ none
      | no_body ↦ none
      | replied status body ↦ decode body
    ]

abbrev pub no_such_file : Text
no_such_file = codes "no such file or directory"

abbrev logs_reply : LogReply → Reply FunctionLogResponse
logs_reply (logs_read response) = json (if response.logs == [] then 204 else 200) response
logs_reply (no_log not_found_function) = bare 404
logs_reply (no_log status_error) = bare 500
logs_reply (server_error message) = if has_suffix message no_such_file then bare 404 else bare 500
logs_reply server_panic = reply_panic

abbrev logs_replied : FunctionMap × LogReply → FunctionMap × Reply FunctionLogResponse
logs_replied (functions, reply) = (functions, logs_reply reply)

-- `get_log` is `GetFunctionLog` by the function's key, the worker and the instance. An error of a
-- function's status is taken for one whose text does not end in `no_such_file`.
unfoldable pub function_logs_handler :
    (get_log : Text → Text → ℤ → FunctionLogRequest → FunctionMap → FunctionMap × LogReply)
    → Request
    → FunctionMap
    → FunctionMap × Reply FunctionLogResponse
function_logs_handler get_log r functions = elim (function_logs_request r) [
  | reject status message ↦ (functions, bare status)
  | ask q ↦ logs_replied (
      get_log q.function_key q.worker_id q.instance
        (record {
          bytes = q.bytes;
          backward_position = q.backward_position;
          forward_position = q.forward_position;
        })
        functions)
]
