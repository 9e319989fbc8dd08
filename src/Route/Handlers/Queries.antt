-- ===== src/Route/Handlers/Queries.antt =====
-- src/route/handlers.go: what the handlers read of a query, and the handlers of logs, topics and
-- tokens that decide on it.
use burnell.Prelude.{ℕ, ◌&&◌, ◌++◌, List, [], Option, none, some, if◌then◌else◌}
use burnell.Prelude.Int.{ℤ, pos, ltb_ℤ, eqb_ℤ}
use burnell.Text.{Text, codes}
use burnell.Text.Atoi.{atoi}
use burnell.Assoc.{lookup}
use burnell.LogClient.{FunctionMap, FunctionType, read_function_map}
use burnell.Route.Request.{Request}

abbrev int_or : ℤ → Option ℤ → ℤ
int_or default none = default
int_or default (some n) = n

unfoldable pub query_param_int : List (Text × Text) → Text → ℤ → ℤ
query_param_int params name default_v = elim (lookup name params) [
  | none ↦ default_v
  | some str ↦ int_or default_v (atoi str)
]

unfoldable pub query_param_string : List (Text × Text) → Text → Text → Text
query_param_string params name default_v = elim (lookup name params) [
  | none ↦ default_v
  | some str ↦ str
]

-- `FunctionLogRequest` with the function's key, the worker and the instance.
pub record LogQuery : Type 0 where
  pub function_key : Text
  pub worker_id : Text
  pub instance : ℤ
  pub bytes : ℤ
  pub backward_position : ℤ
  pub forward_position : ℤ

-- What `FunctionLogsHandler` asks `GetFunctionLog` for, or the status that it answers.
pub data LogRequest : Type 0 where
  ask : LogQuery → LogRequest
  reject : (status : ℕ) (message : Text) → LogRequest

abbrev instance_var : Option Text → Option ℤ
instance_var none = some (pos 0)
instance_var (some instance_str) = atoi instance_str

-- The variables `tenant`, `namespace` and `function`, if all are there.
unfoldable pub function_vars : Request → Option Text
function_vars r = elim (lookup (codes "tenant") r.vars) [
  | none ↦ none
  | some tenant ↦ elim (lookup (codes "namespace") r.vars) [
    | none ↦ none
    | some namespace ↦ elim (lookup (codes "function") r.vars) [
      | none ↦ none
      | some func_name ↦ some (tenant ++ (namespace ++ func_name))
    ]
  ]
]

abbrev checked_query : LogQuery → LogRequest
checked_query q =
    if ltb_ℤ (pos 0) q.backward_position && ltb_ℤ (pos 0) q.forward_position
    then reject 400 (codes "backwardpos and forwardpos cannot be specified at the same time")
    else if ltb_ℤ q.bytes (pos 0)
    then reject 400 (codes "bytes cannot be a negative value")
    else ask q

unfoldable pub function_logs_request : Request → LogRequest
function_logs_request r = elim (instance_var (lookup (codes "instance") r.vars)) [
  | none ↦ reject 400 (codes "invalid instance name")
  | some instance ↦ elim (function_vars r) [
    | none ↦ reject 422 []
    | some function_key ↦ checked_query (record {
      function_key = function_key;
      worker_id = query_param_string r.query (codes "workerid") [];
      instance = instance;
      bytes = query_param_int r.query (codes "bytes") (pos 2400);
      backward_position = query_param_int r.query (codes "backwardpos") (pos 0);
      forward_position = query_param_int r.query (codes "forwardpos") (pos 0);
    })
  ]
]

-- The function that `FunctionStatusHandler` answers with, or its status.
pub data FunctionReply : Type 0 where
  function_json : FunctionType → FunctionReply
  no_function : (status : ℕ) → FunctionReply

unfoldable pub function_status_handler : FunctionMap → Request → FunctionReply
function_status_handler functions r = elim (function_vars r) [
  | none ↦ no_function 422
  | some key ↦ elim (read_function_map key functions) [
    | none ↦ no_function 404
    | some func_type ↦ function_json func_type
  ]
]

-- The status of `GroupTopicsByNamespaceHandler` by the number that `CountTopics` returns.
unfoldable pub group_topics_status : Option Text → ℤ → ℕ
group_topics_status none length = 422
group_topics_status (some tenant) length =
    if ltb_ℤ length (pos 0) then 404 else if eqb_ℤ length (pos 0) then 204 else 200

-- The offset and the limit that `TenantTopicStatsHandler` asks `PaginateTopicStats` for.
unfoldable pub topic_stats_page : Request → ℤ × ℤ
topic_stats_page r = (
  query_param_int r.query (codes "offset") (pos 0),
  query_param_int r.query (codes "limit") (pos 50),
)

-- The offset and the limit that `BrokerAggregatorHandler` asks for.
unfoldable pub broker_stats_page : Request → ℤ × ℤ
broker_stats_page r = (
  query_param_int r.query (codes "offset") (pos 0),
  query_param_int r.query (codes "limit") (pos 0),
)
