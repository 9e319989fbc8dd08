-- ===== src/LogClient/Request/Laws.antt =====
-- Which file a request of a log reads.
use burnell.Prelude.{ℕ, ◌-◌, ◌<◌, ◌≡◌, ◌≢◌, refl, List, [], ◌++◌, Option, some, arith, lt→ltb}
use burnell.Prelude.Int.{ℤ}
use burnell.Text.{Text, codes, ◌==◌}
use burnell.Text.Laws.{eq_iff}
use burnell.Result.{Result}
use burnell.LogClient.{
  FunctionMap, FunctionType, FuncInstance, InstanceStatus, read_function_map, find_instance,
  get_function_worker_id, function_log_path,
}
use burnell.LogClient.Request.{
  LogConfig, FunctionLogRequest, FunctionLogResponse, ReadRequest, itoa, get_function_log, read_log,
  no_function, read_request,
}

-- A request that names the worker reads the same file, of no function, whatever function it names.
get_function_log-named_worker :
    (config : LogConfig) (read : Text → ReadRequest → Result FunctionLogResponse) (now : ℕ)
    (status_of : FunctionType → Option (List FuncInstance)) (function_name other worker_id : Text)
    (instance_id : ℤ) (rd : FunctionLogRequest) (functions : FunctionMap)
    → worker_id ≢ []
    → ((get_function_log config read now status_of function_name worker_id instance_id rd functions)
        ≡ (get_function_log config read now status_of other worker_id instance_id rd functions))
      × ((read_request config no_function instance_id rd).file
          ≡ config.file_path ++ (codes "///-" ++ (itoa instance_id ++ codes ".log")))
unfolding get_function_log read_request function_log_path
get_function_log-named_worker config read now status_of function_name other worker_id instance_id rd
      functions h =
    (ground (arith, eq_iff worker_id []), refl)

-- A request that names no worker, of a known function whose worker was asked for less than three
-- minutes ago, asks that worker's log server for the function's own file and changes nothing.
pub get_function_log-known_worker :
    (config : LogConfig) (read : Text → ReadRequest → Result FunctionLogResponse) (now : ℕ)
    (status_of : FunctionType → Option (List FuncInstance)) (function_name : Text) (instance_id : ℤ)
    (rd : FunctionLogRequest) (functions : FunctionMap) (fn : FunctionType)
    (status : InstanceStatus)
    → read_function_map function_name functions ≡ some fn
    → find_instance instance_id fn.instances ≡ some status
    → now - status.last_query_time < 180000000000
    → get_function_log config read now status_of function_name [] instance_id rd functions
      ≡ (functions, read_log config read fn status.worker_id instance_id rd)
unfolding get_function_log get_function_worker_id ◌==◌
get_function_log-known_worker config read now status_of function_name instance_id rd functions fn
      status f i recent =
    rw
      (
        get_function_log,
        get_function_worker_id,
        f,
        i,
        lt→ltb (now - status.last_query_time) 180000000000 recent,
      )
      refl
