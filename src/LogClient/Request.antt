-- ===== src/LogClient/Request.antt =====
-- src/logclient/reader.go: the request of a function's log. `read` is the dialling of the log server
-- with its `Read`, by the address that is dialled; the status of functions is an argument.
pub mod Laws
use burnell.Prelude.{
  ℕ, zero, suc, ◌+◌, ◌/◌, ◌%◌, Bool, true, false, List, [], ◌∷◌, ◌++◌, Option, none, some,
  if◌then◌else◌, ltb, nat_eq,
}
use burnell.Prelude.Int.{ℤ, pos, negsuc}
use burnell.Text.{Text, codes, ◌==◌}
use burnell.Util.{assign_string, single_join_slash}
use burnell.Result.{Result, ok, err, panic}
use burnell.LogClient.{
  FunctionMap, FunctionType, FuncInstance, WorkerError, WorkerReply, worker, no_worker,
  get_function_worker_id, function_log_path, function_status_url, is_forward_request,
}

-- `strconv.Itoa`: a number has fewer digits than its successor has units.
itoa_fuel : ℕ → ℕ → Text
itoa_fuel zero n = []
itoa_fuel (suc k) n =
    let tens = itoa_fuel k (n / 10) in
    if ltb n 10 then (b'0' + n) ∷ [] else tens ++ (b'0' + n % 10) ∷ []

unfoldable pub itoa : ℤ → Text
unfolding itoa_fuel
itoa (pos n) = itoa_fuel (suc n) n
itoa (negsuc n) = b'-' ∷ itoa_fuel (suc (suc n)) (suc n)

-- `logstream.ReadRequest`, where the direction is forward or backward.
pub record ReadRequest : Type 0 where
  pub file : Text
  pub is_forward : Bool
  pub bytes : ℤ
  pub forward_index : ℤ
  pub backward_index : ℤ

-- `FunctionLogRequest`
pub record FunctionLogRequest : Type 0 where
  pub bytes : ℤ
  pub backward_position : ℤ
  pub forward_position : ℤ

pub record FunctionLogResponse : Type 0 where
  pub logs : Text
  pub backward_position : ℤ
  pub forward_position : ℤ

-- `ErrNotFoundFunction`, an error of the function's status, or one of the log server.
pub data LogReply : Type 0 where
  logs_read : FunctionLogResponse → LogReply
  no_log : WorkerError → LogReply
  server_error : Text → LogReply
  server_panic : LogReply

-- What the process reads of its environment and its configuration.
pub record LogConfig : Type 0 where
  pub function_worker_domain : Text
  pub log_server_port : Text
  pub file_path : Text

abbrev pub no_function : FunctionType
no_function = record {
  tenant = [];
  namespace = [];
  function_name = [];
  component = [];
  instances = [];
  parallism = pos 0;
}

unfoldable pub log_server_address : LogConfig → Text → Text
log_server_address config worker_id =
    worker_id
    ++ (config.function_worker_domain
        ++ assign_string (config.log_server_port ∷ codes ":4040" ∷ []))

unfoldable pub read_request : LogConfig → FunctionType → ℤ → FunctionLogRequest → ReadRequest
read_request config fn instance_id rd = record {
  file =
      function_log_path config.file_path fn.tenant fn.namespace fn.function_name (itoa instance_id);
  is_forward = is_forward_request rd.forward_position;
  bytes = rd.bytes;
  forward_index = rd.forward_position;
  backward_index = rd.backward_position;
}

abbrev log_reply : Result FunctionLogResponse → LogReply
log_reply (ok response) = logs_read response
log_reply (err message) = server_error message
log_reply panic = server_panic

module _ (config : LogConfig) (read : Text → ReadRequest → Result FunctionLogResponse) where
  -- `GetFunctionLog` behind the look-up of the worker.
  unfoldable pub read_log : FunctionType → Text → ℤ → FunctionLogRequest → LogReply
  read_log fn worker_id instance_id rd =
      log_reply (read (log_server_address config worker_id) (read_request config fn instance_id rd))

  abbrev read_found : ℤ → FunctionLogRequest → FunctionMap × WorkerReply → FunctionMap × LogReply
  read_found instance_id rd (functions, worker fn worker_id) =
      (functions, read_log fn worker_id instance_id rd)
  read_found instance_id rd (functions, no_worker reason) = (functions, no_log reason)

  unfoldable pub get_function_log :
      ℕ
      → (FunctionType → Option (List FuncInstance))
      → Text
      → Text
      → ℤ
      → FunctionLogRequest
      → FunctionMap
      → FunctionMap × LogReply
  get_function_log now status_of function_name worker_id instance_id rd functions =
      if worker_id == []
      then read_found instance_id rd
          (get_function_worker_id now status_of function_name instance_id functions)
      else (functions, read_log no_function worker_id instance_id rd)

-- `GetFunctionStatus`: `get` is the GET request, with the status code and the body, `decode` the
-- decoding of the body.
unfoldable pub get_function_status :
    (get : Text → Result (ℕ × Text))
    → (decode : Text → Option (List FuncInstance)) → Text
    → FunctionType
    → Option (List FuncInstance)
get_function_status get decode function_proxy_url fn =
    elim (get (function_status_url function_proxy_url fn)) [
      | err message ↦ none
      | panic ↦ none
      | ok (status, body) ↦ if nat_eq status 200 then decode body else none
    ]
