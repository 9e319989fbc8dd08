-- ===== src/LogClient.antt =====
-- src/logclient/reader.go and src/logstream/util.go: the functions that run in the cluster, and the
-- requests for their logs. A service request's metadata, the answer of a function's status, and the
-- log server are arguments.
pub mod Laws
pub mod Request
pub mod Listener
use burnell.Prelude.{
  ℕ, ◌+◌, ◌-◌, Bool, true, false, not, ◌&&◌, List, [], ◌∷◌, ◌++◌, Option, none, some, if◌then◌else◌,
  ltb,
}
use burnell.Prelude.Int.{ℤ, pos, negsuc, ltb_ℤ, eqb_ℤ}
use burnell.Text.{Text, codes, ◌==◌}
use burnell.Assoc.{lookup, insert, delete}
use burnell.Util.{assign_string, single_join_slash}

pub record InstanceStatus : Type 0 where
  pub id : ℤ
  pub running : Bool
  pub last_query_time : ℕ
  pub worker_id : Text
  pub metadata_worker_id : Text

pub record FunctionType : Type 0 where
  pub tenant : Text
  pub namespace : Text
  pub function_name : Text
  pub component : Text
  pub instances : List (ℤ × InstanceStatus)
  pub parallism : ℤ

abbrev pub FunctionMap : Type 0
FunctionMap = List (Text × FunctionType)

unfoldable pub read_function_map : Text → FunctionMap → Option FunctionType
read_function_map key functions = lookup key functions

unfoldable pub write_function_map_if_not_exist : Text → FunctionType → FunctionMap → FunctionMap
write_function_map_if_not_exist key f functions = elim (lookup key functions) [
  | some known ↦ functions
  | none ↦ insert key f functions
]

-- A Go map with integers for keys.
unfoldable pub find_instance : ℤ → List (ℤ × InstanceStatus) → Option InstanceStatus
find_instance instance_id [] = none
find_instance instance_id ((known, status) ∷ instances) =
    let later = find_instance instance_id instances in
    if eqb_ℤ known instance_id then some status else later

unfoldable pub update_worker_id_in_function_map :
    ℕ → Text → Text → ℤ → Bool → FunctionMap → FunctionMap
update_worker_id_in_function_map now key worker_id instance_id running functions =
    elim (lookup key functions) [
      | none ↦ functions
      | some f ↦
          insert key
            (record f {
              instances =
                  (
                    instance_id,
                    record {
                      id = instance_id;
                      running = running;
                      last_query_time = now;
                      worker_id = worker_id;
                      metadata_worker_id = worker_id;
                    },
                  )
                  ∷ f.instances;
            })
            functions
    ]

unfoldable pub delete_function_map : Text → FunctionMap → FunctionMap × Bool
delete_function_map key functions = elim (lookup key functions) [
  | some f ↦ (delete key functions, true)
  | none ↦ (functions, false)
]

unfoldable pub tenant_function_count : Text → FunctionMap → ℕ
tenant_function_count tenant [] = 0
tenant_function_count tenant ((key, v) ∷ functions) =
    (if v.tenant == tenant then 1 else 0) + tenant_function_count tenant functions

pub data ComponentType : Type 0 where
  function : ComponentType
  source : ComponentType
  sink : ComponentType
  unknown : ComponentType

unfoldable pub get_component_type : ComponentType → Text
get_component_type function = codes "functions"
get_component_type source = codes "sources"
get_component_type sink = codes "sinks"
get_component_type unknown = codes "unknown"

-- What `ParseServiceRequest` reads of a request, whether it creates, updates or deletes.
pub record FunctionDetails : Type 0 where
  pub tenant : Text
  pub namespace : Text
  pub name : Text
  pub parallelism : ℤ
  pub component_type : ComponentType

unfoldable pub key_of : FunctionDetails → Text
key_of fd = fd.tenant ++ (fd.namespace ++ fd.name)

abbrev pub function_of : FunctionDetails → FunctionType
function_of fd = record {
  tenant = fd.tenant;
  namespace = fd.namespace;
  function_name = fd.name;
  component = get_component_type fd.component_type;
  instances = [];
  parallism = fd.parallelism;
}

unfoldable pub parse_service_request : FunctionDetails → FunctionMap → FunctionMap
parse_service_request fd functions =
    write_function_map_if_not_exist (key_of fd) (function_of fd) functions

-- The URL of `GetFunctionStatus`.
unfoldable pub function_status_url : Text → FunctionType → Text
function_status_url function_proxy_url fn = single_join_slash function_proxy_url (
    single_join_slash (codes "/admin/v3/" ++ fn.component) (
      fn.tenant
      ++ (codes "/" ++ (fn.namespace ++ (codes "/" ++ (fn.function_name ++ codes "/status"))))))

pub record FuncInstance : Type 0 where
  pub instance_id : ℤ
  pub running : Bool
  pub worker_id : Text

unfoldable pub instance_of : ℤ → List FuncInstance → Option FuncInstance
instance_of instance_id [] = none
instance_of instance_id (v ∷ instances) =
    let later = instance_of instance_id instances in
    if eqb_ℤ v.instance_id instance_id then some v else later

-- The reasons why no worker is found.
pub data WorkerError : Type 0 where
  not_found_function : WorkerError
  status_error : WorkerError

pub data WorkerReply : Type 0 where
  worker : (fn : FunctionType) (worker_id : Text) → WorkerReply
  no_worker : WorkerError → WorkerReply

abbrev from_status :
    ℕ → Text → ℤ → FunctionType → FunctionMap → Option FuncInstance → FunctionMap × WorkerReply
from_status now function_name instance_id fn functions none =
    (functions, no_worker not_found_function)
from_status now function_name instance_id fn functions (some v) = (
  update_worker_id_in_function_map now function_name v.worker_id instance_id v.running functions,
  worker fn v.worker_id,
)

abbrev ask_status :
    ℕ
    → Text
    → ℤ
    → FunctionType
    → FunctionMap
    → Option (List FuncInstance)
    → FunctionMap × WorkerReply
ask_status now function_name instance_id fn functions none = (functions, no_worker status_error)
ask_status now function_name instance_id fn functions (some instances) =
    from_status now function_name instance_id fn functions (instance_of instance_id instances)

-- `time.Since(instanceStatus.LastQueryTime) < queryTimeout`, three minutes.
abbrev is_recent : ℕ → Option InstanceStatus → Option Text
is_recent now none = none
is_recent now (some status) =
    if ltb (now - status.last_query_time) 180000000000 then some status.worker_id else none

-- `status_of` is `GetFunctionStatus`; `none` is an error.
unfoldable pub get_function_worker_id :
    ℕ
    → (FunctionType → Option (List FuncInstance))
    → Text
    → ℤ
    → FunctionMap
    → FunctionMap × WorkerReply
get_function_worker_id now status_of function_name instance_id functions =
    elim (read_function_map function_name functions) [
      | none ↦ (functions, no_worker not_found_function)
      | some fn ↦ elim (is_recent now (find_instance instance_id fn.instances)) [
        | some worker_id ↦ (functions, worker fn worker_id)
        | none ↦ ask_status now function_name instance_id fn functions (status_of fn)
      ]
    ]

-- `FunctionLogPath`, with the prefix `FilePath`.
unfoldable pub function_log_path : Text → Text → Text → Text → Text → Text
function_log_path file_path tenant namespace function_name instance_str =
    file_path
    ++ (tenant
        ++ (codes "/"
            ++ (namespace
                ++ (codes "/"
                    ++ (function_name
                        ++ (codes "/"
                            ++ (function_name
                                ++ (codes "-" ++ (instance_str ++ codes ".log")))))))))

-- `requestDirection`: whether it is forward.
unfoldable pub is_forward_request : ℤ → Bool
is_forward_request forward_position = ltb_ℤ (pos 0) forward_position
