-- ===== src/Tests/Following.antt =====
-- Tests of what follows a log or a topic.
use burnell.Prelude.{◌≡◌, refl, true, List, [], ◌∷◌, ◌++◌, map, Option, none, some, arith, All}
use burnell.Prelude.Int.{pos}
use burnell.Text.{Text, codes, contains_byte}
use burnell.Assoc.{lookup}
use burnell.Result.{ok, panic}
use burnell.Policy.Plan.{TenantPlan, empty_plan}
use burnell.Policy.TenantDb.Replay.{latest}
use burnell.Policy.TenantDb.Listener.{Tenants, ReadsPrefix, watch, lookup-watch}
use burnell.Policy.TenantDb.Listener
use burnell.LogServer.{newline}
use burnell.LogClient.{FunctionDetails, FunctionMap, read_function_map}
use burnell.LogClient.Request.{LogConfig, no_function}
use burnell.LogClient.Listener.{
  message, first_known, failed_run, reader_loop, reader_loop-panics, function_topic_watch_dog,
  lookup-watch_dog,
}
use burnell.Composition.Tailing.{IsPiece, TailsInto, whole_file, tail_log, tail_log-TailsInto}
use burnell.Tests.Functions.{first}

abbrev config : LogConfig
config = record { function_worker_domain = []; log_server_port = []; file_path = codes "/logs/" }

abbrev line : Text → Text
line s = s ++ newline ∷ []

abbrev appended : List Text
appended = line (codes "o") ∷ (line (codes "x") ++ codes "y") ∷ []

appended-pieces : All IsPiece appended
unfolding contains_byte
appended-pieces = ((refl, omega arith), ((refl, omega arith), tt))

-- The first position is in the last line of the file, which is not complete.
tail_log-TailsInto_example : TailsInto (whole_file (line (codes "one") ++ codes "tw") appended) 4 (
    tail_log 1 config no_function
      (codes "w")
      (pos 0)
      (pos 10)
      appended
      (line (codes "one") ++ codes "tw")
      4)
tail_log-TailsInto_example =
    tail_log-TailsInto 0 config no_function (codes "w") (pos 0) (pos 10) appended
      (line (codes "one") ++ codes "tw") 4 (omega arith) (omega arith) (ground arith) (omega arith)
      appended-pieces

-- A message is the name of a plan, and `!` with a name deletes it.
abbrev plan_of : Text → TenantPlan
plan_of [] = empty_plan
plan_of (c ∷ name) = record empty_plan { name = name; tenant_status = pos c }

abbrev topic : List Text
topic = (4 ∷ codes "ann") ∷ (1 ∷ codes "bob") ∷ (1 ∷ codes "ann") ∷ []

abbrev nobody : Tenants
nobody = []

lookup-watch_example :
    lookup (codes "ann") (
      watch plan_of
        (map Listener.failed_run (none ∷ some ((4 ∷ codes "ann") ∷ []) ∷ [])
          ++ (true, map Listener.message topic) ∷ [])
        nobody)
    ≡ latest (codes "ann") (lookup (codes "ann") nobody) (map plan_of topic)
lookup-watch_example =
    lookup-watch plan_of (codes "ann") topic (none ∷ some ((4 ∷ codes "ann") ∷ []) ∷ []) nobody
      (tt, (((1 ∷ codes "bob") ∷ (1 ∷ codes "ann") ∷ [], refl), tt))

abbrev details : Text → Option FunctionDetails
details [] = none
details (c ∷ s) = some first

abbrev known : Text → FunctionDetails
known s = first

abbrev no_functions : FunctionMap
no_functions = []

lookup-watch_dog_example :
    (after : FunctionMap) × (function_topic_watch_dog details
        (map failed_run (some (codes "a" ∷ []) ∷ [])
          ++ (true, map message (codes "a" ∷ codes "b" ∷ [])) ∷ [])
        no_functions
      ≡ ok after)
    × (read_function_map (codes "abnf") after
        ≡ first_known
            (codes "abnf")
            (read_function_map (codes "abnf") no_functions)
            (map known (codes "a" ∷ codes "b" ∷ [])))
lookup-watch_dog_example =
    lookup-watch_dog details known (codes "abnf") (codes "a" ∷ codes "b" ∷ [])
      (some (codes "a" ∷ []) ∷ []) no_functions (refl, (refl, tt)) ((codes "b" ∷ [], refl), tt)

reader_loop-panics_example :
    reader_loop details true (map message (codes "a" ∷ []) ++ message [] ∷ []) no_functions ≡ panic
reader_loop-panics_example =
    reader_loop-panics details known (codes "a" ∷ []) [] [] no_functions (refl, tt) refl
