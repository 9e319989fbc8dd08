-- ===== src/LogServer/Settings.antt =====
-- src/logstream/util.go and `main` of src/logserver/logserver.go: where the log server listens and
-- which files it reads. The values of the environment are arguments.
use burnell.Prelude.{[], ◌∷◌}
use burnell.Text.{Text, codes}
use burnell.Util.{assign_string}

abbrev pub default_log_server_port : Text
default_log_server_port = codes ":4040"

-- The prefix of all logs, of the value of `FunctionLogPathPrefix`.
unfoldable pub file_path : Text → Text
file_path function_log_path_prefix =
    assign_string (function_log_path_prefix ∷ codes "/pulsar/logs/functions/" ∷ [])

-- The port of the log server, of the port in the configuration and the value of `LogServerPort`. The
-- server reads no configuration file: the port in its configuration is empty.
unfoldable pub listen_port : Text → Text → Text
listen_port config_port env_port =
    assign_string (config_port ∷ env_port ∷ default_log_server_port ∷ [])
