-- ===== src/Config/File.antt =====
-- src/util/config.go, `ReadConfigFile`: the file is read and decoded, and the environment overrides
-- it. The file system and the two decoders are arguments, which have nothing on an error.
use Prim.Native.String.{String}
use burnell.Prelude.{List, Option, none, some, if◌then◌else◌, [], ◌∷◌}
use burnell.Text.{Text, codes}
use burnell.Util.{assign_string}
use burnell.Result.{Result, ok, panic}
use burnell.Config.{Configuration, override_fields, super_roles_of, has_json_prefix}

abbrev pub default_config_file : Text
default_config_file = codes "../config/burnell.yml"

-- The file that `Init` reads, of the value of `BURNELL_CONFIG`.
unfoldable pub config_file : Text → Text
config_file burnell_config = assign_string (burnell_config ∷ default_config_file ∷ [])

module _ (read_file : Text → Option Text) (from_json from_yaml : Text → Option Configuration)
    (getenv : String → Text) where
  unfoldable pub decode_config : Text → Option Configuration
  unfolding has_json_prefix
  decode_config file_bytes =
      if has_json_prefix file_bytes then from_json file_bytes else from_yaml file_bytes

  abbrev with_env : Option Configuration → Result (Configuration × List Text)
  with_env none = panic
  with_env (some c) = let config = override_fields getenv c in ok (config, super_roles_of config)

  -- The configuration and the global `SuperRoles`.
  unfoldable pub read_config_file : Text → Result (Configuration × List Text)
  read_config_file file = elim (read_file file) [
    | none ↦ panic
    | some file_bytes ↦ with_env (decode_config file_bytes)
  ]
