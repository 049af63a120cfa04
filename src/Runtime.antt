-- ===== src/Runtime.antt =====
-- src/runtime/: what a plugin's runtime is told by the host, whatever its kind.
pub mod Process
pub mod Wasm
pub mod Docker
use yh_extension_manager_v.Prelude.{String, Option, none, some, List, [], ◌∷◌}
use yh_extension_manager_v.Manifest.{StringMap}

-- What the start functions are given beside the plugin, its root and its manifest.
pub record Launch : Type 0 where
  pub host_api_base_url : String
  pub host_api_token : String
  pub plugin_config_dir : String
  pub plugin_config_file : String

-- The variables that the host adds to every runtime's environment.
abbrev pub host_env : String → Launch → StringMap
host_env plugin_id launch =
    ("FILEUNI_PLUGIN_ID", plugin_id)
    ∷ ("FILEUNI_PLUGIN_HOST_API_BASE_URL", launch.host_api_base_url)
    ∷ ("FILEUNI_PLUGIN_HOST_API_TOKEN", launch.host_api_token)
    ∷ ("FILEUNI_PLUGIN_CONFIG_DIR", launch.plugin_config_dir)
    ∷ ("FILEUNI_PLUGIN_CONFIG_FILE", launch.plugin_config_file)
    ∷ []

-- `if let Some(args) = &runtime.args { command.args(args); }`, and so for a map
abbrev pub or_nil : {A : Type 0} → Option (List A) → List A
or_nil none = []
or_nil (some xs) = xs
