-- ===== src/Manager/Quiet.antt =====
-- Preparing a plugin's configuration directory acts on the machine alone.
use yh_extension_manager_v.Prelude.{String, Bool, true, false}
use yh_extension_manager_v.World.{Env, Core, PluginRuntimeManager}
use yh_extension_manager_v.World.Keeps.{Keeps, keeps_rules}
use yh_extension_manager_v.Manager.{create_config_file, ensure_plugin_config_paths}

module _ {E : Env} {P : Core → Type 0} where
  Keeps-create_config_file : (f : String) (b : Bool) → Keeps P (create_config_file E f b)
  unfolding create_config_file
  Keeps-create_config_file f true = search keeps_rules
  Keeps-create_config_file f false = search keeps_rules

  pub Keeps-ensure_plugin_config_paths :
      (m : PluginRuntimeManager) (q : String) → Keeps P (ensure_plugin_config_paths E m q)
  unfolding ensure_plugin_config_paths
  Keeps-ensure_plugin_config_paths m q = search (keeps_rules, Keeps-create_config_file) depth 30
