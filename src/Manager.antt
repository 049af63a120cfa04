-- ===== src/Manager.antt =====
-- src/manager.rs: the runtime manager, which keeps a handle for each running plugin, and a
-- plugin's configuration directory.
pub mod Quiet
pub mod Handles
pub mod Sanitize
pub mod Signature
use Prim.Native.Char.{Char, code}
use mathlib.Core.Option
use yh_extension_manager_v.Prelude.{
  ℕ, String, ◌<>◌, Bool, true, false, not, ◌||◌, Option, none, some, List, map, nat_eq,
  if◌then◌else◌,
}
use yh_extension_manager_v.Prelude.Dict
use yh_extension_manager_v.Prelude.Dict.{Dict}
use yh_extension_manager_v.Text.{is_ascii_alphanumeric, chars_map}
use yh_extension_manager_v.FilePath.{join}
use yh_extension_manager_v.Entities.{RuntimeHandle}
use yh_extension_manager_v.World.{
  Env, Core, PluginRuntimeManager, RuntimeDirectoryLayout, Exec, pure, gets, modify, os, map_error,
  raise_if, ◌>>=◌, ◌>>◌,
}

-- A character that a file name keeps: an ASCII letter or digit, or one of `-`, `_`, `.`.
abbrev pub is_safe_char : ℕ → Bool
is_safe_char c = is_ascii_alphanumeric c || nat_eq c b'-' || nat_eq c b'_' || nat_eq c b'.'

-- `sanitize_fs_component`, `sanitize_sqlite_component`, and inline in the manager
unfoldable pub sanitize_component : String → String
sanitize_component = chars_map (λ c. if is_safe_char (code c) then c else "_")

-- `layout_from_root`
unfoldable pub layout_from_root : String → RuntimeDirectoryLayout
layout_from_root root_dir = record {
  root_dir = root_dir;
  cache_dir = join root_dir "cache";
  packages_dir = join root_dir "packages";
  state_dir = join root_dir "state";
  config_dir = join root_dir "config";
  logs_dir = join root_dir "logs";
  runtime_dir = join root_dir "runtime";
  shared_dir = join root_dir "shared";
}

abbrev on_manager :
    (Dict RuntimeHandle → Dict RuntimeHandle)
    → Option PluginRuntimeManager
    → Option PluginRuntimeManager
on_manager f none = none
on_manager f (some m) = some (record m { active_runtimes = f m.active_runtimes })

-- The map of handles is written anew, if there is a manager.
abbrev pub on_runtimes : (Dict RuntimeHandle → Dict RuntimeHandle) → Core → Core
on_runtimes f c = record c { manager = on_manager f c.manager }

-- The handle that is kept for a plugin.
abbrev pub handle_in : Option PluginRuntimeManager → String → Option RuntimeHandle
handle_in none plugin_id = none
handle_in (some m) plugin_id = Dict.lookup plugin_id m.active_runtimes

abbrev pub handle_of : Core → String → Option RuntimeHandle
handle_of c plugin_id = handle_in c.manager plugin_id

module _ (E : Env) {F : Type 0} where
  -- `get_plugin_runtime_manager`
  unfoldable pub get_plugin_runtime_manager : Exec E F (Option PluginRuntimeManager)
  get_plugin_runtime_manager = gets (λ c. c.manager)

  unfoldable pub set_runtime_handle : String → RuntimeHandle → Exec E F Unit
  set_runtime_handle plugin_id handle = modify (on_runtimes (Dict.insert plugin_id handle))

  unfoldable pub get_runtime_handle : String → Exec E F (Option RuntimeHandle)
  get_runtime_handle plugin_id = gets (λ c. handle_of c plugin_id)

  -- `DashMap::remove`: the handle is read and taken in one step
  unfoldable pub remove_runtime_handle : String → Exec E F (Option RuntimeHandle)
  remove_runtime_handle plugin_id = do
    handle ← gets (λ c. handle_of c plugin_id)
    modify (on_runtimes (Dict.remove plugin_id))
    pure handle

module _ (E : Env) where
  create_config_file : String → Bool → Exec E String Unit
  create_config_file config_file true = pure tt
  create_config_file config_file false =
      map_error (λ e. "failed to create plugin config file '" <> config_file <> "': " <> e)
        (os (E.write_text config_file "# plugin config\n"))

  -- `ensure_plugin_config_paths`: the directory and the file, which are there afterwards
  unfoldable pub ensure_plugin_config_paths :
      PluginRuntimeManager → String → Exec E String (String × String)
  unfolding sanitize_component create_config_file
  ensure_plugin_config_paths manager plugin_id = do
    let config_dir = join manager.snapshot.layout.config_dir (sanitize_component plugin_id)
    map_error (λ e. "failed to create plugin config dir '" <> config_dir <> "': " <> e)
        (os (E.create_dir_all config_dir))
    let config_file = join config_dir "config.toml"
    there ←
        map_error (λ e. "failed to check plugin config file '" <> config_file <> "': " <> e)
          (os (E.try_exists config_file))
    create_config_file config_file there
    pure (config_dir, config_file)
