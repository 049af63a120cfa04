-- ===== src/Handlers/Uninstall.antt =====
-- src/handlers.rs: `uninstall_plugin`.
pub mod Rows
pub mod Gone
pub mod Orphan
use yh_extension_manager_v.Prelude.{
  String, ◌<>◌, Bool, true, false, Option, none, some, List, [], ◌∷◌, if◌then◌else◌,
}
use yh_extension_manager_v.Prelude.Outcome.{Result, ok, err}
use yh_extension_manager_v.FilePath.{join}
use yh_extension_manager_v.Entities.{PluginRegistry, PluginVersion, RuntimeHandle, RuntimeStatus}
use yh_extension_manager_v.World.{
  Env, Command, PluginRuntimeManager, RuntimeDirectoryLayout, Exec, pure, or_raise, os, observe,
  attempt, map_error, ◌>>=◌, ◌>>◌,
}
use yh_extension_manager_v.Registry.{
  get_registry_by_id, get_version_by_plugin_and_version, append_audit_log,
  delete_plugin_permission_grants_all, delete_plugin_versions, delete_plugin_tasks,
  delete_plugin_nav_items, delete_plugin_shared_records, delete_plugin_migration_states,
  delete_plugin_registry,
}
use yh_extension_manager_v.Manager.{
  sanitize_component, get_plugin_runtime_manager, remove_runtime_handle,
}
use yh_extension_manager_v.Handlers.{
  ErrorCode, AppError, app_error, internal, map_db_error, RequestContext,
}
use yh_extension_manager_v.Handlers.Lifecycle.{stop_runtime}

abbrev is_true : Result String Bool → Bool
is_true (ok b) = b
is_true (err _) = false

-- `pkill -f runtime_dir`
pkill : String → Command
pkill runtime_dir = record {
  program = "pkill";
  args = "-f" ∷ runtime_dir ∷ [];
  env = [];
  cwd = none;
  log_file = none;
  own_group = false;
}

-- The directories of a plugin in the layout, in the order in which they are removed.
unfoldable pub plugin_dirs : RuntimeDirectoryLayout → String → List String
plugin_dirs layout plugin_component =
    join layout.packages_dir plugin_component
    ∷ join layout.config_dir plugin_component
    ∷ join layout.state_dir plugin_component
    ∷ join layout.logs_dir plugin_component
    ∷ join layout.runtime_dir plugin_component
    ∷ join layout.shared_dir plugin_component
    ∷ []

module _ (E : Env) where
  pub stop_taken : Option PluginRuntimeManager → Option RuntimeHandle → Exec E AppError Unit
  unfolding stop_runtime
  stop_taken (some manager) (some handle) =
      map_error internal (stop_runtime E handle manager.snapshot.docker_engine_command)
  stop_taken _ _ = pure tt

  -- the runtime's handle is taken out of the map, and the runtime is stopped
  unfoldable pub stop_active_runtime : String → Exec E AppError Unit
  unfolding stop_taken
  stop_active_runtime plugin_id = do
    manager ← get_plugin_runtime_manager E
    taken ← remove_runtime_handle E plugin_id
    stop_taken manager taken

  -- `if try_exists(&dir).unwrap_or(false) { let _ = remove_dir_all(&dir); }`
  remove_if_there : String → Exec E AppError Unit
  remove_if_there dir = do
    there ← attempt (os (E.try_exists dir))
    if is_true there then (do attempt (os (E.remove_dir_all dir)); pure tt) else pure tt

  remove_all : List String → Exec E AppError Unit
  unfolding remove_if_there
  remove_all [] = pure tt
  remove_all (dir ∷ dirs) = do remove_if_there dir; remove_all dirs

  remove_sqlite_of : String → Option String → Exec E AppError Unit
  unfolding remove_if_there sanitize_component
  remove_sqlite_of plugin_id none = pure tt
  remove_sqlite_of plugin_id (some temp_dir) =
      remove_if_there
        (join (join (join temp_dir "extension") "sqlite") (sanitize_component plugin_id))

  unfoldable pub remove_sqlite : String → Exec E AppError Unit
  unfolding remove_sqlite_of
  remove_sqlite plugin_id = do
    temp_dir ← observe E.system_temp_dir
    remove_sqlite_of plugin_id temp_dir

  -- `stop_lingering_runtime_processes` only logs what goes wrong
  remove_package : Option PluginVersion → Exec E AppError Unit
  unfolding pkill remove_if_there
  remove_package none = pure tt
  remove_package (some row) = do
    attempt (os (E.status (pkill (join row.package_path "runtime"))))
    remove_if_there row.package_path

  unfoldable pub remove_current_package : String → Option String → Exec E AppError Unit
  unfolding remove_package
  remove_current_package plugin_id none = pure tt
  remove_current_package plugin_id (some version) = do
    row ←
        map_error (map_db_error "Failed to load plugin version")
          (get_version_by_plugin_and_version E plugin_id version)
    remove_package row

  remove_dirs_of : String → Option PluginRuntimeManager → Exec E AppError Unit
  unfolding remove_all plugin_dirs sanitize_component
  remove_dirs_of plugin_id none = pure tt
  remove_dirs_of plugin_id (some manager) =
      remove_all (plugin_dirs manager.snapshot.layout (sanitize_component plugin_id))

  unfoldable pub remove_dirs : String → Exec E AppError Unit
  unfolding remove_dirs_of
  remove_dirs plugin_id = do
    manager ← get_plugin_runtime_manager E
    remove_dirs_of plugin_id manager

  -- the deletions of the last part, each of which may fail unseen
  unfoldable pub delete_all_rows : String → Exec E AppError Unit
  delete_all_rows plugin_id = do
    attempt (delete_plugin_permission_grants_all E plugin_id)
    attempt (delete_plugin_versions E plugin_id)
    attempt (delete_plugin_tasks E plugin_id)
    attempt (delete_plugin_nav_items E plugin_id)
    attempt (delete_plugin_shared_records E plugin_id)
    attempt (delete_plugin_migration_states E plugin_id)
    attempt (delete_plugin_registry E plugin_id)
    pure tt

  unfoldable pub log_uninstall : RequestContext → String → Exec E AppError Unit
  log_uninstall ctx plugin_id = do
    attempt
        (append_audit_log E plugin_id "uninstall" ("Uninstalled plugin " <> plugin_id) ctx.user_id)
    pure tt

  unfoldable pub delete_rows : RequestContext → String → Exec E AppError Unit
  unfolding delete_all_rows log_uninstall
  delete_rows ctx plugin_id = do delete_all_rows plugin_id; log_uninstall ctx plugin_id

  unfoldable pub uninstall_plugin : RequestContext → String → Exec E AppError RuntimeHandle
  unfolding stop_active_runtime remove_sqlite remove_current_package remove_dirs delete_rows
  uninstall_plugin ctx plugin_id = do
    stop_active_runtime plugin_id
    remove_sqlite plugin_id
    found ←
        map_error (map_db_error "Failed to load plugin registry") (get_registry_by_id E plugin_id)
    plugin ←
        or_raise found (app_error ErrorCode.not_found ("Plugin '" <> plugin_id <> "' not found"))
    remove_current_package plugin_id plugin.current_version
    remove_dirs plugin_id
    delete_rows ctx plugin_id
    pure (record {
      plugin_id = plugin_id;
      runtime_kind = plugin.runtime_kind;
      status = RuntimeStatus.stopped;
      detail = "";
      pid = none;
      instance_ref = none;
      route_base_url = none;
    })
