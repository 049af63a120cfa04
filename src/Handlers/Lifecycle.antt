-- ===== src/Handlers/Lifecycle.antt =====
-- src/handlers.rs: `start_plugin_runtime` and `stop_plugin_runtime`.
pub mod Quiet
pub mod Start
pub mod Started
pub mod Stop
pub mod Stopped
use Prim.Native.Char.{code}
use yh_extension_manager_v.Prelude.{
  ℕ, String, ◌<>◌, ◌≡◌, Bool, true, false, not, Option, none, some, List, [], ◌∷◌, ◌==◌, unwrap_or,
  if◌then◌else◌,
}
use yh_extension_manager_v.Prelude.Int.{ℤ, pos}
use yh_extension_manager_v.Prelude.Outcome.{Result, ok, err}
use yh_extension_manager_v.Text.{contains}
use yh_extension_manager_v.Text.Trim.{is_blank}
use yh_extension_manager_v.Manifest.{PluginManifest, PluginRuntimeManifest, PluginUiManifest}
use yh_extension_manager_v.Entities.{PluginRegistry, RuntimeHandle}
use yh_extension_manager_v.World.{
  Env, PluginRuntimeManager, Exec, pure, raise, raise_if, or_raise, attempt, map_error, ◌>>=◌, ◌>>◌,
}
use yh_extension_manager_v.Registry.{
  UpsertNavItemInput, get_registry_by_id, get_version_by_plugin_and_version,
  update_plugin_runtime_state, append_audit_log, upsert_plugin_nav_item,
}
use yh_extension_manager_v.Manager.{
  get_plugin_runtime_manager, set_runtime_handle, remove_runtime_handle, ensure_plugin_config_paths,
}
use yh_extension_manager_v.Installer.{pending, installed, running}
use yh_extension_manager_v.Installer.Manifest.{read_manifest_from_package_dir}
use yh_extension_manager_v.Runtime.{Launch}
use yh_extension_manager_v.Runtime.Process.{start_process_runtime, stop_process_runtime}
use yh_extension_manager_v.Runtime.Wasm.{
  start_wasm_module_runtime, start_wasm_component_runtime, stop_wasm_runtime,
}
use yh_extension_manager_v.Runtime.Docker.{start_docker_runtime, stop_docker_runtime}
use yh_extension_manager_v.Handlers.{
  ErrorCode, AppError, app_error, internal, map_db_error, RequestContext,
}

unfoldable pub default_nav_icon : String → String
unfolding contains
default_nav_icon plugin_id =
    if contains plugin_id "chat"
    then "MessageSquare"
    else if contains plugin_id "email"
    then "Mail"
    else if contains plugin_id "todo"
    then "ListTodo"
    else "PlugZap"

-- `mount_path.filter(|value| !value.trim().is_empty()).unwrap_or("/")`
abbrev mount_route : Option String → String
mount_route none = "/"
mount_route (some path) = if is_blank path then "/" else path

default_nav_item : String → PluginManifest → PluginUiManifest → UpsertNavItemInput
unfolding default_nav_icon
default_nav_item plugin_id manifest ui = record {
  plugin_id = plugin_id;
  item_key = "main";
  label = manifest.name;
  route = mount_route ui.mount_path;
  icon = default_nav_icon plugin_id;
  visibility = "user";
  group_key = some "plugins";
  position = some "sidebar";
  required_permission = none;
  sort_order = pos 100;
}

-- What `start_plugin_runtime` has read before it changes anything.
pub record Startable : Type 0 where
  pub manager : PluginRuntimeManager
  pub plugin : PluginRegistry
  pub install_root : String
  pub manifest : PluginManifest
  pub config_dir : String
  pub config_file : String

module _ (E : Env) where
  ensure_nav_item_of : String → PluginManifest → Option PluginUiManifest → Exec E AppError Unit
  unfolding default_nav_item
  ensure_nav_item_of plugin_id manifest none = pure tt
  ensure_nav_item_of plugin_id manifest (some ui) = do
    attempt (upsert_plugin_nav_item E (default_nav_item plugin_id manifest ui))
    pure tt

  pub ensure_default_nav_item : String → PluginManifest → Exec E AppError Unit
  unfolding ensure_nav_item_of
  ensure_default_nav_item plugin_id manifest = ensure_nav_item_of plugin_id manifest manifest.ui

  -- the checks and reads in front of the first change
  pub load_startable : String → Exec E AppError Startable
  load_startable plugin_id = do
    found_manager ← get_plugin_runtime_manager E
    manager ← or_raise found_manager (internal "plugin runtime manager is not initialized")
    found ←
        map_error (map_db_error "Failed to load plugin registry") (get_registry_by_id E plugin_id)
    plugin ←
        or_raise found (app_error ErrorCode.not_found ("Plugin '" <> plugin_id <> "' not found"))
    raise_if (plugin.install_status == pending) (
        app_error ErrorCode.bad_request (
          "Plugin '" <> plugin_id <> "' is in 'pending' state and has not been fully materialized"))
    raise_if (plugin.install_status == running)
        (app_error ErrorCode.bad_request ("Plugin '" <> plugin_id <> "' is already running"))
    version ←
        or_raise plugin.current_version (
          app_error ErrorCode.bad_request ("Plugin '" <> plugin_id <> "' has no installed version"))
    found_version ←
        map_error (map_db_error "Failed to load plugin version")
          (get_version_by_plugin_and_version E plugin_id version)
    version_row ← or_raise found_version (
        app_error ErrorCode.not_found
          ("Plugin '" <> plugin_id <> "' current version record not found"))
    let install_root = version_row.package_path
    manifest ←
        map_error (app_error ErrorCode.bad_request) (read_manifest_from_package_dir E install_root)
    paths ← map_error internal (ensure_plugin_config_paths E manager plugin_id)
    pure (record {
      manager = manager;
      plugin = plugin;
      install_root = install_root;
      manifest = manifest;
      config_dir = paths.0;
      config_file = paths.1;
    })

  abbrev launch_of : Startable → Launch
  launch_of s = record {
    host_api_base_url = s.manager.snapshot.host_api_base_url;
    host_api_token = s.manager.host_api_secret;
    plugin_config_dir = s.config_dir;
    plugin_config_file = s.config_file;
  }

  -- the match on the kind of runtime
  pub start_runtime : String → Startable → PluginRuntimeManifest → Exec E String RuntimeHandle
  start_runtime plugin_id s (PluginRuntimeManifest.process r) =
      start_process_runtime E plugin_id s.install_root r (launch_of s)
        s.manager.snapshot.layout.logs_dir
  start_runtime plugin_id s (PluginRuntimeManifest.docker r) =
      start_docker_runtime E plugin_id s.install_root r s.manager.snapshot.docker_engine_command
        (launch_of s)
  start_runtime plugin_id s (PluginRuntimeManifest.wasm_component r) =
      start_wasm_component_runtime E plugin_id s.install_root r (launch_of s)
  start_runtime plugin_id s (PluginRuntimeManifest.wasm_module r) =
      start_wasm_module_runtime E plugin_id s.install_root r (launch_of s)

  pub report_start :
      RequestContext → String → Startable → RuntimeHandle → Exec E AppError RuntimeHandle
  unfolding ensure_default_nav_item
  report_start ctx plugin_id s handle = do
    ensure_default_nav_item plugin_id s.manifest
    attempt (append_audit_log E plugin_id "start" ("Started plugin " <> plugin_id) ctx.user_id)
    pure handle

  pub report_failed_start :
      RequestContext → String → Startable → String → Exec E AppError RuntimeHandle
  report_failed_start ctx plugin_id s e = do
    attempt (
        append_audit_log E plugin_id "start"
          ("Failed to start plugin " <> plugin_id <> ": " <> e <> ". State rolled back to '"
            <> s.plugin.install_status <> "'")
          ctx.user_id)
    raise (internal e)

  -- the match on its result: the handle is kept, or the registry is rolled back
  unfoldable pub settle_start :
      RequestContext
      → String
      → Startable
      → Result String RuntimeHandle
      → Exec E AppError RuntimeHandle
  unfolding report_start report_failed_start
  settle_start ctx plugin_id s (ok handle) = do
    set_runtime_handle E plugin_id handle
    report_start ctx plugin_id s handle
  settle_start ctx plugin_id s (err e) = do
    attempt (update_plugin_runtime_state E plugin_id s.plugin.enabled s.plugin.install_status)
    report_failed_start ctx plugin_id s e

  unfoldable pub start_plugin_runtime : RequestContext → String → Exec E AppError RuntimeHandle
  unfolding load_startable start_runtime settle_start
  start_plugin_runtime ctx plugin_id = do
    s ← load_startable plugin_id
    attempt (update_plugin_runtime_state E plugin_id true running)
    result ← attempt (start_runtime plugin_id s s.manifest.runtime)
    settle_start ctx plugin_id s result

  -- the match on `handle.runtime_kind`
  unfoldable pub stop_runtime : RuntimeHandle → String → Exec E String Unit
  stop_runtime handle docker_engine_command =
      if handle.runtime_kind == "process"
      then stop_process_runtime E handle
      else if handle.runtime_kind == "docker"
      then stop_docker_runtime E handle docker_engine_command
      else if handle.runtime_kind == "wasm-component"
      then stop_wasm_runtime E handle
      else if handle.runtime_kind == "wasm-module"
      then stop_wasm_runtime E handle
      else pure tt

  pub report_stop : RequestContext → String → RuntimeHandle → Exec E AppError RuntimeHandle
  report_stop ctx plugin_id handle = do
    attempt (append_audit_log E plugin_id "stop" ("Stopped plugin " <> plugin_id) ctx.user_id)
    pure handle

  pub report_failed_stop : RequestContext → String → String → Exec E AppError RuntimeHandle
  report_failed_stop ctx plugin_id e = do
    attempt (
        append_audit_log E plugin_id "stop"
          ("Failed to stop plugin " <> plugin_id <> ": " <> e
            <> ". Handle restored, state remains 'running'")
          ctx.user_id)
    raise (internal e)

  -- the match on the result: the registry is updated, or the handle is put back
  unfoldable pub settle_stop :
      RequestContext → String → RuntimeHandle → Result String Unit → Exec E AppError RuntimeHandle
  unfolding report_stop report_failed_stop
  settle_stop ctx plugin_id handle (ok _) = do
    attempt (update_plugin_runtime_state E plugin_id false installed)
    report_stop ctx plugin_id handle
  settle_stop ctx plugin_id handle (err e) = do
    set_runtime_handle E plugin_id handle
    report_failed_stop ctx plugin_id e

  -- the checks in front of the first change of `stop_plugin_runtime`
  pub load_stoppable : String → Exec E AppError PluginRuntimeManager
  load_stoppable plugin_id = do
    found_manager ← get_plugin_runtime_manager E
    manager ← or_raise found_manager (internal "plugin runtime manager is not initialized")
    found ←
        map_error (map_db_error "Failed to load plugin registry") (get_registry_by_id E plugin_id)
    plugin ←
        or_raise found (app_error ErrorCode.not_found ("Plugin '" <> plugin_id <> "' not found"))
    raise_if (not (plugin.install_status == running)) (
        app_error ErrorCode.bad_request (
          "Plugin '" <> plugin_id <> "' is not running (current status: '" <> plugin.install_status
          <> "')"))
    pure manager

  unfoldable pub stop_plugin_runtime : RequestContext → String → Exec E AppError RuntimeHandle
  unfolding load_stoppable stop_runtime settle_stop
  stop_plugin_runtime ctx plugin_id = do
    manager ← load_stoppable plugin_id
    taken ← remove_runtime_handle E plugin_id
    handle ← or_raise taken (
        app_error ErrorCode.bad_request
          ("Plugin '" <> plugin_id <> "' is not running or already being stopped"))
    result ← attempt (stop_runtime handle manager.snapshot.docker_engine_command)
    settle_stop ctx plugin_id handle result
