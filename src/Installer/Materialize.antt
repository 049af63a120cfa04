-- ===== src/Installer/Materialize.antt =====
-- src/installer.rs: `materialize_plugin_from_zip`, which runs the setup steps of a registered plugin
-- and records it as installed.
pub mod Installed
pub mod Upgrade
use yh_extension_manager_v.Prelude.{
  ℕ, String, ◌<>◌, Bool, true, false, not, Option, none, some, List, [], ◌∷◌, ◌++◌, ◌==◌, unwrap_or,
  if◌then◌else◌,
}
use yh_extension_manager_v.Prelude.Dict.{Dict}
use yh_extension_manager_v.Prelude.Outcome.{Result, ok, err, value_or}
use yh_extension_manager_v.Prelude.Rows.{select_one, update_one}
use yh_extension_manager_v.FilePath.{join}
use yh_extension_manager_v.Manifest.{PluginManifest, PluginRuntimeManifest, PluginSetupStep}
use yh_extension_manager_v.Entities.{PluginRegistry, PluginVersion, RuntimeHandle}
use yh_extension_manager_v.World.{
  Env, Exec, pure, os, step, attempt, map_error, query, statement, ◌>>=◌, ◌>>◌,
}
use yh_extension_manager_v.Runtime.Process.{prepare_process_runtime}
use yh_extension_manager_v.Runtime.Wasm.{prepare_wasm_runtime}
use yh_extension_manager_v.Runtime.Docker.{prepare_docker_runtime}
use yh_extension_manager_v.Registry.{by_id, by_version, append_audit_log}
use yh_extension_manager_v.Installer.{installed, InstallPluginResult}
use yh_extension_manager_v.Installer.Manifest.{read_manifest_from_package_dir}
use yh_extension_manager_v.Installer.Setup.{Target, execute_commands_with_overrides}

abbrev pub current_of : Option PluginRegistry → Option String
current_of none = none
current_of (some r) = r.current_version

abbrev pub set_installed : String → String → ℕ → PluginRegistry → PluginRegistry
set_installed version kind now r = record r {
  current_version = some version;
  install_status = installed;
  enabled = false;
  runtime_kind = kind;
  updated_at = now;
}

abbrev pub set_version_installed : ℕ → PluginVersion → PluginVersion
set_version_installed now v = record v { install_status = installed; installed_at = some now }

module _ (E : Env) where
  unfoldable pub prepare : String → String → PluginRuntimeManifest → Exec E String RuntimeHandle
  prepare id install_root (PluginRuntimeManifest.wasm_component r) =
      prepare_wasm_runtime E id install_root r "wasm-component"
  prepare id install_root (PluginRuntimeManifest.wasm_module r) =
      prepare_wasm_runtime E id install_root r "wasm-module"
  prepare id install_root (PluginRuntimeManifest.process r) =
      prepare_process_runtime E id install_root r
  prepare id install_root (PluginRuntimeManifest.docker r) = prepare_docker_runtime E id r

  unfoldable pub validate_prepared_runtime : PluginManifest → String → Exec E String String
  unfolding prepare
  validate_prepared_runtime manifest install_root = do
    handle ← prepare manifest.id install_root manifest.runtime
    pure handle.runtime_kind

  unfoldable pub load_current : String → Exec E String (Option PluginRegistry)
  load_current plugin_id =
      map_error (λ e. "failed to load plugin registry: " <> e)
        (query (λ db. select_one (by_id plugin_id) db.registry))

  unfoldable pub remove_old_dir : String → Bool → Exec E String Unit
  remove_old_dir old_dir true =
      map_error (λ e. "failed to remove old version dir '" <> old_dir <> "': " <> e)
        (os (E.remove_dir_all old_dir))
  remove_old_dir old_dir false = pure tt

  module _ (target : Target) (overrides : Dict String) (packages_root : String) where
    -- The setup steps of a manifest, in its package directory.
    unfoldable pub run_commands :
        PluginManifest → String → Option (List PluginSetupStep) → Exec E String Unit
    run_commands manifest package_dir commands =
        execute_commands_with_overrides E target overrides
          (record { version = manifest.version; plugin_id = manifest.id; name = manifest.name })
          package_dir (unwrap_or commands [])

    -- The upgrade, where another version was current.
    unfoldable pub upgrade_from :
        PluginManifest → String → String → String → Option String → Exec E String Unit
    unfolding run_commands remove_old_dir
    upgrade_from manifest package_dir plugin_id version none = pure tt
    upgrade_from manifest package_dir plugin_id version (some old_ver) =
        if old_ver == version then pure tt else do
          run_commands manifest package_dir manifest.upgrade_commands
          let old_dir = join (join packages_root plugin_id) old_ver
          there ← attempt (os (E.try_exists old_dir))
          remove_old_dir old_dir (value_or there false)

    -- Everything on the disk: the setup steps, the check of the runtime and the upgrade; its value
    -- is the runtime's kind.
    unfoldable pub set_up : String → String → PluginManifest → Exec E String String
    unfolding run_commands validate_prepared_runtime load_current upgrade_from
    set_up plugin_id version manifest = do
      let package_dir = join (join packages_root plugin_id) version
      run_commands manifest package_dir manifest.install_commands
      prepared_kind ← validate_prepared_runtime manifest package_dir
      previous ← load_current plugin_id
      upgrade_from manifest package_dir plugin_id version (current_of previous)
      pure prepared_kind

  unfoldable pub write_installed :
      String → String → String → ℕ → Option PluginRegistry → Exec E String Unit
  write_installed plugin_id version kind now none = pure tt
  write_installed plugin_id version kind now (some existing) =
      map_error (λ e. "failed to update plugin registry: " <> e)
        (statement (λ db. (
          tt,
          record db {
            registry = update_one (by_id plugin_id) (set_installed version kind now) db.registry;
          },
        )))

  unfoldable pub write_version_installed :
      String → String → ℕ → Option PluginVersion → Exec E String Unit
  write_version_installed plugin_id version now none = pure tt
  write_version_installed plugin_id version now (some existing) =
      map_error (λ e. "failed to update plugin version: " <> e)
        (statement (λ db. (
          tt,
          record db {
            versions =
                update_one (by_version plugin_id version) (set_version_installed now) db.versions;
          },
        )))

  -- `audit_model.insert`, whose time is that of the other rows
  unfoldable pub log_materialized : String → String → Option String → ℕ → Exec E String Unit
  log_materialized plugin_id version actor_user_id now = do
    id ← step E.uuid_v7
    map_error (λ e. "failed to insert plugin audit log: " <> e)
        (statement (λ db. (
          tt,
          record db {
            audit_logs =
                db.audit_logs
                ++ (record {
                  id = id;
                  plugin_id = plugin_id;
                  action = "materialize";
                  message = "Materialized plugin " <> plugin_id <> " " <> version;
                  actor_user_id = actor_user_id;
                  created_at = now;
                }
                    ∷ []);
          },
        )))

  unfoldable pub save_installed : String → String → String → ℕ → Exec E String Unit
  unfolding load_current write_installed
  save_installed plugin_id version kind now = do
    existing ← load_current plugin_id
    write_installed plugin_id version kind now existing

  -- What is recorded of a plugin that has been set up.
  unfoldable pub record_installed : String → String → String → Option String → Exec E String Unit
  unfolding save_installed write_version_installed log_materialized
  record_installed plugin_id version kind actor_user_id = do
    now ← step E.now
    save_installed plugin_id version kind now
    version_record ←
        map_error (λ e. "failed to find plugin version: " <> e)
          (query (λ db. select_one (by_version plugin_id version) db.versions))
    write_version_installed plugin_id version now version_record
    log_materialized plugin_id version actor_user_id now

  unfoldable pub materialize_plugin_from_zip :
      Target
      → String
      → String
      → String
      → Dict String
      → Option String
      → Exec E String InstallPluginResult
  unfolding set_up record_installed
  materialize_plugin_from_zip target packages_root plugin_id version overrides actor_user_id = do
    let package_dir = join (join packages_root plugin_id) version
    manifest ← read_manifest_from_package_dir E package_dir
    prepared_kind ← set_up target overrides packages_root plugin_id version manifest
    record_installed plugin_id version prepared_kind actor_user_id
    pure (record {
      plugin_id = plugin_id;
      version = version;
      package_dir = package_dir;
      checksum_sha256 = "";
      prepared_runtime_kind = prepared_kind;
    })
