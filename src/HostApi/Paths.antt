-- ===== src/HostApi/Paths.antt =====
-- src/host_api.rs: the files that the host makes for a plugin, its databases and configurations.
use yh_extension_manager_v.Prelude.{String, ◌<>◌, Bool, true, false}
use yh_extension_manager_v.FilePath.{join}
use yh_extension_manager_v.Manifest.{PluginPermission}
use yh_extension_manager_v.World.{
  Env, Exec, pure, or_raise, lift, os, observe, map_error, ◌>>=◌, ◌>>◌,
}
use yh_extension_manager_v.Text.{take_chars}
use yh_extension_manager_v.Manager.{get_plugin_runtime_manager}
use yh_extension_manager_v.Handlers.{AppError, internal}
use yh_extension_manager_v.HostApi.{RequestContext}
use yh_extension_manager_v.HostApi.Auth.{
  require_user, require_plugin_or_user, require_permission, sanitize_sqlite_component,
  validate_host_plugin_identifier,
}

pub record HostDbInfoResponse : Type 0 where
  pub connection_available : Bool
  pub access_mode : String
  pub recommended_table_prefix : String

pub record HostSqliteEnsureRequest : Type 0 where
  pub plugin_id : String
  pub database_name : String

pub record HostSqliteEnsureResponse : Type 0 where
  pub plugin_id : String
  pub database_name : String
  pub logical_path : String
  pub physical_path : String
  pub dsn : String

pub record HostPluginConfigEnsureRequest : Type 0 where
  pub plugin_id : String
  pub file_name : String

pub record HostPluginConfigEnsureResponse : Type 0 where
  pub plugin_id : String
  pub config_dir : String
  pub config_file : String

module _ (E : Env) where
  unfoldable pub get_db_info : RequestContext → Exec E AppError HostDbInfoResponse
  get_db_info ctx = do
    user ← lift (require_user ctx)
    pure (record {
      connection_available = true;
      access_mode = "shared-broker";
      recommended_table_prefix = "yh_plg_" <> take_chars 8 user.user_id;
    })

  unfoldable pub create_sqlite_file : String → Bool → Exec E AppError Unit
  create_sqlite_file physical_path true = pure tt
  create_sqlite_file physical_path false =
      map_error (λ e. internal ("failed to create sqlite broker file: " <> e))
        (os (E.create_file physical_path))

  -- The directory that holds a user's databases of a plugin.
  unfoldable pub sqlite_dir : String → String → String → String
  sqlite_dir temp_dir plugin_dir user_id =
      join (join (join (join temp_dir "extension") "sqlite") plugin_dir) user_id

  unfoldable pub ensure_sqlite_database :
      RequestContext → HostSqliteEnsureRequest → Exec E AppError HostSqliteEnsureResponse
  unfolding create_sqlite_file sqlite_dir
  ensure_sqlite_database ctx payload = do
    user ← lift (require_user ctx)
    plugin_id ← lift (validate_host_plugin_identifier payload.plugin_id "plugin_id")
    require_permission E plugin_id PluginPermission.db_sqlite
    configured ← observe E.system_temp_dir
    temp_dir ← or_raise configured (internal "system config manager is not initialized")
    let plugin_dir = sanitize_sqlite_component payload.plugin_id
    let db_name = sanitize_sqlite_component payload.database_name
    let physical_dir = sqlite_dir temp_dir plugin_dir user.user_id
    map_error (λ e. internal ("failed to create sqlite broker dir: " <> e))
        (os (E.create_dir_all physical_dir))
    let physical_path = join physical_dir (db_name <> ".db")
    there ←
        map_error (λ e. internal ("failed to check sqlite broker file: " <> e))
          (os (E.try_exists physical_path))
    create_sqlite_file physical_path there
    pure (record {
      plugin_id = payload.plugin_id;
      database_name = payload.database_name;
      logical_path =
          "/.plugins/" <> plugin_dir <> "/sqlite/" <> user.user_id <> "/" <> db_name <> ".db";
      physical_path = physical_path;
      dsn = "sqlite://" <> physical_path <> "?mode=rwc";
    })

  -- `ensure_plugin_config_path`: the directory, which is there afterwards, and the file.
  unfoldable pub ensure_plugin_config_path : String → String → Exec E String (String × String)
  ensure_plugin_config_path plugin_id file_name = do
    found ← get_plugin_runtime_manager E
    manager ← or_raise found "plugin runtime manager is not initialized"
    let config_dir = join manager.snapshot.layout.config_dir (sanitize_sqlite_component plugin_id)
    map_error (λ e. "failed to create plugin config dir '" <> config_dir <> "': " <> e)
        (os (E.create_dir_all config_dir))
    pure (config_dir, join config_dir (sanitize_sqlite_component file_name))

  unfoldable pub write_config_file : String → Bool → Exec E AppError Unit
  write_config_file config_file true = pure tt
  write_config_file config_file false =
      map_error (λ e. internal ("failed to initialize plugin config file: " <> e))
        (os (E.write_text config_file "# plugin config\n"))

  unfoldable pub ensure_plugin_config_file :
      RequestContext
      → HostPluginConfigEnsureRequest
      → Exec E AppError HostPluginConfigEnsureResponse
  unfolding ensure_plugin_config_path write_config_file
  ensure_plugin_config_file ctx payload = do
    lift (require_plugin_or_user ctx)
    plugin_id ← lift (validate_host_plugin_identifier payload.plugin_id "plugin_id")
    paths ← map_error internal (ensure_plugin_config_path plugin_id payload.file_name)
    there ←
        map_error (λ e. internal ("failed to check plugin config file: " <> e))
          (os (E.try_exists paths.1))
    write_config_file paths.1 there
    pure (record { plugin_id = plugin_id; config_dir = paths.0; config_file = paths.1 })
