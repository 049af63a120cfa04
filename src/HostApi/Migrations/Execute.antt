-- ===== src/HostApi/Migrations/Execute.antt =====
-- src/host_api.rs: running the SQL of a migration that a plugin's package brings.
pub mod Executed
pub mod Recorded
pub mod Loaded
pub mod Applied
use Prim.Native.Char.{Char, code}
use yh_extension_manager_v.Prelude.{
  ℕ, zero, suc, String, ◌<>◌, Bool, true, false, Option, none, some, List, [], ◌∷◌, length,
  is_empty, nat_eq, if◌then◌else◌,
}
use yh_extension_manager_v.Text.{str_is_empty, trim, ends_with}
use yh_extension_manager_v.FilePath.{join}
use yh_extension_manager_v.Entities.{PluginMigrationState}
use yh_extension_manager_v.World.{
  Env, Exec, pure, raise_if, or_raise, os, step, statement, map_error, ◌>>=◌, ◌>>◌,
}
use yh_extension_manager_v.Registry.{get_registry_by_id, get_version_by_plugin_and_version}
use yh_extension_manager_v.Handlers.{AppError, ErrorCode, app_error, internal}
use yh_extension_manager_v.HostApi.{Services, RequestContext}
use yh_extension_manager_v.HostApi.Migrations.{
  MigrationId, migration_id, find_migration, update_migration, insert_migration,
}

pub record HostMigrationExecuteRequest : Type 0 where
  pub plugin_id : String
  pub scope : String
  pub migration_key : String
  pub description : Option String

pub record HostMigrationExecuteResponse : Type 0 where
  pub plugin_id : String
  pub scope : String
  pub migration_key : String
  pub status : String
  pub state_json : String
  pub executed_statements : ℕ

abbrev cons_first : Char → List String → List String
cons_first c [] = String.◌∷◌ c String.[] ∷ []
cons_first c (part ∷ parts) = String.◌∷◌ c part ∷ parts

-- `str::split` at each `;` that a line break follows
unfoldable pub split_lines : String → List String
split_lines String.[] = String.[] ∷ []
split_lines (String.◌∷◌ c String.[]) = String.◌∷◌ c String.[] ∷ []
split_lines (String.◌∷◌ c (String.◌∷◌ d s)) =
    let after = split_lines s in
    let rest = split_lines (String.◌∷◌ d s) in
    if nat_eq (code c) b';'
    then if nat_eq (code d) b'\n' then String.[] ∷ after else cons_first c rest
    else cons_first c rest

unfoldable pub end_statement : String → String
end_statement stmt = if ends_with stmt ";" then stmt else stmt <> ";"

-- `.map(str::trim).filter(..).map(..)`
unfoldable pub statements_of : List String → List String
unfolding end_statement
statements_of [] = []
statements_of (part ∷ parts) =
    let rest = statements_of parts in
    if str_is_empty (trim part) then rest else end_statement (trim part) ∷ rest

unfoldable pub split_sql_statements : String → List String
unfolding split_lines statements_of
split_sql_statements sql = statements_of (split_lines sql)

module _ (E : Env) where
  unfoldable pub load_installed_migration_sql : MigrationId → Exec E String String
  load_installed_migration_sql id = do
    found ←
        map_error (λ e. "failed to load plugin registry: " <> e) (get_registry_by_id E id.plugin_id)
    plugin ← or_raise found ("plugin '" <> id.plugin_id <> "' not found")
    current_version ←
        or_raise plugin.current_version ("plugin '" <> id.plugin_id <> "' has no installed version")
    stored ←
        map_error (λ e. "failed to load plugin version: " <> e)
          (get_version_by_plugin_and_version E id.plugin_id current_version)
    version ←
        or_raise stored
          ("plugin '" <> id.plugin_id <> "' version '" <> current_version <> "' not found")
    let path =
        join (join (join version.package_path "migrations") id.scope) (id.migration_key <> ".sql")
    map_error (λ e. "failed to read migration file '" <> path <> "': " <> e)
        (os (E.read_to_string path))

module _ {E : Env} (S : Services E) where
  -- The loop over the statements, which the first failure ends.
  unfoldable pub execute_all : List String → Exec E AppError Unit
  execute_all [] = pure tt
  execute_all (sql ∷ rest) = do
    map_error (λ e. internal ("migration execution failed: " <> e))
        (statement (λ db. (tt, S.execute sql db)))
    execute_all rest

  -- The row is made before the query, and its identifier and times with it.
  unfoldable pub store_migration :
      MigrationId
      → String
      → PluginMigrationState
      → Option PluginMigrationState
      → Exec E AppError PluginMigrationState
  unfolding update_migration insert_migration
  store_migration id state_json model (some existing) = do
    updated_at ← step E.now
    update_migration E id state_json updated_at existing
  store_migration id state_json model none = insert_migration E model

  unfoldable pub record_migration :
      MigrationId → Option String → ℕ → Exec E AppError PluginMigrationState
  unfolding find_migration store_migration
  record_migration id description executed = do
    applied_at ← step E.now
    let state_json = S.applied_json description applied_at executed
    uuid ← step E.uuid_v7
    created_at ← step E.now
    updated_at ← step E.now
    existing ← find_migration E id
    store_migration id state_json
        (record {
          id = uuid;
          plugin_id = id.plugin_id;
          scope = id.scope;
          migration_key = id.migration_key;
          state_json = state_json;
          created_at = created_at;
          updated_at = updated_at;
        })
        existing

  unfoldable pub run_statements :
      MigrationId → Option String → String → Exec E AppError HostMigrationExecuteResponse
  unfolding execute_all record_migration
  run_statements id description sql = do
    execute_all (split_sql_statements sql)
    stored ← record_migration id description (length (split_sql_statements sql))
    pure (record {
      plugin_id = stored.plugin_id;
      scope = stored.scope;
      migration_key = stored.migration_key;
      status = "applied";
      state_json = stored.state_json;
      executed_statements = length (split_sql_statements sql);
    })

  -- from the loading of the file on
  unfoldable pub execute_loaded :
      MigrationId → Option String → Exec E AppError HostMigrationExecuteResponse
  unfolding load_installed_migration_sql split_sql_statements run_statements
  execute_loaded id description = do
    sql ← map_error internal (load_installed_migration_sql E id)
    raise_if (is_empty (split_sql_statements sql))
        (app_error ErrorCode.bad_request "migration file is empty")
    run_statements id description sql

  unfoldable pub execute_migration :
      RequestContext → HostMigrationExecuteRequest → Exec E AppError HostMigrationExecuteResponse
  unfolding migration_id execute_loaded
  execute_migration ctx payload = do
    id ← migration_id E ctx payload.plugin_id payload.scope payload.migration_key
    execute_loaded id payload.description
