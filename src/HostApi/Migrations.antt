-- ===== src/HostApi/Migrations.antt =====
-- src/host_api.rs: the states of a plugin's migrations.
pub mod Execute
use yh_extension_manager_v.Prelude.{
  ℕ, String, ◌<>◌, ◌&&◌, Bool, Option, none, some, List, [], ◌∷◌, ◌++◌, map, ◌==◌,
}
use yh_extension_manager_v.Prelude.Rows.{select, select_one, update_one}
use yh_extension_manager_v.Manifest.{PluginPermission}
use yh_extension_manager_v.Entities.{PluginMigrationState}
use yh_extension_manager_v.World.{
  Env, Exec, pure, or_raise, lift, step, query, statement, map_error, ◌>>=◌, ◌>>◌,
}
use yh_extension_manager_v.Handlers.{AppError, ErrorCode, app_error, internal}
use yh_extension_manager_v.HostApi.{RequestContext}
use yh_extension_manager_v.HostApi.Auth.{
  require_plugin_or_user, require_permission, validate_host_plugin_identifier,
}

pub record HostMigrationStateUpsertRequest : Type 0 where
  pub plugin_id : String
  pub scope : String
  pub migration_key : String
  pub state_json : String

pub record HostMigrationStateQuery : Type 0 where
  pub plugin_id : String
  pub scope : String
  pub migration_key : String

pub record HostMigrationStateResponse : Type 0 where
  pub plugin_id : String
  pub scope : String
  pub migration_key : String
  pub state_json : String

pub record HostMigrationStateListQuery : Type 0 where
  pub plugin_id : String
  pub scope : String

pub record HostMigrationStateListResponse : Type 0 where
  pub states : List HostMigrationStateResponse

-- A migration: its plugin, scope and key.
pub record MigrationId : Type 0 where
  pub plugin_id : String
  pub scope : String
  pub migration_key : String

abbrev pub is_migration : MigrationId → PluginMigrationState → Bool
is_migration id s =
    s.plugin_id == id.plugin_id && s.scope == id.scope && s.migration_key == id.migration_key

unfoldable pub migration_response : PluginMigrationState → HostMigrationStateResponse
migration_response model = record {
  plugin_id = model.plugin_id;
  scope = model.scope;
  migration_key = model.migration_key;
  state_json = model.state_json;
}

abbrev pub set_state : ℕ → String → PluginMigrationState → PluginMigrationState
set_state now state_json s = record s { state_json = state_json; updated_at = now }

module _ (E : Env) where
  -- The checks that the requests about one migration begin with, the permission among them.
  unfoldable pub migration_id :
      RequestContext → String → String → String → Exec E AppError MigrationId
  migration_id ctx plugin scope key = do
    lift (require_plugin_or_user ctx)
    plugin_id ← lift (validate_host_plugin_identifier plugin "plugin_id")
    scope ← lift (validate_host_plugin_identifier scope "scope")
    migration_key ← lift (validate_host_plugin_identifier key "migration_key")
    require_permission E plugin_id PluginPermission.db_sqlite
    pure (record { plugin_id = plugin_id; scope = scope; migration_key = migration_key })

  unfoldable pub find_migration : MigrationId → Exec E AppError (Option PluginMigrationState)
  find_migration id =
      map_error (λ e. internal ("failed to query migration state: " <> e))
        (query (λ db. select_one (is_migration id) db.migration_states))

  unfoldable pub update_migration :
      MigrationId → String → ℕ → PluginMigrationState → Exec E AppError PluginMigrationState
  update_migration id state_json now existing =
      map_error (λ e. internal ("failed to update migration state: " <> e))
        (statement (λ db. (
          set_state now state_json existing,
          record db {
            migration_states =
                update_one (is_migration id) (set_state now state_json) db.migration_states;
          },
        )))

  unfoldable pub insert_migration : PluginMigrationState → Exec E AppError PluginMigrationState
  insert_migration row =
      map_error (λ e. internal ("failed to insert migration state: " <> e))
        (statement (λ db. (row, record db { migration_states = db.migration_states ++ row ∷ [] })))

  unfoldable pub save_migration :
      MigrationId → String → ℕ → Option PluginMigrationState → Exec E AppError PluginMigrationState
  unfolding update_migration insert_migration
  save_migration id state_json now (some existing) = update_migration id state_json now existing
  save_migration id state_json now none = do
    uuid ← step E.uuid_v7
    insert_migration (record {
      id = uuid;
      plugin_id = id.plugin_id;
      scope = id.scope;
      migration_key = id.migration_key;
      state_json = state_json;
      created_at = now;
      updated_at = now;
    })

  unfoldable pub upsert_migration_state :
      RequestContext → HostMigrationStateUpsertRequest → Exec E AppError HostMigrationStateResponse
  unfolding migration_id find_migration save_migration migration_response
  upsert_migration_state ctx payload = do
    id ← migration_id ctx payload.plugin_id payload.scope payload.migration_key
    existing ← find_migration id
    now ← step E.now
    model ← save_migration id payload.state_json now existing
    pure (migration_response model)

  unfoldable pub get_migration_state :
      RequestContext → HostMigrationStateQuery → Exec E AppError HostMigrationStateResponse
  unfolding migration_id find_migration migration_response
  get_migration_state ctx request = do
    id ← migration_id ctx request.plugin_id request.scope request.migration_key
    found ← find_migration id
    model ← or_raise found (app_error ErrorCode.not_found "migration state not found")
    pure (migration_response model)

  unfoldable pub list_migration_states :
      RequestContext → HostMigrationStateListQuery → Exec E AppError HostMigrationStateListResponse
  unfolding migration_response
  list_migration_states ctx request = do
    lift (require_plugin_or_user ctx)
    plugin_id ← lift (validate_host_plugin_identifier request.plugin_id "plugin_id")
    scope ← lift (validate_host_plugin_identifier request.scope "scope")
    require_permission E plugin_id PluginPermission.db_sqlite
    rows ←
        map_error (λ e. internal ("failed to list migration states: " <> e))
          (query
            (λ db. select (λ s. s.plugin_id == plugin_id && s.scope == scope) db.migration_states))
    pure (record { states = map migration_response rows })
