-- ===== src/HostApi/Tasks.antt =====
-- src/host_api.rs: the tasks of a plugin.
use yh_extension_manager_v.Prelude.{
  ℕ, String, ◌<>◌, ◌&&◌, Bool, Option, none, some, List, [], ◌∷◌, ◌++◌, map, ◌==◌,
}
use yh_extension_manager_v.Prelude.Rows.{select, select_one, update_one}
use yh_extension_manager_v.Manifest.{PluginPermission}
use yh_extension_manager_v.Entities.{PluginTask}
use yh_extension_manager_v.World.{
  Env, Exec, pure, lift, step, query, statement, map_error, ◌>>=◌, ◌>>◌,
}
use yh_extension_manager_v.Handlers.{AppError, internal}
use yh_extension_manager_v.HostApi.{RequestContext}
use yh_extension_manager_v.HostApi.Auth.{
  require_plugin_or_user, require_permission, validate_host_plugin_identifier,
}

pub record HostTaskUpsertRequest : Type 0 where
  pub plugin_id : String
  pub task_key : String
  pub mode : String
  pub status : String
  pub cron : Option String
  pub last_error : Option String

pub record HostTaskResponse : Type 0 where
  pub plugin_id : String
  pub task_key : String
  pub mode : String
  pub status : String
  pub cron : Option String
  pub last_error : Option String

pub record HostTaskListQuery : Type 0 where
  pub plugin_id : String

pub record HostTaskListResponse : Type 0 where
  pub tasks : List HostTaskResponse

abbrev pub is_task : String → String → PluginTask → Bool
is_task plugin_id task_key t = t.plugin_id == plugin_id && t.task_key == task_key

unfoldable pub task_response : PluginTask → HostTaskResponse
task_response model = record {
  plugin_id = model.plugin_id;
  task_key = model.task_key;
  mode = model.mode;
  status = model.status;
  cron = model.cron;
  last_error = model.last_error;
}

abbrev pub set_task : ℕ → HostTaskUpsertRequest → PluginTask → PluginTask
set_task now payload t = record t {
  mode = payload.mode;
  status = payload.status;
  cron = payload.cron;
  last_error = payload.last_error;
  updated_at = now;
}

abbrev pub new_task : String → String → HostTaskUpsertRequest → ℕ → String → PluginTask
new_task plugin_id task_key payload now uuid = record {
  id = uuid;
  plugin_id = plugin_id;
  task_key = task_key;
  mode = payload.mode;
  status = payload.status;
  cron = payload.cron;
  last_error = payload.last_error;
  created_at = now;
  updated_at = now;
}

module _ (E : Env) where
  unfoldable pub save_task :
      String → String → HostTaskUpsertRequest → ℕ → Option PluginTask → Exec E AppError PluginTask
  save_task plugin_id task_key payload now (some existing) =
      map_error (λ e. internal ("failed to update plugin task: " <> e))
        (statement (λ db. (
          set_task now payload existing,
          record db {
            tasks = update_one (is_task plugin_id task_key) (set_task now payload) db.tasks;
          },
        )))
  save_task plugin_id task_key payload now none = do
    uuid ← step E.uuid_v7
    map_error (λ e. internal ("failed to insert plugin task: " <> e))
        (statement (λ db. (
          new_task plugin_id task_key payload now uuid,
          record db { tasks = db.tasks ++ new_task plugin_id task_key payload now uuid ∷ [] },
        )))

  unfoldable pub upsert_task :
      RequestContext → HostTaskUpsertRequest → Exec E AppError HostTaskResponse
  unfolding save_task task_response
  upsert_task ctx payload = do
    lift (require_plugin_or_user ctx)
    plugin_id ← lift (validate_host_plugin_identifier payload.plugin_id "plugin_id")
    task_key ← lift (validate_host_plugin_identifier payload.task_key "task_key")
    require_permission E plugin_id PluginPermission.scheduler
    existing ←
        map_error (λ e. internal ("failed to query plugin task: " <> e))
          (query (λ db. select_one (is_task plugin_id task_key) db.tasks))
    now ← step E.now
    model ← save_task plugin_id task_key payload now existing
    pure (task_response model)

  unfoldable pub list_tasks :
      RequestContext → HostTaskListQuery → Exec E AppError HostTaskListResponse
  unfolding task_response
  list_tasks ctx request = do
    lift (require_plugin_or_user ctx)
    plugin_id ← lift (validate_host_plugin_identifier request.plugin_id "plugin_id")
    require_permission E plugin_id PluginPermission.scheduler
    rows ←
        map_error (λ e. internal ("failed to list plugin tasks: " <> e))
          (query (λ db. select (λ t. t.plugin_id == plugin_id) db.tasks))
    pure (record { tasks = map task_response rows })
