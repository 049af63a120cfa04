-- ===== src/HostApi/Frame/Requests.antt =====
-- Every request of the host API but the execution of SQL, and what a sequence of them leaves alone.
use yh_extension_manager_v.Prelude.{String, refl, List, [], ◌∷◌, All}
use yh_extension_manager_v.World.{Env, Core, World}
use yh_extension_manager_v.HostApi.{Services, RequestContext, Headers}
use yh_extension_manager_v.HostApi.Auth.{sanitize_sqlite_component}
use yh_extension_manager_v.HostApi.Kv.{
  HostKvSetRequest, HostKvNamespaceRequest, set_kv, get_kv, delete_kv, build_kv_namespace,
}
use yh_extension_manager_v.HostApi.Users.{
  HostPermissionCheckRequest, HostNotificationSendRequest, get_identity, get_user_by_id,
  check_permission, send_notification,
}
use yh_extension_manager_v.HostApi.Vfs.{
  HostVfsReadTextQuery, HostVfsWriteTextRequest, HostVfsWriteBytesRequest, read_vfs_text,
  write_vfs_text, write_vfs_bytes,
}
use yh_extension_manager_v.HostApi.Paths.{
  HostSqliteEnsureRequest, HostPluginConfigEnsureRequest, get_db_info, ensure_sqlite_database,
  ensure_plugin_config_file,
}
use yh_extension_manager_v.HostApi.Shared.{
  HostSharedRecordUpsertRequest, HostSharedRecordQuery, HostSharedRecordListQuery,
  upsert_shared_record, get_shared_record, list_shared_records, delete_shared_record,
}
use yh_extension_manager_v.HostApi.Migrations.{
  HostMigrationStateUpsertRequest, HostMigrationStateQuery, HostMigrationStateListQuery,
  upsert_migration_state, get_migration_state, list_migration_states,
}
use yh_extension_manager_v.HostApi.Tasks.{
  HostTaskUpsertRequest, HostTaskListQuery, upsert_task, list_tasks,
}
use yh_extension_manager_v.HostApi.Nav.{
  HostNavItemUpsertRequest, HostNavItemListQuery, upsert_nav_item, list_nav_items,
}
use yh_extension_manager_v.HostApi.Quiet.{
  Keeps-set_kv, Keeps-get_kv, Keeps-delete_kv, Keeps-build_kv_namespace, Keeps-get_identity,
  Keeps-get_user_by_id, Keeps-check_permission, Keeps-send_notification, Keeps-read_vfs_text,
  Keeps-write_vfs_text, Keeps-write_vfs_bytes, Keeps-get_db_info, Keeps-ensure_sqlite_database,
  Keeps-ensure_plugin_config_file, Keeps-get_shared_record, Keeps-list_shared_records,
  Keeps-get_migration_state, Keeps-list_migration_states, Keeps-list_tasks, Keeps-list_nav_items,
}
use yh_extension_manager_v.HostApi.Frame.{
  Keeps-upsert_task, Keeps-upsert_nav_item, Keeps-upsert_shared_record, Keeps-delete_shared_record,
  Keeps-upsert_migration_state,
}
use yh_extension_manager_v.HostApi.Untouched.{Untouched, Apart}

pub data HostRequest : Type 0 where
  on_set_kv : HostKvSetRequest → HostRequest
  on_get_kv : String → HostRequest
  on_delete_kv : String → HostRequest
  on_build_kv_namespace : HostKvNamespaceRequest → HostRequest
  on_get_identity : HostRequest
  on_get_user_by_id : String → HostRequest
  on_check_permission : HostPermissionCheckRequest → HostRequest
  on_send_notification : HostNotificationSendRequest → HostRequest
  on_read_vfs_text : HostVfsReadTextQuery → HostRequest
  on_write_vfs_text : HostVfsWriteTextRequest → HostRequest
  on_write_vfs_bytes : HostVfsWriteBytesRequest → HostRequest
  on_get_db_info : HostRequest
  on_ensure_sqlite_database : HostSqliteEnsureRequest → HostRequest
  on_ensure_plugin_config_file : HostPluginConfigEnsureRequest → HostRequest
  on_upsert_shared_record : HostSharedRecordUpsertRequest → HostRequest
  on_get_shared_record : HostSharedRecordQuery → HostRequest
  on_list_shared_records : HostSharedRecordListQuery → HostRequest
  on_delete_shared_record : HostSharedRecordQuery → HostRequest
  on_upsert_migration_state : HostMigrationStateUpsertRequest → HostRequest
  on_get_migration_state : HostMigrationStateQuery → HostRequest
  on_list_migration_states : HostMigrationStateListQuery → HostRequest
  on_upsert_task : HostTaskUpsertRequest → HostRequest
  on_list_tasks : HostTaskListQuery → HostRequest
  on_upsert_nav_item : HostNavItemUpsertRequest → HostRequest
  on_list_nav_items : HostNavItemListQuery → HostRequest

-- The plugin in whose rows a request writes, if it writes any.
abbrev pub AboutOther : String → HostRequest → Type 0
AboutOther j (HostRequest.on_upsert_shared_record r) =
    Apart j (sanitize_sqlite_component r.plugin_id)
AboutOther j (HostRequest.on_delete_shared_record r) =
    Apart j (sanitize_sqlite_component r.plugin_id)
AboutOther j (HostRequest.on_upsert_migration_state r) =
    Apart j (sanitize_sqlite_component r.plugin_id)
AboutOther j (HostRequest.on_upsert_task r) = Apart j (sanitize_sqlite_component r.plugin_id)
AboutOther j (HostRequest.on_upsert_nav_item r) = Apart j (sanitize_sqlite_component r.plugin_id)
AboutOther j _ = Unit {0}

module _ {E : Env} (S : Services E) where
  -- The world after a request.
  unfoldable pub handle_host : RequestContext → Headers → HostRequest → World E → World E
  handle_host ctx headers (HostRequest.on_set_kv r) w = (set_kv S ctx headers r w).1
  handle_host ctx headers (HostRequest.on_get_kv r) w = (get_kv S ctx headers r w).1
  handle_host ctx headers (HostRequest.on_delete_kv r) w = (delete_kv S ctx headers r w).1
  handle_host ctx headers (HostRequest.on_build_kv_namespace r) w = (build_kv_namespace E ctx r w).1
  handle_host ctx headers HostRequest.on_get_identity w = (get_identity S ctx headers w).1
  handle_host ctx headers (HostRequest.on_get_user_by_id r) w = (get_user_by_id S ctx headers r w).1
  handle_host ctx headers (HostRequest.on_check_permission r) w =
      (check_permission S ctx headers r w).1
  handle_host ctx headers (HostRequest.on_send_notification r) w =
      (send_notification S ctx headers r w).1
  handle_host ctx headers (HostRequest.on_read_vfs_text r) w = (read_vfs_text S ctx r w).1
  handle_host ctx headers (HostRequest.on_write_vfs_text r) w = (write_vfs_text S ctx r w).1
  handle_host ctx headers (HostRequest.on_write_vfs_bytes r) w = (write_vfs_bytes S ctx r w).1
  handle_host ctx headers HostRequest.on_get_db_info w = (get_db_info E ctx w).1
  handle_host ctx headers (HostRequest.on_ensure_sqlite_database r) w =
      (ensure_sqlite_database E ctx r w).1
  handle_host ctx headers (HostRequest.on_ensure_plugin_config_file r) w =
      (ensure_plugin_config_file E ctx r w).1
  handle_host ctx headers (HostRequest.on_upsert_shared_record r) w =
      (upsert_shared_record E ctx r w).1
  handle_host ctx headers (HostRequest.on_get_shared_record r) w = (get_shared_record E ctx r w).1
  handle_host ctx headers (HostRequest.on_list_shared_records r) w =
      (list_shared_records E ctx r w).1
  handle_host ctx headers (HostRequest.on_delete_shared_record r) w =
      (delete_shared_record E ctx r w).1
  handle_host ctx headers (HostRequest.on_upsert_migration_state r) w =
      (upsert_migration_state E ctx r w).1
  handle_host ctx headers (HostRequest.on_get_migration_state r) w =
      (get_migration_state E ctx r w).1
  handle_host ctx headers (HostRequest.on_list_migration_states r) w =
      (list_migration_states E ctx r w).1
  handle_host ctx headers (HostRequest.on_upsert_task r) w = (upsert_task E ctx r w).1
  handle_host ctx headers (HostRequest.on_list_tasks r) w = (list_tasks E ctx r w).1
  handle_host ctx headers (HostRequest.on_upsert_nav_item r) w = (upsert_nav_item E ctx r w).1
  handle_host ctx headers (HostRequest.on_list_nav_items r) w = (list_nav_items E ctx r w).1

  unfoldable pub run_host : List (RequestContext × (Headers × HostRequest)) → World E → World E
  unfolding handle_host
  run_host [] w = w
  run_host ((ctx, (headers, r)) ∷ rs) w = run_host rs (handle_host ctx headers r w)

  handle_host-Untouched :
      (j : String) (c : Core) (ctx : RequestContext) (headers : Headers) (r : HostRequest)
      (w : World E)
      → AboutOther j r
      → Untouched j c w.core
      → Untouched j c (handle_host ctx headers r w).core
  unfolding handle_host
  handle_host-Untouched j c ctx headers (HostRequest.on_set_kv r) w a h =
      (Keeps-set_kv S {P = Untouched j c} ctx headers r).at w h
  handle_host-Untouched j c ctx headers (HostRequest.on_get_kv r) w a h =
      (Keeps-get_kv S {P = Untouched j c} ctx headers r).at w h
  handle_host-Untouched j c ctx headers (HostRequest.on_delete_kv r) w a h =
      (Keeps-delete_kv S {P = Untouched j c} ctx headers r).at w h
  handle_host-Untouched j c ctx headers (HostRequest.on_build_kv_namespace r) w a h =
      (Keeps-build_kv_namespace {P = Untouched j c} ctx r).at w h
  handle_host-Untouched j c ctx headers HostRequest.on_get_identity w a h =
      (Keeps-get_identity S {P = Untouched j c} ctx headers).at w h
  handle_host-Untouched j c ctx headers (HostRequest.on_get_user_by_id r) w a h =
      (Keeps-get_user_by_id S {P = Untouched j c} ctx headers r).at w h
  handle_host-Untouched j c ctx headers (HostRequest.on_check_permission r) w a h =
      (Keeps-check_permission S {P = Untouched j c} ctx headers r).at w h
  handle_host-Untouched j c ctx headers (HostRequest.on_send_notification r) w a h =
      (Keeps-send_notification S {P = Untouched j c} ctx headers r).at w h
  handle_host-Untouched j c ctx headers (HostRequest.on_read_vfs_text r) w a h =
      (Keeps-read_vfs_text S {P = Untouched j c} ctx r).at w h
  handle_host-Untouched j c ctx headers (HostRequest.on_write_vfs_text r) w a h =
      (Keeps-write_vfs_text S {P = Untouched j c} ctx r).at w h
  handle_host-Untouched j c ctx headers (HostRequest.on_write_vfs_bytes r) w a h =
      (Keeps-write_vfs_bytes S {P = Untouched j c} ctx r).at w h
  handle_host-Untouched j c ctx headers HostRequest.on_get_db_info w a h =
      (Keeps-get_db_info {P = Untouched j c} ctx).at w h
  handle_host-Untouched j c ctx headers (HostRequest.on_ensure_sqlite_database r) w a h =
      (Keeps-ensure_sqlite_database {P = Untouched j c} ctx r).at w h
  handle_host-Untouched j c ctx headers (HostRequest.on_ensure_plugin_config_file r) w a h =
      (Keeps-ensure_plugin_config_file {P = Untouched j c} ctx r).at w h
  handle_host-Untouched j c ctx headers (HostRequest.on_upsert_shared_record r) w a h =
      (Keeps-upsert_shared_record j c ctx r a).at w h
  handle_host-Untouched j c ctx headers (HostRequest.on_get_shared_record r) w a h =
      (Keeps-get_shared_record {P = Untouched j c} ctx r).at w h
  handle_host-Untouched j c ctx headers (HostRequest.on_list_shared_records r) w a h =
      (Keeps-list_shared_records {P = Untouched j c} ctx r).at w h
  handle_host-Untouched j c ctx headers (HostRequest.on_delete_shared_record r) w a h =
      (Keeps-delete_shared_record j c ctx r a).at w h
  handle_host-Untouched j c ctx headers (HostRequest.on_upsert_migration_state r) w a h =
      (Keeps-upsert_migration_state j c ctx r a).at w h
  handle_host-Untouched j c ctx headers (HostRequest.on_get_migration_state r) w a h =
      (Keeps-get_migration_state {P = Untouched j c} ctx r).at w h
  handle_host-Untouched j c ctx headers (HostRequest.on_list_migration_states r) w a h =
      (Keeps-list_migration_states {P = Untouched j c} ctx r).at w h
  handle_host-Untouched j c ctx headers (HostRequest.on_upsert_task r) w a h =
      (Keeps-upsert_task j c ctx r a).at w h
  handle_host-Untouched j c ctx headers (HostRequest.on_list_tasks r) w a h =
      (Keeps-list_tasks {P = Untouched j c} ctx r).at w h
  handle_host-Untouched j c ctx headers (HostRequest.on_upsert_nav_item r) w a h =
      (Keeps-upsert_nav_item j c ctx r a).at w h
  handle_host-Untouched j c ctx headers (HostRequest.on_list_nav_items r) w a h =
      (Keeps-list_nav_items {P = Untouched j c} ctx r).at w h

  run_from :
      (j : String) (c : Core) (rs : List (RequestContext × (Headers × HostRequest))) (w : World E)
      → All (λ r. AboutOther j r.1.1) rs
      → Untouched j c w.core
      → Untouched j c (run_host rs w).core
  unfolding run_host
  run_from j c [] w a h = h
  run_from j c ((ctx, (headers, r)) ∷ rs) w (a, as') h =
      run_from j c rs (handle_host ctx headers r w) as'
        (handle_host-Untouched j c ctx headers r w a h)

  -- After any sequence of requests to the host API, the execution of a migration's SQL aside, in
  -- which no upsert or deletion names the plugin `j` in its sanitized form, whatever fails: the
  -- registered plugins, their versions, the permission grants, the audit log and the runtime
  -- handles are as they were, and so are the shared records, migration states, tasks and
  -- navigation items of `j`.
  pub run_host-Untouched :
      (j : String) (rs : List (RequestContext × (Headers × HostRequest))) (w : World E)
      → All (λ r. AboutOther j r.1.1) rs
      → Untouched j w.core (run_host rs w).core
  run_host-Untouched j rs w a = run_from j w.core rs w a (record {
    manager = refl;
    registry = refl;
    versions = refl;
    grants = refl;
    audit_logs = refl;
    shared_records = refl;
    migration_states = refl;
    tasks = refl;
    nav_items = refl;
  })
