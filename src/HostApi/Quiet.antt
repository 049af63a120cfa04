-- ===== src/HostApi/Quiet.antt =====
-- The requests of the host API that write none of the program's tables and handles.
use yh_extension_manager_v.Prelude.{String, Bool, true, false, Option, none, some}
use yh_extension_manager_v.Manifest.{PluginPermission}
use yh_extension_manager_v.World.{Env, Core}
use yh_extension_manager_v.World.Keeps.{Keeps, keeps_rules, Keeps-pure}
use yh_extension_manager_v.Manager.{get_plugin_runtime_manager}
use yh_extension_manager_v.HostApi.{Services, RequestContext, Headers}
use yh_extension_manager_v.HostApi.Auth.{require_authenticated_plugin_id}
use yh_extension_manager_v.HostApi.Auth.Caller.{Keeps-require_permission}
use yh_extension_manager_v.HostApi.Kv.{
  HostKvSetRequest, HostKvNamespaceRequest, check_namespace, authorize_key, set_kv, get_kv,
  delete_kv, build_kv_namespace,
}
use yh_extension_manager_v.HostApi.Users.{
  HostPermissionCheckRequest, HostNotificationSendRequest, get_identity, get_user_by_id,
  check_permission, send_notification,
}
use yh_extension_manager_v.HostApi.Vfs.{
  HostVfsReadTextQuery, HostVfsWriteTextRequest, HostVfsWriteBytesRequest, check_path,
  create_user_scoped_engine, read_vfs_text, write_vfs_text, write_vfs_bytes,
}
use yh_extension_manager_v.HostApi.Paths.{
  HostSqliteEnsureRequest, HostPluginConfigEnsureRequest, get_db_info, create_sqlite_file,
  ensure_sqlite_database, ensure_plugin_config_path, write_config_file, ensure_plugin_config_file,
}
use yh_extension_manager_v.HostApi.Shared.{
  HostSharedRecordQuery, HostSharedRecordListQuery, RecordId, record_id, find_shared_record,
  get_shared_record, list_shared_records,
}
use yh_extension_manager_v.HostApi.Migrations.{
  HostMigrationStateQuery, HostMigrationStateListQuery, MigrationId, migration_id, find_migration,
  get_migration_state, list_migration_states,
}
use yh_extension_manager_v.HostApi.Tasks.{HostTaskListQuery, list_tasks}
use yh_extension_manager_v.HostApi.Nav.{HostNavItemListQuery, nav_filter, list_nav_items}

module _ {E : Env} (S : Services E) {P : Core → Type 0} where
  Keeps-require_authenticated_plugin_id :
      (headers : Headers) → Keeps P (require_authenticated_plugin_id S headers)
  unfolding require_authenticated_plugin_id get_plugin_runtime_manager
  Keeps-require_authenticated_plugin_id headers = search keeps_rules depth 30

  Keeps-check_namespace :
      (q : String) (p : PluginPermission) (t : Option String) → Keeps P (check_namespace E q p t)
  unfolding check_namespace
  Keeps-check_namespace q p none = Keeps-pure tt
  Keeps-check_namespace q p (some t) = search (keeps_rules, Keeps-require_permission) depth 20

  Keeps-authorize_key :
      (ctx : RequestContext) (headers : Headers) (p : PluginPermission) (k : String)
      → Keeps P (authorize_key S ctx headers p k)
  unfolding authorize_key
  Keeps-authorize_key ctx headers p k =
      search (keeps_rules, Keeps-require_authenticated_plugin_id, Keeps-check_namespace) depth 20

  pub Keeps-set_kv :
      (ctx : RequestContext) (headers : Headers) (r : HostKvSetRequest)
      → Keeps P (set_kv S ctx headers r)
  unfolding set_kv
  Keeps-set_kv ctx headers r = search (keeps_rules, Keeps-authorize_key) depth 20

  pub Keeps-get_kv :
      (ctx : RequestContext) (headers : Headers) (k : String) → Keeps P (get_kv S ctx headers k)
  unfolding get_kv
  Keeps-get_kv ctx headers k = search (keeps_rules, Keeps-authorize_key) depth 20

  pub Keeps-delete_kv :
      (ctx : RequestContext) (headers : Headers) (k : String) → Keeps P (delete_kv S ctx headers k)
  unfolding delete_kv
  Keeps-delete_kv ctx headers k = search (keeps_rules, Keeps-authorize_key) depth 20

  pub Keeps-get_identity :
      (ctx : RequestContext) (headers : Headers) → Keeps P (get_identity S ctx headers)
  unfolding get_identity
  Keeps-get_identity ctx headers =
      search (keeps_rules, Keeps-require_authenticated_plugin_id, Keeps-require_permission) depth 30

  pub Keeps-get_user_by_id :
      (ctx : RequestContext) (headers : Headers) (u : String)
      → Keeps P (get_user_by_id S ctx headers u)
  unfolding get_user_by_id
  Keeps-get_user_by_id ctx headers u =
      search (keeps_rules, Keeps-require_authenticated_plugin_id, Keeps-require_permission) depth 40

  pub Keeps-check_permission :
      (ctx : RequestContext) (headers : Headers) (r : HostPermissionCheckRequest)
      → Keeps P (check_permission S ctx headers r)
  unfolding check_permission
  Keeps-check_permission ctx headers r =
      search (keeps_rules, Keeps-require_authenticated_plugin_id, Keeps-require_permission) depth 40

  pub Keeps-send_notification :
      (ctx : RequestContext) (headers : Headers) (r : HostNotificationSendRequest)
      → Keeps P (send_notification S ctx headers r)
  unfolding send_notification
  Keeps-send_notification ctx headers r =
      search (keeps_rules, Keeps-require_authenticated_plugin_id, Keeps-require_permission) depth 40

  Keeps-check_path : (p : PluginPermission) (t : Option String) → Keeps P (check_path E p t)
  unfolding check_path
  Keeps-check_path p none = Keeps-pure tt
  Keeps-check_path p (some t) = Keeps-require_permission t p

  Keeps-create_user_scoped_engine :
      (ctx : RequestContext) → Keeps P (create_user_scoped_engine S ctx)
  unfolding create_user_scoped_engine
  Keeps-create_user_scoped_engine ctx = search keeps_rules depth 30

  pub Keeps-read_vfs_text :
      (ctx : RequestContext) (r : HostVfsReadTextQuery) → Keeps P (read_vfs_text S ctx r)
  unfolding read_vfs_text
  Keeps-read_vfs_text ctx r =
      search (keeps_rules, Keeps-check_path, Keeps-create_user_scoped_engine) depth 30

  pub Keeps-write_vfs_text :
      (ctx : RequestContext) (r : HostVfsWriteTextRequest) → Keeps P (write_vfs_text S ctx r)
  unfolding write_vfs_text
  Keeps-write_vfs_text ctx r =
      search (keeps_rules, Keeps-check_path, Keeps-create_user_scoped_engine) depth 30

  pub Keeps-write_vfs_bytes :
      (ctx : RequestContext) (r : HostVfsWriteBytesRequest) → Keeps P (write_vfs_bytes S ctx r)
  unfolding write_vfs_bytes
  Keeps-write_vfs_bytes ctx r =
      search (keeps_rules, Keeps-check_path, Keeps-create_user_scoped_engine) depth 30

module _ {E : Env} {P : Core → Type 0} where
  pub Keeps-build_kv_namespace :
      (ctx : RequestContext) (r : HostKvNamespaceRequest) → Keeps P (build_kv_namespace E ctx r)
  unfolding build_kv_namespace
  Keeps-build_kv_namespace ctx r = search keeps_rules depth 20

  pub Keeps-get_db_info : (ctx : RequestContext) → Keeps P (get_db_info E ctx)
  unfolding get_db_info
  Keeps-get_db_info ctx = search keeps_rules depth 20

  Keeps-create_sqlite_file : (f : String) (b : Bool) → Keeps P (create_sqlite_file E f b)
  unfolding create_sqlite_file
  Keeps-create_sqlite_file f true = Keeps-pure tt
  Keeps-create_sqlite_file f false = search keeps_rules depth 20

  pub Keeps-ensure_sqlite_database :
      (ctx : RequestContext) (r : HostSqliteEnsureRequest)
      → Keeps P (ensure_sqlite_database E ctx r)
  unfolding ensure_sqlite_database
  Keeps-ensure_sqlite_database ctx r =
      search (keeps_rules, Keeps-require_permission, Keeps-create_sqlite_file) depth 60

  Keeps-ensure_plugin_config_path : (q f : String) → Keeps P (ensure_plugin_config_path E q f)
  unfolding ensure_plugin_config_path get_plugin_runtime_manager
  Keeps-ensure_plugin_config_path q f = search keeps_rules depth 30

  Keeps-write_config_file : (f : String) (b : Bool) → Keeps P (write_config_file E f b)
  unfolding write_config_file
  Keeps-write_config_file f true = Keeps-pure tt
  Keeps-write_config_file f false = search keeps_rules depth 20

  pub Keeps-ensure_plugin_config_file :
      (ctx : RequestContext) (r : HostPluginConfigEnsureRequest)
      → Keeps P (ensure_plugin_config_file E ctx r)
  unfolding ensure_plugin_config_file
  Keeps-ensure_plugin_config_file ctx r =
      search (keeps_rules, Keeps-ensure_plugin_config_path, Keeps-write_config_file) depth 40

  pub Keeps-record_id : (ctx : RequestContext) (a b c : String) → Keeps P (record_id E ctx a b c)
  unfolding record_id
  Keeps-record_id ctx a b c = search keeps_rules depth 30

  Keeps-find_shared_record : (id : RecordId) → Keeps P (find_shared_record E id)
  unfolding find_shared_record
  Keeps-find_shared_record id = search (keeps_rules, Keeps-require_permission) depth 30

  pub Keeps-get_shared_record :
      (ctx : RequestContext) (q : HostSharedRecordQuery) → Keeps P (get_shared_record E ctx q)
  unfolding get_shared_record
  Keeps-get_shared_record ctx q =
      search (keeps_rules, Keeps-record_id, Keeps-find_shared_record) depth 20

  pub Keeps-list_shared_records :
      (ctx : RequestContext) (q : HostSharedRecordListQuery) → Keeps P (list_shared_records E ctx q)
  unfolding list_shared_records
  Keeps-list_shared_records ctx q = search (keeps_rules, Keeps-require_permission) depth 40

  pub Keeps-migration_id :
      (ctx : RequestContext) (a b c : String) → Keeps P (migration_id E ctx a b c)
  unfolding migration_id
  Keeps-migration_id ctx a b c = search (keeps_rules, Keeps-require_permission) depth 40

  pub Keeps-find_migration : (id : MigrationId) → Keeps P (find_migration E id)
  unfolding find_migration
  Keeps-find_migration id = search keeps_rules depth 20

  pub Keeps-get_migration_state :
      (ctx : RequestContext) (q : HostMigrationStateQuery) → Keeps P (get_migration_state E ctx q)
  unfolding get_migration_state
  Keeps-get_migration_state ctx q =
      search (keeps_rules, Keeps-migration_id, Keeps-find_migration) depth 30

  pub Keeps-list_migration_states :
      (ctx : RequestContext) (q : HostMigrationStateListQuery)
      → Keeps P (list_migration_states E ctx q)
  unfolding list_migration_states
  Keeps-list_migration_states ctx q = search (keeps_rules, Keeps-require_permission) depth 40

  pub Keeps-list_tasks :
      (ctx : RequestContext) (q : HostTaskListQuery) → Keeps P (list_tasks E ctx q)
  unfolding list_tasks
  Keeps-list_tasks ctx q = search (keeps_rules, Keeps-require_permission) depth 40

  Keeps-nav_filter : (q : Option String) → Keeps P (nav_filter E q)
  unfolding nav_filter
  Keeps-nav_filter none = Keeps-pure _
  Keeps-nav_filter (some q) = search (keeps_rules, Keeps-require_permission) depth 30

  pub Keeps-list_nav_items :
      (ctx : RequestContext) (q : HostNavItemListQuery) → Keeps P (list_nav_items E ctx q)
  unfolding list_nav_items
  Keeps-list_nav_items ctx q = search (keeps_rules, Keeps-nav_filter) depth 30
