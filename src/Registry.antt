-- ===== src/Registry.antt =====
-- src/registry.rs: the statements on the tables of plugins, versions, tasks, navigation items,
-- shared records, migration states and the audit log.
pub mod State
pub mod Gone
use yh_extension_manager_v.Prelude.{
  ℕ, String, Bool, true, false, ◌&&◌, Option, none, some, List, [], ◌∷◌, ◌++◌, ◌==◌, if◌then◌else◌,
}
use yh_extension_manager_v.Prelude.Int.{ℤ}
use yh_extension_manager_v.Prelude.Rows.{select_one, update_one, delete_many, count}
use yh_extension_manager_v.Entities.{
  PluginRegistry, PluginVersion, PluginAuditLog, PluginTask, PluginNavItem, PluginSharedRecord,
  PluginMigrationState, PluginPermissionGrant, Db,
}
use yh_extension_manager_v.World.{Env, Exec, pure, query, statement, step, ◌>>=◌, ◌>>◌}

pub record RegistryStats : Type 0 where
  pub plugin_count : ℕ
  pub version_count : ℕ
  pub audit_log_count : ℕ

abbrev pub by_id : String → PluginRegistry → Bool
by_id plugin_id r = r.id == plugin_id

abbrev pub by_version : String → String → PluginVersion → Bool
by_version plugin_id version v = v.plugin_id == plugin_id && v.version == version

abbrev pub by_item : String → String → PluginNavItem → Bool
by_item plugin_id item_key n = n.plugin_id == plugin_id && n.item_key == item_key

pub record UpsertNavItemInput : Type 0 where
  pub plugin_id : String
  pub item_key : String
  pub label : String
  pub route : String
  pub icon : String
  pub visibility : String
  pub group_key : Option String
  pub position : Option String
  pub required_permission : Option String
  pub sort_order : ℤ

set_nav_item : UpsertNavItemInput → ℕ → PluginNavItem → PluginNavItem
set_nav_item input now n = record n {
  label = input.label;
  route = input.route;
  icon = input.icon;
  visibility = input.visibility;
  group_key = input.group_key;
  position = input.position;
  required_permission = input.required_permission;
  sort_order = input.sort_order;
  updated_at = now;
}

new_nav_item : UpsertNavItemInput → ℕ → String → PluginNavItem
new_nav_item input now id = record {
  id = id;
  plugin_id = input.plugin_id;
  item_key = input.item_key;
  label = input.label;
  route = input.route;
  icon = input.icon;
  visibility = input.visibility;
  group_key = input.group_key;
  position = input.position;
  required_permission = input.required_permission;
  sort_order = input.sort_order;
  created_at = now;
  updated_at = now;
}

abbrev pub set_runtime_state : Bool → String → ℕ → PluginRegistry → PluginRegistry
set_runtime_state enabled install_status now r = record r {
  enabled = enabled;
  install_status = install_status;
  updated_at = now;
}

module _ (E : Env) where
  unfoldable pub collect_stats : Exec E String RegistryStats
  collect_stats = do
    plugin_count ← query (λ db. count (λ _. true) db.registry)
    version_count ← query (λ db. count (λ _. true) db.versions)
    audit_log_count ← query (λ db. count (λ _. true) db.audit_logs)
    pure (record {
      plugin_count = plugin_count;
      version_count = version_count;
      audit_log_count = audit_log_count;
    })

  unfoldable pub get_registry_by_id : String → Exec E String (Option PluginRegistry)
  get_registry_by_id plugin_id = query (λ db. select_one (by_id plugin_id) db.registry)

  unfoldable pub get_version_by_plugin_and_version :
      String → String → Exec E String (Option PluginVersion)
  get_version_by_plugin_and_version plugin_id version =
      query (λ db. select_one (by_version plugin_id version) db.versions)

  write_runtime_state :
      String → Bool → String → Option PluginRegistry → Exec E String (Option PluginRegistry)
  write_runtime_state plugin_id enabled install_status none = pure none
  write_runtime_state plugin_id enabled install_status (some existing) = do
    now ← step E.now
    statement (λ db. (
      some (set_runtime_state enabled install_status now existing),
      record db {
        registry =
            update_one (by_id plugin_id) (set_runtime_state enabled install_status now) db.registry;
      },
    ))

  unfoldable pub update_plugin_runtime_state :
      String → Bool → String → Exec E String (Option PluginRegistry)
  unfolding write_runtime_state
  update_plugin_runtime_state plugin_id enabled install_status = do
    existing ← query (λ db. select_one (by_id plugin_id) db.registry)
    write_runtime_state plugin_id enabled install_status existing

  unfoldable pub append_audit_log :
      String → String → String → Option String → Exec E String PluginAuditLog
  append_audit_log plugin_id action message actor_user_id = do
    id ← step E.uuid_v7
    now ← step E.now
    let row : PluginAuditLog = record {
      id = id;
      plugin_id = plugin_id;
      action = action;
      message = message;
      actor_user_id = actor_user_id;
      created_at = now;
    }
    statement (λ db. (row, record db { audit_logs = db.audit_logs ++ row ∷ [] }))

  write_nav_item : UpsertNavItemInput → ℕ → Option PluginNavItem → Exec E String PluginNavItem
  unfolding set_nav_item new_nav_item
  write_nav_item input now (some existing) = statement (λ db. (
    set_nav_item input now existing,
    record db {
      nav_items =
          update_one (by_item input.plugin_id input.item_key) (set_nav_item input now) db.nav_items;
    },
  ))
  write_nav_item input now none = do
    id ← step E.uuid_v7
    let row = new_nav_item input now id
    statement (λ db. (row, record db { nav_items = db.nav_items ++ row ∷ [] }))

  unfoldable pub upsert_plugin_nav_item : UpsertNavItemInput → Exec E String PluginNavItem
  unfolding write_nav_item
  upsert_plugin_nav_item input = do
    existing ← query (λ db. select_one (by_item input.plugin_id input.item_key) db.nav_items)
    now ← step E.now
    write_nav_item input now existing

  unfoldable pub delete_plugin_versions : String → Exec E String ℕ
  delete_plugin_versions plugin_id =
      let p = λ (v : PluginVersion). v.plugin_id == plugin_id in
      statement (λ db. (count p db.versions, record db { versions = delete_many p db.versions }))

  unfoldable pub delete_plugin_nav_items : String → Exec E String ℕ
  delete_plugin_nav_items plugin_id =
      let p = λ (n : PluginNavItem). n.plugin_id == plugin_id in
      statement (λ db. (count p db.nav_items, record db { nav_items = delete_many p db.nav_items }))

  unfoldable pub delete_plugin_tasks : String → Exec E String ℕ
  delete_plugin_tasks plugin_id =
      let p = λ (t : PluginTask). t.plugin_id == plugin_id in
      statement (λ db. (count p db.tasks, record db { tasks = delete_many p db.tasks }))

  unfoldable pub delete_plugin_shared_records : String → Exec E String ℕ
  delete_plugin_shared_records plugin_id =
      let p = λ (r : PluginSharedRecord). r.plugin_id == plugin_id in
      statement (λ db.
        (count p db.shared_records, record db { shared_records = delete_many p db.shared_records }))

  unfoldable pub delete_plugin_migration_states : String → Exec E String ℕ
  delete_plugin_migration_states plugin_id =
      let p = λ (m : PluginMigrationState). m.plugin_id == plugin_id in
      statement (λ db. (
        count p db.migration_states,
        record db { migration_states = delete_many p db.migration_states },
      ))

  unfoldable pub delete_plugin_permission_grants_all : String → Exec E String ℕ
  delete_plugin_permission_grants_all plugin_id =
      let p = λ (g : PluginPermissionGrant). g.plugin_id == plugin_id in
      statement (λ db. (count p db.grants, record db { grants = delete_many p db.grants }))

  unfoldable pub delete_plugin_registry : String → Exec E String ℕ
  delete_plugin_registry plugin_id = statement (λ db. (
    count (by_id plugin_id) db.registry,
    record db { registry = delete_many (by_id plugin_id) db.registry },
  ))
