-- ===== src/Registry/Gone.antt =====
-- The deletions of src/registry.rs: what each leaves of a plugin's rows.
use yh_extension_manager_v.Prelude.{String, ◌≡◌, [], ◌==◌}
use yh_extension_manager_v.Prelude.Rows.{select, delete_many, select-delete_self}
use yh_extension_manager_v.Entities.{
  PluginVersion, PluginTask, PluginNavItem, PluginSharedRecord, PluginMigrationState,
  PluginPermissionGrant, Db,
}
use yh_extension_manager_v.Registry.{by_id}

-- No table but the audit log has a row of the plugin.
pub record IsGone (db : Db) (q : String) : Type 0 where
  pub registry : select (by_id q) db.registry ≡ []
  pub versions : select (λ (v : PluginVersion). v.plugin_id == q) db.versions ≡ []
  pub grants : select (λ (g : PluginPermissionGrant). g.plugin_id == q) db.grants ≡ []
  pub tasks : select (λ (t : PluginTask). t.plugin_id == q) db.tasks ≡ []
  pub nav_items : select (λ (n : PluginNavItem). n.plugin_id == q) db.nav_items ≡ []
  pub shared_records : select (λ (r : PluginSharedRecord). r.plugin_id == q) db.shared_records ≡ []
  pub migration_states :
      select (λ (m : PluginMigrationState). m.plugin_id == q) db.migration_states ≡ []

-- The database without the plugin.
abbrev pub without : String → Db → Db
without q db = record db {
  registry = delete_many (by_id q) db.registry;
  versions = delete_many (λ (v : PluginVersion). v.plugin_id == q) db.versions;
  grants = delete_many (λ (g : PluginPermissionGrant). g.plugin_id == q) db.grants;
  tasks = delete_many (λ (t : PluginTask). t.plugin_id == q) db.tasks;
  nav_items = delete_many (λ (n : PluginNavItem). n.plugin_id == q) db.nav_items;
  shared_records = delete_many (λ (r : PluginSharedRecord). r.plugin_id == q) db.shared_records;
  migration_states =
      delete_many (λ (m : PluginMigrationState). m.plugin_id == q) db.migration_states;
}

pub without-IsGone : (q : String) (db : Db) → IsGone (without q db) q
without-IsGone q db = record {
  registry = select-delete_self _ _;
  versions = select-delete_self _ _;
  grants = select-delete_self _ _;
  tasks = select-delete_self _ _;
  nav_items = select-delete_self _ _;
  shared_records = select-delete_self _ _;
  migration_states = select-delete_self _ _;
}
