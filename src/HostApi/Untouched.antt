-- ===== src/HostApi/Untouched.antt =====
-- The state that a plugin's requests to the host API leave alone, and one table of it changed.
use yh_extension_manager_v.Prelude.{
  String, ◌≡◌, ◌∙◌, Bool, true, false, ◌&&◌, List, ◌==◌, eq_iff, arith,
}
use yh_extension_manager_v.Prelude.Rows.{select}
use yh_extension_manager_v.Entities.{
  PluginTask, PluginNavItem, PluginSharedRecord, PluginMigrationState,
}
use yh_extension_manager_v.World.{Env, Core, lift, ◌>>=◌}
use yh_extension_manager_v.World.Keeps.{Returns}
use yh_extension_manager_v.HostApi.Auth.{sanitize_sqlite_component, validate_host_plugin_identifier}
use yh_extension_manager_v.HostApi.Shared.{RecordId, is_record}
use yh_extension_manager_v.HostApi.Migrations.{MigrationId, is_migration}

-- `d` has the same plugins, versions, grants, log and handles as `c`, and the same rows of the
-- plugin `j` in the tables that plugins write.
pub record Untouched (j : String) (c d : Core) : Type 0 where
  pub manager : d.manager ≡ c.manager
  pub registry : d.db.registry ≡ c.db.registry
  pub versions : d.db.versions ≡ c.db.versions
  pub grants : d.db.grants ≡ c.db.grants
  pub audit_logs : d.db.audit_logs ≡ c.db.audit_logs
  pub shared_records :
      select (λ r. r.plugin_id == j) d.db.shared_records
      ≡ select (λ r. r.plugin_id == j) c.db.shared_records
  pub migration_states :
      select (λ r. r.plugin_id == j) d.db.migration_states
      ≡ select (λ r. r.plugin_id == j) c.db.migration_states
  pub tasks : select (λ r. r.plugin_id == j) d.db.tasks ≡ select (λ r. r.plugin_id == j) c.db.tasks
  pub nav_items :
      select (λ r. r.plugin_id == j) d.db.nav_items ≡ select (λ r. r.plugin_id == j) c.db.nav_items

abbrev pub Apart : String → String → Type 0
Apart j q = (q == j) ≡ false

pub validated :
    {E : Env} (j value field : String)
    → Apart j (sanitize_sqlite_component value)
    → Returns {E = E} (Apart j) (lift (validate_host_plugin_identifier value field))
unfolding validate_host_plugin_identifier sanitize_sqlite_component ◌>>=◌
validated j value field apart = record { value = λ w a h. ground arith }

-- A row of the plugin `q` is none of the plugin `j`.
pub apart_row :
    (j q x : String) (rest : Bool) → Apart j q → (x == q && rest) ≡ true → (x == j) ≡ false
apart_row j q x rest apart e = ground (arith, eq_iff x q, eq_iff x j, eq_iff q j)

pub record_apart :
    (j : String) (id : RecordId) (x : PluginSharedRecord)
    → Apart j id.plugin_id
    → is_record id x ≡ true
    → (x.plugin_id == j) ≡ false
record_apart j id x apart e =
    ground (arith, eq_iff x.plugin_id id.plugin_id, eq_iff x.plugin_id j, eq_iff id.plugin_id j)

pub migration_apart :
    (j : String) (id : MigrationId) (x : PluginMigrationState)
    → Apart j id.plugin_id
    → is_migration id x ≡ true
    → (x.plugin_id == j) ≡ false
migration_apart j id x apart e =
    ground (arith, eq_iff x.plugin_id id.plugin_id, eq_iff x.plugin_id j, eq_iff id.plugin_id j)

module _ (j : String) (c d : Core) (h : Untouched j c d) where
  pub Untouched-tasks :
      (rows : List PluginTask)
      → select (λ r. r.plugin_id == j) rows ≡ select (λ r. r.plugin_id == j) d.db.tasks
      → Untouched j c (record d { db = record d.db { tasks = rows } })
  Untouched-tasks rows e = record {
    manager = h.manager;
    registry = h.registry;
    versions = h.versions;
    grants = h.grants;
    audit_logs = h.audit_logs;
    shared_records = h.shared_records;
    migration_states = h.migration_states;
    tasks = e ∙ h.tasks;
    nav_items = h.nav_items;
  }

  pub Untouched-nav_items :
      (rows : List PluginNavItem)
      → select (λ r. r.plugin_id == j) rows ≡ select (λ r. r.plugin_id == j) d.db.nav_items
      → Untouched j c (record d { db = record d.db { nav_items = rows } })
  Untouched-nav_items rows e = record {
    manager = h.manager;
    registry = h.registry;
    versions = h.versions;
    grants = h.grants;
    audit_logs = h.audit_logs;
    shared_records = h.shared_records;
    migration_states = h.migration_states;
    tasks = h.tasks;
    nav_items = e ∙ h.nav_items;
  }

  pub Untouched-shared_records :
      (rows : List PluginSharedRecord)
      → select (λ r. r.plugin_id == j) rows ≡ select (λ r. r.plugin_id == j) d.db.shared_records
      → Untouched j c (record d { db = record d.db { shared_records = rows } })
  Untouched-shared_records rows e = record {
    manager = h.manager;
    registry = h.registry;
    versions = h.versions;
    grants = h.grants;
    audit_logs = h.audit_logs;
    shared_records = e ∙ h.shared_records;
    migration_states = h.migration_states;
    tasks = h.tasks;
    nav_items = h.nav_items;
  }

  pub Untouched-migration_states :
      (rows : List PluginMigrationState)
      → select (λ r. r.plugin_id == j) rows ≡ select (λ r. r.plugin_id == j) d.db.migration_states
      → Untouched j c (record d { db = record d.db { migration_states = rows } })
  Untouched-migration_states rows e = record {
    manager = h.manager;
    registry = h.registry;
    versions = h.versions;
    grants = h.grants;
    audit_logs = h.audit_logs;
    shared_records = h.shared_records;
    migration_states = e ∙ h.migration_states;
    tasks = h.tasks;
    nav_items = h.nav_items;
  }
