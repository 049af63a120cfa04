-- ===== src/HostApi/Frame.antt =====
-- What a plugin's requests to the host API leave alone of the program's own state.
pub mod Requests
use yh_extension_manager_v.Prelude.{
  ℕ, String, ◌≡◌, refl, ◌∙◌, Bool, true, false, ◌&&◌, Option, none, some, List, [], ◌∷◌, ◌++◌, ◌==◌,
  eq_iff, arith, if◌then◌else◌,
}
use yh_extension_manager_v.Prelude.Outcome.{Result, ok, err}
use yh_extension_manager_v.Prelude.Rows.{
  select, select_one, update_one, delete_many, select-update_disjoint, select-delete_disjoint,
  select-insert_disjoint,
}
use yh_extension_manager_v.Manifest.{PluginPermission}
use yh_extension_manager_v.Entities.{
  PluginRegistry, PluginTask, PluginNavItem, PluginSharedRecord, PluginMigrationState,
}
use yh_extension_manager_v.World.{Env, Core, World, lift, ◌>>=◌}
use yh_extension_manager_v.World.Keeps.{
  Keeps, Returns, keeps_rules, Keeps-bind, Keeps-bind_knowing, Keeps-lift, Keeps-map_error,
  Keeps-statement, Keeps-step,
}
use yh_extension_manager_v.HostApi.{RequestContext}
use yh_extension_manager_v.HostApi.Auth.{sanitize_sqlite_component, validate_host_plugin_identifier}
use yh_extension_manager_v.HostApi.Auth.Caller.{Keeps-require_permission}
use yh_extension_manager_v.HostApi.Quiet.{Keeps-record_id, Keeps-migration_id, Keeps-find_migration}
use yh_extension_manager_v.HostApi.Shared.{
  RecordId, is_record, HostSharedRecordUpsertRequest, HostSharedRecordQuery, record_id,
  save_shared_record, new_shared_record, store_shared_record, upsert_shared_record,
  erase_shared_record, delete_shared_record,
}
use yh_extension_manager_v.HostApi.Shared.Identified.{id_of, record_id-id_of}
use yh_extension_manager_v.HostApi.Migrations.{
  MigrationId, HostMigrationStateUpsertRequest, is_migration, migration_id, set_state,
  update_migration, insert_migration, save_migration, upsert_migration_state,
}
use yh_extension_manager_v.HostApi.Tasks.{
  HostTaskUpsertRequest, is_task, set_task, new_task, save_task, upsert_task,
}
use yh_extension_manager_v.HostApi.Nav.{
  HostNavItemUpsertRequest, is_nav_item, set_nav, new_nav, save_nav_item, upsert_nav_item,
}
use yh_extension_manager_v.HostApi.Untouched.{
  Untouched, Apart, validated, apart_row, record_apart, migration_apart, Untouched-tasks,
  Untouched-nav_items, Untouched-shared_records, Untouched-migration_states,
}

module _ {E : Env} (j : String) (c : Core) where
  Keeps-save_task :
      (q k : String) (p : HostTaskUpsertRequest) (now : ℕ) (existing : Option PluginTask)
      → Apart j q
      → Keeps (Untouched j c) (save_task E q k p now existing)
  unfolding save_task
  Keeps-save_task q k p now none apart = Keeps-bind _ _ (Keeps-step _) (λ uuid.
      Keeps-map_error _ _ (
        Keeps-statement {P = Untouched j c} _ (λ d h.
          Untouched-tasks j c d h _
            (select-insert_disjoint (λ r. r.plugin_id == j) d.db.tasks _ apart))))
  Keeps-save_task q k p now (some t) apart = Keeps-map_error _ _ (
      Keeps-statement {P = Untouched j c} _ (λ d h. Untouched-tasks j c d h _ (
        select-update_disjoint (λ r. r.plugin_id == j) (is_task q k) _ d.db.tasks
          (λ x e. (apart_row j q x.plugin_id _ apart e, apart_row j q x.plugin_id _ apart e)))))

  Keeps-save_nav_item :
      (q k : String) (p : HostNavItemUpsertRequest) (now : ℕ) (existing : Option PluginNavItem)
      → Apart j q
      → Keeps (Untouched j c) (save_nav_item E q k p now existing)
  unfolding save_nav_item
  Keeps-save_nav_item q k p now none apart = Keeps-bind _ _ (Keeps-step _) (λ uuid.
      Keeps-map_error _ _ (
        Keeps-statement {P = Untouched j c} _ (λ d h.
          Untouched-nav_items j c d h _
            (select-insert_disjoint (λ r. r.plugin_id == j) d.db.nav_items _ apart))))
  Keeps-save_nav_item q k p now (some t) apart = Keeps-map_error _ _ (
      Keeps-statement {P = Untouched j c} _ (λ d h. Untouched-nav_items j c d h _ (
        select-update_disjoint (λ r. r.plugin_id == j) (is_nav_item q k) _ d.db.nav_items
          (λ x e. (apart_row j q x.plugin_id _ apart e, apart_row j q x.plugin_id _ apart e)))))

  Keeps-save_shared_record :
      (id : RecordId) (p : String) (now : ℕ) (existing : Option PluginSharedRecord)
      → Apart j id.plugin_id
      → Keeps (Untouched j c) (save_shared_record E id p now existing)
  unfolding save_shared_record
  Keeps-save_shared_record id p now none apart = Keeps-bind _ _ (Keeps-step _) (λ uuid.
      Keeps-map_error _ _ (
        Keeps-statement {P = Untouched j c} _ (λ d h.
          Untouched-shared_records j c d h _
            (select-insert_disjoint (λ r. r.plugin_id == j) d.db.shared_records _ apart))))
  Keeps-save_shared_record id p now (some t) apart = Keeps-map_error _ _ (
      Keeps-statement {P = Untouched j c} _ (λ d h. Untouched-shared_records j c d h _ (
        select-update_disjoint (λ r. r.plugin_id == j) (is_record id) _ d.db.shared_records
          (λ x e. (record_apart j id x apart e, record_apart j id x apart e)))))

  Keeps-save_migration :
      (id : MigrationId) (p : String) (now : ℕ) (existing : Option PluginMigrationState)
      → Apart j id.plugin_id
      → Keeps (Untouched j c) (save_migration E id p now existing)
  unfolding save_migration update_migration insert_migration
  Keeps-save_migration id p now none apart = Keeps-bind _ _ (Keeps-step _) (λ uuid.
      Keeps-map_error _ _ (
        Keeps-statement {P = Untouched j c} _ (λ d h.
          Untouched-migration_states j c d h _
            (select-insert_disjoint (λ r. r.plugin_id == j) d.db.migration_states _ apart))))
  Keeps-save_migration id p now (some t) apart = Keeps-map_error _ _ (
      Keeps-statement {P = Untouched j c} _ (λ d h. Untouched-migration_states j c d h _ (
        select-update_disjoint (λ r. r.plugin_id == j) (is_migration id) _ d.db.migration_states
          (λ x e. (migration_apart j id x apart e, migration_apart j id x apart e)))))

  pub Keeps-upsert_task :
      (ctx : RequestContext) (p : HostTaskUpsertRequest)
      → Apart j (sanitize_sqlite_component p.plugin_id)
      → Keeps (Untouched j c) (upsert_task E ctx p)
  unfolding upsert_task
  Keeps-upsert_task ctx p apart = Keeps-bind _ _ (Keeps-lift _) (λ u.
      Keeps-bind_knowing _ _ (validated j p.plugin_id "plugin_id" apart) (Keeps-lift _) (λ q known.
        search (keeps_rules, Keeps-require_permission, Keeps-save_task, known) depth 40))

  pub Keeps-upsert_nav_item :
      (ctx : RequestContext) (p : HostNavItemUpsertRequest)
      → Apart j (sanitize_sqlite_component p.plugin_id)
      → Keeps (Untouched j c) (upsert_nav_item E ctx p)
  unfolding upsert_nav_item
  Keeps-upsert_nav_item ctx p apart = Keeps-bind _ _ (Keeps-lift _) (λ u.
      Keeps-bind_knowing _ _ (validated j p.plugin_id "plugin_id" apart) (Keeps-lift _) (λ q known.
        search (keeps_rules, Keeps-require_permission, Keeps-save_nav_item, known) depth 40))

  Keeps-store_shared_record :
      (id : RecordId) (payload : String)
      → Apart j id.plugin_id
      → Keeps (Untouched j c) (store_shared_record E id payload)
  unfolding store_shared_record
  Keeps-store_shared_record id payload apart =
      search (keeps_rules, Keeps-require_permission, Keeps-save_shared_record, apart) depth 30

  Keeps-erase_shared_record :
      (id : RecordId) → Apart j id.plugin_id → Keeps (Untouched j c) (erase_shared_record E id)
  unfolding erase_shared_record
  Keeps-erase_shared_record id apart = Keeps-bind _ _ (Keeps-require_permission _ _) (λ u.
      Keeps-map_error _ _ (
        Keeps-statement {P = Untouched j c} _ (λ d h. Untouched-shared_records j c d h _ (
          select-delete_disjoint (λ r. r.plugin_id == j) (is_record id) d.db.shared_records
            (λ x e. record_apart j id x apart e)))))

  record_of :
      (ctx : RequestContext) (a b k : String)
      → Apart j (sanitize_sqlite_component a)
      → Returns (λ id. Apart j id.plugin_id) (record_id E ctx a b k)
  record_of ctx a b k apart = record {
    value = λ w id h. rw (record_id-id_of ctx a b k w id h) apart;
  }

  pub Keeps-upsert_shared_record :
      (ctx : RequestContext) (p : HostSharedRecordUpsertRequest)
      → Apart j (sanitize_sqlite_component p.plugin_id)
      → Keeps (Untouched j c) (upsert_shared_record E ctx p)
  unfolding upsert_shared_record
  Keeps-upsert_shared_record ctx p apart =
      Keeps-bind_knowing _ _ (record_of ctx p.plugin_id p.collection p.record_key apart)
        (Keeps-record_id _ _ _ _)
        (λ id known. search (keeps_rules, Keeps-store_shared_record, known) depth 20)

  pub Keeps-delete_shared_record :
      (ctx : RequestContext) (q : HostSharedRecordQuery)
      → Apart j (sanitize_sqlite_component q.plugin_id)
      → Keeps (Untouched j c) (delete_shared_record E ctx q)
  unfolding delete_shared_record
  Keeps-delete_shared_record ctx q apart =
      Keeps-bind_knowing _ _ (record_of ctx q.plugin_id q.collection q.record_key apart)
        (Keeps-record_id _ _ _ _)
        (λ id known. search (keeps_rules, Keeps-erase_shared_record, known) depth 20)

  migration_of :
      (ctx : RequestContext) (a b k : String)
      → Apart j (sanitize_sqlite_component a)
      → Returns (λ id. Apart j id.plugin_id) (migration_id E ctx a b k)
  unfolding migration_id validate_host_plugin_identifier sanitize_sqlite_component ◌>>=◌
  migration_of ctx a b k apart = record { value = λ w id h. ground arith }

  pub Keeps-upsert_migration_state :
      (ctx : RequestContext) (p : HostMigrationStateUpsertRequest)
      → Apart j (sanitize_sqlite_component p.plugin_id)
      → Keeps (Untouched j c) (upsert_migration_state E ctx p)
  unfolding upsert_migration_state
  Keeps-upsert_migration_state ctx p apart =
      Keeps-bind_knowing _ _ (migration_of ctx p.plugin_id p.scope p.migration_key apart)
        (Keeps-migration_id _ _ _ _)
        (λ id known.
          search (keeps_rules, Keeps-find_migration, Keeps-save_migration, known) depth 30)
