-- ===== src/Handlers/Frame.antt =====
-- What a request about one plugin leaves alone.
pub mod Requests
use mathlib.Core.List.{append_assoc}
use yh_extension_manager_v.Prelude.{
  ℕ, String, ◌≡◌, refl, Bool, true, false, Option, none, some, List, [], ◌∷◌, ◌++◌, ◌==◌, arith,
  eq_iff, sym, ap, ◌∙◌, if◌then◌else◌,
}
use yh_extension_manager_v.Prelude.Dict
use yh_extension_manager_v.Prelude.Outcome.{Result, ok, err}
use yh_extension_manager_v.Prelude.Rows.{
  select, select_one, update_one, delete_many, select_one-update_other, select_one-delete_other,
}
use yh_extension_manager_v.Entities.{
  Db, PluginRegistry, PluginAuditLog, PluginNavItem, RuntimeHandle,
}
use yh_extension_manager_v.World.{Env, Core, World, PluginRuntimeManager, statement, ◌>>=◌}
use yh_extension_manager_v.World.Keeps
use yh_extension_manager_v.World.Keeps.{Keeps, keeps_rules}
use yh_extension_manager_v.Registry.{
  by_id, set_runtime_state, get_registry_by_id, delete_plugin_permission_grants_all,
  delete_plugin_versions, delete_plugin_tasks, delete_plugin_nav_items,
  delete_plugin_shared_records, delete_plugin_migration_states, delete_plugin_registry,
}
use yh_extension_manager_v.Registry.State.{
  with_registry, with_audit_logs, with_nav_items, Keeps-update_plugin_runtime_state,
}
use yh_extension_manager_v.Manager.{
  handle_of, on_runtimes, set_runtime_handle, get_plugin_runtime_manager, remove_runtime_handle,
}
use yh_extension_manager_v.Manager.Handles.{handle_of-remove, handle_of-insert_other}
use yh_extension_manager_v.Installer.{installed, running}
use yh_extension_manager_v.Handlers.{RequestContext}
use yh_extension_manager_v.Handlers.Lifecycle.{
  Startable, settle_start, settle_stop, start_plugin_runtime, stop_plugin_runtime,
}
use yh_extension_manager_v.Handlers.Lifecycle.Quiet.{
  Keeps-load_startable, Keeps-start_runtime, Keeps-load_stoppable, Keeps-stop_runtime,
}
use yh_extension_manager_v.Handlers.Lifecycle.Start.{Keeps-report_start, Keeps-report_failed_start}
use yh_extension_manager_v.Handlers.Lifecycle.Stop.{Keeps-report_stop, Keeps-report_failed_stop}
use yh_extension_manager_v.Handlers.Uninstall.{
  stop_active_runtime, delete_rows, delete_all_rows, uninstall_plugin,
}
use yh_extension_manager_v.Handlers.Uninstall.Rows.{
  Keeps-stop_taken, Keeps-remove_sqlite, Keeps-remove_current_package, Keeps-remove_dirs,
  Keeps-log_uninstall,
}

-- `d` agrees with `c` on the plugin `j`, and its audit log is that of `c` with entries added.
pub record AgreesOn (j : String) (c d : Core) : Type 0 where
  pub row : select_one (by_id j) d.db.registry ≡ select_one (by_id j) c.db.registry
  pub handle : handle_of d j ≡ handle_of c j
  pub log : List PluginAuditLog
  pub appended : d.db.audit_logs ≡ c.db.audit_logs ++ log

abbrev pub Other : String → String → Type 0
Other q j = (q == j) ≡ false

-- Two texts are not both equal to a third when they differ.
pub disjoint :
    (q j : String) (b : Bool) (st : String) (now : ℕ)
    → Other q j
    → (r : PluginRegistry) → by_id q r ≡ true
    → (by_id j r ≡ false) × (by_id j (set_runtime_state b st now r) ≡ false)
disjoint q j b st now apart r e = ground (arith, eq_iff r.id q, eq_iff r.id j, eq_iff q j)

pub agrees_state :
    (q j : String) (c : Core)
    → Other q j
    → (b : Bool) (st : String) (d : Core) (now : ℕ) → AgreesOn j c d
    → AgreesOn j c
        (with_registry d (update_one (by_id q) (set_runtime_state b st now) d.db.registry))
agrees_state q j c apart b st d now h = record {
  row =
      select_one-update_other (by_id j) (by_id q) (set_runtime_state b st now) d.db.registry
        (disjoint q j b st now apart)
      ∙ h.row;
  handle = h.handle;
  log = h.log;
  appended = h.appended;
}

pub agrees_log :
    (j : String) (c d : Core) (row : PluginAuditLog)
    → AgreesOn j c d
    → AgreesOn j c (with_audit_logs d (d.db.audit_logs ++ row ∷ []))
agrees_log j c d row h = record {
  row = h.row;
  handle = h.handle;
  log = h.log ++ row ∷ [];
  appended = ap (λ l. l ++ row ∷ []) h.appended ∙ append_assoc c.db.audit_logs h.log (row ∷ []);
}

pub agrees_nav :
    (j : String) (c d : Core) (rows : List PluginNavItem)
    → AgreesOn j c d
    → AgreesOn j c (with_nav_items d rows)
agrees_nav j c d rows h = record {
  row = h.row;
  handle = h.handle;
  log = h.log;
  appended = h.appended;
}

pub agrees_insert :
    (q j : String) (c : Core)
    → Other q j
    → (g : RuntimeHandle) (d : Core) → AgreesOn j c d
    → AgreesOn j c (on_runtimes (Dict.insert q g) d)
agrees_insert q j c apart g d h = record {
  row = h.row;
  handle = handle_of-insert_other d q j g apart ∙ h.handle;
  log = h.log;
  appended = h.appended;
}

pub agrees_remove :
    (q j : String) (c : Core)
    → Other q j
    → (d : Core) → AgreesOn j c d
    → AgreesOn j c (on_runtimes (Dict.remove q) d)
agrees_remove q j c apart d h = record {
  row = h.row;
  handle = handle_of-remove d q j ∙ rw apart h.handle;
  log = h.log;
  appended = h.appended;
}

pub agrees_db :
    (j : String) (c : Core)
    → (d : Core) (db : Db) → select_one (by_id j) db.registry ≡ select_one (by_id j) d.db.registry
    → db.audit_logs ≡ d.db.audit_logs
    → AgreesOn j c d
    → AgreesOn j c (record d { db = db })
agrees_db j c d db e f h = record {
  row = e ∙ h.row;
  handle = h.handle;
  log = h.log;
  appended = f ∙ h.appended;
}
