-- ===== src/Handlers/Uninstall/Gone.antt =====
-- A plugin that has been uninstalled, and one whose runtime does not stop.
use yh_extension_manager_v.Prelude.{String, ◌≡◌, none, List}
use yh_extension_manager_v.Prelude.Outcome.{ok}
use yh_extension_manager_v.Entities.{Db, RuntimeHandle, PluginAuditLog}
use yh_extension_manager_v.World.{Env, World, statement, ◌>>=◌}
use yh_extension_manager_v.World.Keeps
use yh_extension_manager_v.World.Keeps.{Keeps, keeps_rules}
use yh_extension_manager_v.World.Ensures.{Ensures, Ensures-last, Ensures-first}
use yh_extension_manager_v.World.Reliable.{Reliable}
use yh_extension_manager_v.Registry.{
  get_registry_by_id, delete_plugin_permission_grants_all, delete_plugin_versions,
  delete_plugin_tasks, delete_plugin_nav_items, delete_plugin_shared_records,
  delete_plugin_migration_states, delete_plugin_registry,
}
use yh_extension_manager_v.Manager.Handles.{handle_of-remove_self}
use yh_extension_manager_v.Registry.Gone.{IsGone, without-IsGone}
use yh_extension_manager_v.Manager.{handle_of, get_plugin_runtime_manager, remove_runtime_handle}
use yh_extension_manager_v.Handlers.{RequestContext}
use yh_extension_manager_v.Handlers.Uninstall.{
  stop_active_runtime, delete_rows, delete_all_rows, uninstall_plugin,
}
use yh_extension_manager_v.Handlers.Uninstall.Rows.{
  core-delete_all_rows, Keeps-stop_taken, Keeps-remove_sqlite, Keeps-remove_current_package,
  Keeps-remove_dirs, Keeps-log_uninstall,
}

with_log :
    (q : String) (db : Db) (rows : List PluginAuditLog)
    → IsGone db q
    → IsGone (record db { audit_logs = rows }) q
with_log q db rows h = record {
  registry = h.registry;
  versions = h.versions;
  grants = h.grants;
  tasks = h.tasks;
  nav_items = h.nav_items;
  shared_records = h.shared_records;
  migration_states = h.migration_states;
}

module _ {E : Env} where
  Ensures-delete_rows :
      (R : Reliable E) (ctx : RequestContext) (q : String)
      → Ensures (λ c. IsGone c.db q) (delete_rows E ctx q)
  unfolding delete_rows
  Ensures-delete_rows R ctx q =
      Ensures-first _ _
        (record { at = λ w a e. rw (core-delete_all_rows R q w) (without-IsGone q w.core.db) })
        (λ u. Keeps-log_uninstall ctx q (λ c row e h. with_log q c.db _ h))

  Ensures-uninstall_plugin :
      (R : Reliable E) (ctx : RequestContext) (q : String)
      → Ensures (λ c. IsGone c.db q) (uninstall_plugin E ctx q)
  unfolding uninstall_plugin
  Ensures-uninstall_plugin R ctx q = Ensures-last _ _ (λ u. Ensures-last _ _ (λ v.
      Ensures-last _ _ (λ found. Ensures-last _ _ (λ plugin. Ensures-last _ _ (λ x.
        Ensures-last _ _
          (λ y. Ensures-first _ _ (Ensures-delete_rows R ctx q) (λ z. Keeps.Keeps-pure _)))))))

  Keeps-statement_handle :
      {A : Type 0} (q : String) (f : Db → A × Db)
      → Keeps (λ c. handle_of c q ≡ none) (statement {E = E} f)
  Keeps-statement_handle q f = Keeps.Keeps-statement f (λ c h. h)

  Keeps-delete_all_rows : (q : String) → Keeps (λ c. handle_of c q ≡ none) (delete_all_rows E q)
  unfolding delete_all_rows delete_plugin_permission_grants_all delete_plugin_versions
      delete_plugin_tasks delete_plugin_nav_items delete_plugin_shared_records
      delete_plugin_migration_states delete_plugin_registry
  Keeps-delete_all_rows q = search (keeps_rules, Keeps-statement_handle) depth 40

  Keeps-delete_rows :
      (ctx : RequestContext) (q : String) → Keeps (λ c. handle_of c q ≡ none) (delete_rows E ctx q)
  unfolding delete_rows
  Keeps-delete_rows ctx q =
      Keeps.Keeps-bind _ _ (Keeps-delete_all_rows q)
        (λ u. Keeps-log_uninstall ctx q (λ c row e h. h))

  -- the handle is taken, whether the runtime then stops or not
  stop_active_runtime-takes :
      (q : String) (w : World E) → handle_of (stop_active_runtime E q w).1.core q ≡ none
  unfolding stop_active_runtime get_plugin_runtime_manager remove_runtime_handle ◌>>=◌
  stop_active_runtime-takes q w =
      (Keeps-stop_taken {P = λ c. handle_of c q ≡ none} w.core.manager (handle_of w.core q)).at _
        (handle_of-remove_self w.core q)

  Ensures-no_handle :
      (ctx : RequestContext) (q : String)
      → Ensures (λ c. handle_of c q ≡ none) (uninstall_plugin E ctx q)
  unfolding uninstall_plugin get_registry_by_id
  Ensures-no_handle ctx q =
      Ensures-first _ _ (record { at = λ w a e. stop_active_runtime-takes q w })
        (λ u.
          search
            (
              keeps_rules, Keeps-remove_sqlite, Keeps-remove_current_package, Keeps-remove_dirs,
              Keeps-delete_rows,
            )
            depth 60)

  -- With a reliable database, a plugin that has been uninstalled has no handle and no row left in
  -- any table but the audit log.
  pub uninstall_plugin-IsGone :
      (R : Reliable E) (ctx : RequestContext) (q : String) (w : World E) {h : RuntimeHandle}
      → (uninstall_plugin E ctx q w).0 ≡ ok h
      → IsGone (uninstall_plugin E ctx q w).1.core.db q
        × (handle_of (uninstall_plugin E ctx q w).1.core q ≡ none)
  uninstall_plugin-IsGone R ctx q w {h} e =
      ((Ensures-uninstall_plugin R ctx q).at w h e, (Ensures-no_handle ctx q).at w h e)
