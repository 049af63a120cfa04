-- ===== src/Handlers/Uninstall/Rows.antt =====
-- What uninstalling a plugin leaves behind.
use yh_extension_manager_v.Prelude.{
  String, ◌≡◌, refl, Option, none, some, List, [], ◌∷◌, ◌++◌, ap, ◌∙◌,
}
use yh_extension_manager_v.Entities.{Db, PluginVersion, PluginAuditLog, RuntimeHandle}
use yh_extension_manager_v.World.{
  Env, Core, World, Exec, PluginRuntimeManager, statement, pure, attempt, ◌>>=◌,
}
use yh_extension_manager_v.World.Keeps
use yh_extension_manager_v.World.Keeps.{Keeps, keeps_rules}
use yh_extension_manager_v.World.Reliable.{Reliable}
use yh_extension_manager_v.Registry.{
  get_version_by_plugin_and_version, delete_plugin_permission_grants_all, delete_plugin_versions,
  delete_plugin_tasks, delete_plugin_nav_items, delete_plugin_shared_records,
  delete_plugin_migration_states, delete_plugin_registry,
}
use yh_extension_manager_v.Registry.State.{with_audit_logs, Keeps-append_audit_log}
use yh_extension_manager_v.Registry.Gone.{without}
use yh_extension_manager_v.Manager.{get_plugin_runtime_manager}
use yh_extension_manager_v.Handlers.{AppError, RequestContext}
use yh_extension_manager_v.Handlers.Lifecycle.Quiet.{Keeps-stop_runtime}
use yh_extension_manager_v.Handlers.Uninstall.{
  stop_taken, remove_if_there, remove_all, remove_sqlite_of, remove_sqlite, remove_package,
  remove_current_package, remove_dirs_of, remove_dirs, delete_all_rows, log_uninstall,
}

module _ {E : Env} where
  -- the world after a statement that the database answers
  abbrev done : {A : Type 0} → (Db → A × Db) → World E → World E
  done f w = record w { core = record w.core { db = (f w.core.db).1 }; env = (E.db_fault w.env).1 }

  attempt-statement :
      {A B : Type 0} (R : Reliable E) (f : Db → A × Db) (k : Exec E AppError B) (w : World E)
      → (attempt (statement f) >>= λ _. k) w ≡ k (done f w)
  unfolding ◌>>=◌
  attempt-statement R f k w = rw (R.answers w.env, statement) refl

  world-pure : {A : Type 0} (a : A) (w : World E) → (pure {F = AppError} a w).1 ≡ w
  unfolding ◌>>=◌
  world-pure a w = refl

  -- On a reliable database, the deletions leave the database without the plugin.
  pub core-delete_all_rows :
      (R : Reliable E) (q : String) (w : World E)
      → (delete_all_rows E q w).1.core ≡ record w.core { db = without q w.core.db }
  unfolding delete_all_rows delete_plugin_permission_grants_all delete_plugin_versions
      delete_plugin_tasks delete_plugin_nav_items delete_plugin_shared_records
      delete_plugin_migration_states delete_plugin_registry
  core-delete_all_rows R q w =
      ap (λ p. p.1.core)
        (attempt-statement R _ _ w
          ∙ attempt-statement R _ _ _
          ∙ attempt-statement R _ _ _
          ∙ attempt-statement R _ _ _
          ∙ attempt-statement R _ _ _
          ∙ attempt-statement R _ _ _
          ∙ attempt-statement R _ _ _)
      ∙ ap (λ v. v.core) (world-pure tt _)

module _ {E : Env} {P : Core → Type 0} where
  pub Keeps-stop_taken :
      (m : Option PluginRuntimeManager) (h : Option RuntimeHandle) → Keeps P (stop_taken E m h)
  unfolding stop_taken
  Keeps-stop_taken none h = Keeps.Keeps-pure _
  Keeps-stop_taken (some m) none = Keeps.Keeps-pure _
  Keeps-stop_taken (some m) (some h) = Keeps.Keeps-map_error _ _ (Keeps-stop_runtime h _)

  Keeps-remove_if_there : (dir : String) → Keeps P (remove_if_there E dir)
  unfolding remove_if_there
  Keeps-remove_if_there dir = search keeps_rules depth 30

  Keeps-remove_all : (dirs : List String) → Keeps P (remove_all E dirs)
  unfolding remove_all
  Keeps-remove_all [] = Keeps.Keeps-pure _
  Keeps-remove_all (dir ∷ dirs) =
      Keeps.Keeps-bind _ _ (Keeps-remove_if_there dir) (λ u. Keeps-remove_all dirs)

  Keeps-remove_sqlite_of : (q : String) (t : Option String) → Keeps P (remove_sqlite_of E q t)
  unfolding remove_sqlite_of
  Keeps-remove_sqlite_of q none = Keeps.Keeps-pure _
  Keeps-remove_sqlite_of q (some t) = Keeps-remove_if_there _

  pub Keeps-remove_sqlite : (q : String) → Keeps P (remove_sqlite E q)
  unfolding remove_sqlite
  Keeps-remove_sqlite q = search (keeps_rules, Keeps-remove_sqlite_of) depth 20

  Keeps-remove_package : (v : Option PluginVersion) → Keeps P (remove_package E v)
  unfolding remove_package
  Keeps-remove_package none = Keeps.Keeps-pure _
  Keeps-remove_package (some v) = search (keeps_rules, Keeps-remove_if_there) depth 20

  pub Keeps-remove_current_package :
      (q : String) (version : Option String) → Keeps P (remove_current_package E q version)
  unfolding remove_current_package get_version_by_plugin_and_version
  Keeps-remove_current_package q none = Keeps.Keeps-pure _
  Keeps-remove_current_package q (some v) = search (keeps_rules, Keeps-remove_package) depth 20

  Keeps-remove_dirs_of :
      (q : String) (m : Option PluginRuntimeManager) → Keeps P (remove_dirs_of E q m)
  unfolding remove_dirs_of
  Keeps-remove_dirs_of q none = Keeps.Keeps-pure _
  Keeps-remove_dirs_of q (some m) = search Keeps-remove_all

  pub Keeps-remove_dirs : (q : String) → Keeps P (remove_dirs E q)
  unfolding remove_dirs get_plugin_runtime_manager
  Keeps-remove_dirs q = search (keeps_rules, Keeps-remove_dirs_of) depth 20

  pub Keeps-log_uninstall :
      (ctx : RequestContext) (q : String)
      → ((c : Core) (row : PluginAuditLog)
          → row.plugin_id ≡ q
          → P c
          → P (with_audit_logs c (c.db.audit_logs ++ row ∷ [])))
      → Keeps P (log_uninstall E ctx q)
  unfolding log_uninstall
  Keeps-log_uninstall ctx q l =
      Keeps.Keeps-bind _ _ (Keeps.Keeps-attempt _ (Keeps-append_audit_log q _ _ _ l))
        (λ r. Keeps.Keeps-pure _)
