-- ===== src/Handlers/Frame/Requests.antt =====
-- Sequences of requests, and a plugin that none of them is about.
use mathlib.Core.List.{append-nil}
use yh_extension_manager_v.Prelude.{String, ◌≡◌, refl, true, false, List, [], ◌∷◌, sym, ap}
use yh_extension_manager_v.Prelude.Outcome.{Result, ok, err}
use yh_extension_manager_v.Prelude.Rows.{select_one, delete_many, select_one-delete_other}
use yh_extension_manager_v.Entities.{Db, RuntimeHandle}
use yh_extension_manager_v.World.{Env, Core, World}
use yh_extension_manager_v.World.Keeps
use yh_extension_manager_v.World.Keeps.{Keeps, keeps_rules}
use yh_extension_manager_v.Registry.{
  by_id, get_registry_by_id, delete_plugin_permission_grants_all, delete_plugin_versions,
  delete_plugin_tasks, delete_plugin_nav_items, delete_plugin_shared_records,
  delete_plugin_migration_states, delete_plugin_registry,
}
use yh_extension_manager_v.Registry.State.{Keeps-update_plugin_runtime_state}
use yh_extension_manager_v.Manager.{
  set_runtime_handle, get_plugin_runtime_manager, remove_runtime_handle,
}
use yh_extension_manager_v.Installer.{installed, running}
use yh_extension_manager_v.Handlers.{RequestContext}
use yh_extension_manager_v.Handlers.Lifecycle.{
  Startable, settle_start, settle_stop, start_plugin_runtime, stop_plugin_runtime,
}
use yh_extension_manager_v.Handlers.Lifecycle.Quiet.{
  Keeps-load_startable, Keeps-start_runtime, Keeps-load_stoppable, Keeps-stop_runtime,
}
use yh_extension_manager_v.Handlers.Lifecycle.Start.{Keeps-report_start, Keeps-report_failed_start}
use yh_extension_manager_v.Handlers.Lifecycle.Stop.{Keeps-report_stop, Keeps-report_failed_stop}
use yh_extension_manager_v.Handlers.Uninstall.{
  stop_active_runtime, delete_rows, delete_all_rows, uninstall_plugin,
}
use yh_extension_manager_v.Handlers.Uninstall.Rows.{
  Keeps-stop_taken, Keeps-remove_sqlite, Keeps-remove_current_package, Keeps-remove_dirs,
  Keeps-log_uninstall,
}
use yh_extension_manager_v.Handlers.Frame.{
  AgreesOn, Other, disjoint, agrees_state, agrees_log, agrees_nav, agrees_insert, agrees_remove,
  agrees_db,
}

module _ {E : Env} (q j : String) (c : Core) (apart : Other q j) where
  settle_start-agrees :
      (ctx : RequestContext) (s : Startable) (r : Result String RuntimeHandle)
      → Keeps (AgreesOn j c) (settle_start E ctx q s r)
  unfolding settle_start set_runtime_handle
  settle_start-agrees ctx s (ok g) =
      Keeps.Keeps-bind _ _ (Keeps.Keeps-modify _ (agrees_insert q j c apart g))
        (λ u. Keeps-report_start ctx q s g (agrees_nav j c) (λ d row e. agrees_log j c d row))
  settle_start-agrees ctx s (err e) =
      Keeps.Keeps-bind _ _
        (Keeps.Keeps-attempt _ (
          Keeps-update_plugin_runtime_state q _ _
            (agrees_state q j c apart s.plugin.enabled s.plugin.install_status)))
        (λ u. Keeps-report_failed_start ctx q s e (λ d row e. agrees_log j c d row))

  start-agrees : (ctx : RequestContext) → Keeps (AgreesOn j c) (start_plugin_runtime E ctx q)
  unfolding start_plugin_runtime
  start-agrees ctx = Keeps.Keeps-bind _ _ (Keeps-load_startable q) (λ s.
      Keeps.Keeps-bind _ _
        (Keeps.Keeps-attempt _
          (Keeps-update_plugin_runtime_state q _ _ (agrees_state q j c apart true running)))
        (λ u.
          Keeps.Keeps-bind _ _ (Keeps.Keeps-attempt _ (Keeps-start_runtime q s _))
            (λ r. settle_start-agrees ctx s r)))

  settle_stop-agrees :
      (ctx : RequestContext) (g : RuntimeHandle) (r : Result String Unit)
      → Keeps (AgreesOn j c) (settle_stop E ctx q g r)
  unfolding settle_stop set_runtime_handle
  settle_stop-agrees ctx g (ok u) =
      Keeps.Keeps-bind _ _
        (Keeps.Keeps-attempt _
          (Keeps-update_plugin_runtime_state q _ _ (agrees_state q j c apart false installed)))
        (λ u. Keeps-report_stop ctx q g (λ d row e. agrees_log j c d row))
  settle_stop-agrees ctx g (err e) =
      Keeps.Keeps-bind _ _ (Keeps.Keeps-modify _ (agrees_insert q j c apart g))
        (λ u. Keeps-report_failed_stop ctx q e (λ d row e. agrees_log j c d row))

  Keeps-remove_runtime_handle :
      {F : Type 0} → Keeps (AgreesOn j c) (remove_runtime_handle E {F = F} q)
  unfolding remove_runtime_handle
  Keeps-remove_runtime_handle = Keeps.Keeps-bind _ _ (Keeps.Keeps-gets _) (λ h.
      Keeps.Keeps-bind _ _ (Keeps.Keeps-modify _ (agrees_remove q j c apart))
        (λ u. Keeps.Keeps-pure _))

  stop-agrees : (ctx : RequestContext) → Keeps (AgreesOn j c) (stop_plugin_runtime E ctx q)
  unfolding stop_plugin_runtime
  stop-agrees ctx =
      search
        (
          keeps_rules, Keeps-load_stoppable, Keeps-remove_runtime_handle, Keeps-stop_runtime,
          settle_stop-agrees,
        )
        depth 40

  delete_all_rows-agrees : Keeps (AgreesOn j c) (delete_all_rows E q)
  unfolding delete_all_rows delete_plugin_permission_grants_all delete_plugin_versions
      delete_plugin_tasks delete_plugin_nav_items delete_plugin_shared_records
      delete_plugin_migration_states delete_plugin_registry
  delete_all_rows-agrees =
      let next =
        λ (d : Core) (db : Db) (e : db.registry ≡ d.db.registry)
            (f : db.audit_logs ≡ d.db.audit_logs).
          agrees_db j c d db (ap (select_one (by_id j)) e) f in
      let gone = λ (d : Core).
        agrees_db j c d (record d.db { registry = delete_many (by_id q) d.db.registry })
          (select_one-delete_other (by_id j) (by_id q) d.db.registry
            (λ r e. (disjoint q j true running 0 apart r e).0))
          refl in
      Keeps.Keeps-bind _ _
        (Keeps.Keeps-attempt _ (Keeps.Keeps-statement _ (λ d. next d _ refl refl)))
        (λ u.
          Keeps.Keeps-bind _ _
            (Keeps.Keeps-attempt _ (Keeps.Keeps-statement _ (λ d. next d _ refl refl)))
            (λ u.
              Keeps.Keeps-bind _ _
                (Keeps.Keeps-attempt _ (Keeps.Keeps-statement _ (λ d. next d _ refl refl)))
                (λ u.
                  Keeps.Keeps-bind _ _
                    (Keeps.Keeps-attempt _ (Keeps.Keeps-statement _ (λ d. next d _ refl refl)))
                    (λ u.
                      Keeps.Keeps-bind _ _
                        (Keeps.Keeps-attempt _ (Keeps.Keeps-statement _ (λ d. next d _ refl refl)))
                        (λ u.
                          Keeps.Keeps-bind _ _
                            (Keeps.Keeps-attempt _
                              (Keeps.Keeps-statement _ (λ d. next d _ refl refl)))
                            (λ u.
                              Keeps.Keeps-bind _ _
                                (Keeps.Keeps-attempt _ (Keeps.Keeps-statement _ gone))
                                (λ u. Keeps.Keeps-pure _)))))))

  delete_rows-agrees : (ctx : RequestContext) → Keeps (AgreesOn j c) (delete_rows E ctx q)
  unfolding delete_rows
  delete_rows-agrees ctx =
      Keeps.Keeps-bind _ _ delete_all_rows-agrees
        (λ u. Keeps-log_uninstall ctx q (λ d row e. agrees_log j c d row))

  stop_active_runtime-agrees : Keeps (AgreesOn j c) (stop_active_runtime E q)
  unfolding stop_active_runtime get_plugin_runtime_manager
  stop_active_runtime-agrees =
      Keeps.Keeps-bind _ _ (Keeps.Keeps-gets _)
        (λ m. Keeps.Keeps-bind _ _ Keeps-remove_runtime_handle (λ h. Keeps-stop_taken m h))

  uninstall-agrees : (ctx : RequestContext) → Keeps (AgreesOn j c) (uninstall_plugin E ctx q)
  unfolding uninstall_plugin get_registry_by_id
  uninstall-agrees ctx =
      search
        (
          keeps_rules, stop_active_runtime-agrees, Keeps-remove_sqlite,
          Keeps-remove_current_package, Keeps-remove_dirs, delete_rows-agrees,
        )
        depth 60

-- The requests that change the state of a plugin.
pub data Request : Type 0 where
  start stop uninstall : RequestContext → String → Request

unfoldable pub plugin_of : Request → String
plugin_of (Request.start _ q) = q
plugin_of (Request.stop _ q) = q
plugin_of (Request.uninstall _ q) = q

-- Requests are handled one after the other, whether they succeed or not.
unfoldable pub handle_all : (E : Env) → List Request → World E → World E
handle_all E [] w = w
handle_all E (Request.start ctx q ∷ rs) w = handle_all E rs (start_plugin_runtime E ctx q w).1
handle_all E (Request.stop ctx q ∷ rs) w = handle_all E rs (stop_plugin_runtime E ctx q w).1
handle_all E (Request.uninstall ctx q ∷ rs) w = handle_all E rs (uninstall_plugin E ctx q w).1

pub data AllOther (j : String) : List Request → Type 0 where
  none_left : AllOther j []
  and_other :
      {r : Request} {rs : List Request}
      → Other (plugin_of r) j
      → AllOther j rs
      → AllOther j (r ∷ rs)

module _ {E : Env} where
  handle_all-keeps :
      (j : String) (c : Core) (rs : List Request) (w : World E)
      → AllOther j rs
      → AgreesOn j c w.core
      → AgreesOn j c (handle_all E rs w).core
  unfolding handle_all plugin_of
  handle_all-keeps j c [] w AllOther.none_left h = h
  handle_all-keeps j c (Request.start ctx q ∷ rs) w (AllOther.and_other a bs) h =
      handle_all-keeps j c rs _ bs ((start-agrees {E = E} q j c a ctx).at w h)
  handle_all-keeps j c (Request.stop ctx q ∷ rs) w (AllOther.and_other a bs) h =
      handle_all-keeps j c rs _ bs ((stop-agrees {E = E} q j c a ctx).at w h)
  handle_all-keeps j c (Request.uninstall ctx q ∷ rs) w (AllOther.and_other a bs) h =
      handle_all-keeps j c rs _ bs ((uninstall-agrees {E = E} q j c a ctx).at w h)

  -- However many requests to start, stop and uninstall other plugins are handled, and whatever
  -- the machine and the database do, a plugin's row and handle stay as they are, and the audit
  -- log only grows at its end.
  pub handle_all-AgreesOn :
      (j : String) (rs : List Request) (w : World E)
      → AllOther j rs
      → AgreesOn j w.core (handle_all E rs w).core
  handle_all-AgreesOn j rs w a = handle_all-keeps j w.core rs w a (record {
    row = refl;
    handle = refl;
    log = [];
    appended = sym (append-nil w.core.db.audit_logs);
  })
