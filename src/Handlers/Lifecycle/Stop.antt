-- ===== src/Handlers/Lifecycle/Stop.antt =====
-- What stopping a plugin leaves behind.

use yh_extension_manager_v.Prelude.{
  String, ◌≡◌, refl, Bool, true, false, Option, none, some, [], ◌∷◌, ◌++◌, ◌==◌, arith, eq_iff,
}
use yh_extension_manager_v.Prelude.Dict
use yh_extension_manager_v.Prelude.Outcome.{Result, ok, err, is_ok}
use yh_extension_manager_v.Prelude.Rows.{select_one}
use yh_extension_manager_v.Entities.{PluginRegistry, PluginAuditLog, RuntimeHandle}
use yh_extension_manager_v.World.{Env, Core, World, PluginRuntimeManager, ◌>>=◌}
use yh_extension_manager_v.World.Keeps
use yh_extension_manager_v.World.Keeps.{Keeps}
use yh_extension_manager_v.World.Reliable.{Reliable}
use yh_extension_manager_v.Registry.{by_id, get_registry_by_id}
use yh_extension_manager_v.Registry.State.{
  state_of, with_audit_logs, Keeps-update_plugin_runtime_state, Keeps-append_audit_log,
  update_plugin_runtime_state-sets,
}
use yh_extension_manager_v.Manager.{
  get_plugin_runtime_manager, handle_of, on_runtimes, set_runtime_handle, remove_runtime_handle,
}
use yh_extension_manager_v.Installer.{installed, running}
use yh_extension_manager_v.Handlers.{AppError, RequestContext}
use yh_extension_manager_v.Handlers.Lifecycle.{
  load_stoppable, stop_runtime, report_stop, report_failed_stop, settle_stop, stop_plugin_runtime,
}
use yh_extension_manager_v.Handlers.Lifecycle.Quiet.{core-load_stoppable}

-- Whether a plugin is recorded as running.
abbrev pub is_running : Option (Bool × String) → Bool
is_running none = false
is_running (some (_, status)) = status == running

module _ {E : Env} where
  pub load_stoppable-manager :
      (q : String) (w : World E) {m : PluginRuntimeManager}
      → (load_stoppable E q w).0 ≡ ok m
      → w.core.manager ≡ some m
  unfolding load_stoppable get_plugin_runtime_manager get_registry_by_id ◌>>=◌
  load_stoppable-manager q w h = ground arith

  pub load_stoppable-running :
      (q : String) (w : World E) {m : PluginRuntimeManager}
      → (load_stoppable E q w).0 ≡ ok m
      → is_running (state_of w.core.db.registry q) ≡ true
  unfolding load_stoppable get_plugin_runtime_manager get_registry_by_id ◌>>=◌
  load_stoppable-running q w h = ground arith

  load_stoppable-finds :
      (R : Reliable E) (q : String) (w : World E) (m : PluginRuntimeManager)
      (o : Option PluginRegistry) {b : Bool}
      → w.core.manager ≡ some m
      → select_one (by_id q) w.core.db.registry ≡ o
      → state_of w.core.db.registry q ≡ some (b, running)
      → (load_stoppable E q w).0 ≡ ok m
  unfolding load_stoppable get_plugin_runtime_manager get_registry_by_id ◌>>=◌
  load_stoppable-finds R q w m none e f g = ground arith
  load_stoppable-finds R q w m (some r) e f g =
      rw (e, R.answers w.env, f) (ground (arith, eq_iff r.install_status running))

  -- A plugin that is recorded as running is found, if the database answers.
  pub load_stoppable-loads :
      (R : Reliable E) (q : String) (w : World E) (m : PluginRuntimeManager) {b : Bool}
      → w.core.manager ≡ some m
      → state_of w.core.db.registry q ≡ some (b, running)
      → (load_stoppable E q w).0 ≡ ok m
  load_stoppable-loads R q w m {b} e g =
      load_stoppable-finds R q w m (select_one (by_id q) w.core.db.registry) {b = b} e refl g

  load_stoppable-refuses :
      (q : String) (w : World E)
      → is_running (state_of w.core.db.registry q) ≡ false
      → is_ok (load_stoppable E q w).0 ≡ false
  unfolding load_stoppable get_plugin_runtime_manager get_registry_by_id ◌>>=◌
  load_stoppable-refuses q w h = ground arith

  -- A plugin that is not recorded as running is not stopped: the request fails, and nothing that
  -- the program keeps changes, whatever the machine does.
  pub stop_plugin_runtime-refuses :
      (ctx : RequestContext) (q : String) (w : World E)
      → is_running (state_of w.core.db.registry q) ≡ false
      → (is_ok (stop_plugin_runtime E ctx q w).0 ≡ false)
        × ((stop_plugin_runtime E ctx q w).1.core ≡ w.core)
  unfolding stop_plugin_runtime ◌>>=◌
  stop_plugin_runtime-refuses ctx q w h =
      ground (arith, core-load_stoppable q w, load_stoppable-refuses q w)

  pub stop_plugin_runtime-not_loaded :
      (ctx : RequestContext) (q : String) (w : World E) {x : AppError}
      → (load_stoppable E q w).0 ≡ err x
      → ((stop_plugin_runtime E ctx q w).0 ≡ err x)
        × ((stop_plugin_runtime E ctx q w).1.core ≡ w.core)
  unfolding stop_plugin_runtime ◌>>=◌
  stop_plugin_runtime-not_loaded ctx q w h = ground (arith, core-load_stoppable q w)

  -- the world in which the runtime is stopped: its handle is taken
  unfoldable pub taken : String → World E → World E
  unfolding remove_runtime_handle
  taken q w = (remove_runtime_handle E {F = AppError} q (load_stoppable E q w).1).1

  pub core-taken :
      (q : String) (w : World E) → (taken q w).core ≡ on_runtimes (Dict.remove q) w.core
  unfolding taken remove_runtime_handle ◌>>=◌
  core-taken q w = rw (core-load_stoppable q w) refl

  pub stop_plugin_runtime-no_handle :
      (ctx : RequestContext) (q : String) (w : World E) {m : PluginRuntimeManager}
      → (load_stoppable E q w).0 ≡ ok m
      → handle_of w.core q ≡ none
      → (is_ok (stop_plugin_runtime E ctx q w).0 ≡ false)
        × ((stop_plugin_runtime E ctx q w).1.core ≡ on_runtimes (Dict.remove q) w.core)
  unfolding stop_plugin_runtime remove_runtime_handle ◌>>=◌
  stop_plugin_runtime-no_handle ctx q w e f = ground (arith, core-load_stoppable q w)

  pub stop_plugin_runtime-eq :
      (ctx : RequestContext) (q : String) (w : World E) {m : PluginRuntimeManager}
      {h : RuntimeHandle}
      → (load_stoppable E q w).0 ≡ ok m
      → handle_of w.core q ≡ some h
      → stop_plugin_runtime E ctx q w ≡ (
          let (r, w') = stop_runtime E h m.snapshot.docker_engine_command (taken q w) in
          settle_stop E ctx q h r w')
  unfolding stop_plugin_runtime taken remove_runtime_handle ◌>>=◌
  stop_plugin_runtime-eq ctx q w e f = rw (e, core-load_stoppable q w, f) refl

  module _ {P : Core → Type 0} where
    pub Keeps-report_stop :
        (ctx : RequestContext) (q : String) (h : RuntimeHandle)
        → ((c : Core) (row : PluginAuditLog)
            → row.plugin_id ≡ q
            → P c
            → P (with_audit_logs c (c.db.audit_logs ++ row ∷ [])))
        → Keeps P (report_stop E ctx q h)
    unfolding report_stop
    Keeps-report_stop ctx q h l =
        Keeps.Keeps-bind _ _ (Keeps.Keeps-attempt _ (Keeps-append_audit_log q _ _ _ l))
          (λ r. Keeps.Keeps-pure _)

    pub Keeps-report_failed_stop :
        (ctx : RequestContext) (q : String) (e : String)
        → ((c : Core) (row : PluginAuditLog)
            → row.plugin_id ≡ q
            → P c
            → P (with_audit_logs c (c.db.audit_logs ++ row ∷ [])))
        → Keeps P (report_failed_stop E ctx q e)
    unfolding report_failed_stop
    Keeps-report_failed_stop ctx q e l =
        Keeps.Keeps-bind _ _ (Keeps.Keeps-attempt _ (Keeps-append_audit_log q _ _ _ l))
          (λ r. Keeps.Keeps-raise _)

  pub settle_stop-stops :
      (ctx : RequestContext) (q : String) (h : RuntimeHandle) (r : Result String Unit) (w : World E)
      {g : RuntimeHandle}
      → (settle_stop E ctx q h r w).0 ≡ ok g
      → (h ≡ g) × ((settle_stop E ctx q h r w).1.core.manager ≡ w.core.manager)
  unfolding settle_stop report_stop report_failed_stop set_runtime_handle ◌>>=◌
  settle_stop-stops ctx q h (ok u) w e =
      let P : Core → Type 0 = λ c. c.manager ≡ w.core.manager in
      let k =
        (Keeps-report_stop {P = P} ctx q h (λ c row e p. p)).at _ (
          (Keeps-update_plugin_runtime_state {P = P} q false installed (λ c now p. p)).at w refl) in
      (ground arith, k)
  settle_stop-stops ctx q h (err x) w e = ground arith

  pub settle_stop-state :
      (R : Reliable E) (ctx : RequestContext) (q : String) (h : RuntimeHandle)
      (r : Result String Unit) (w : World E) {g : RuntimeHandle} {y : Bool × String}
      → state_of w.core.db.registry q ≡ some y
      → (settle_stop E ctx q h r w).0 ≡ ok g
      → state_of (settle_stop E ctx q h r w).1.core.db.registry q ≡ some (false, installed)
  unfolding settle_stop report_failed_stop set_runtime_handle ◌>>=◌
  settle_stop-state R ctx q h (ok u) w f e =
      let P : Core → Type 0 = λ c. state_of c.db.registry q ≡ some (false, installed) in
      (Keeps-report_stop {P = P} ctx q h (λ c row e p. p)).at _
        (update_plugin_runtime_state-sets R q false installed w f)
  settle_stop-state R ctx q h (err x) w f e = ground arith

  pub settle_stop-restores :
      (ctx : RequestContext) (q : String) (h : RuntimeHandle) (r : Result String Unit) (w : World E)
      {x : AppError}
      → (settle_stop E ctx q h r w).0 ≡ err x
      → ((settle_stop E ctx q h r w).1.core.manager
          ≡ (on_runtimes (Dict.insert q h) w.core).manager)
        × ((settle_stop E ctx q h r w).1.core.db.registry ≡ w.core.db.registry)
  unfolding settle_stop report_stop set_runtime_handle ◌>>=◌
  settle_stop-restores ctx q h (ok u) w e = ground arith
  settle_stop-restores ctx q h (err x) w e =
      let P : Core → Type 0 = λ c.
        (c.manager ≡ (on_runtimes (Dict.insert q h) w.core).manager)
        × (c.db.registry ≡ w.core.db.registry) in
      (Keeps-report_failed_stop {P = P} ctx q x (λ c row e p. p)).at _ (refl, refl)
