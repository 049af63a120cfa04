-- ===== src/Handlers/Uninstall/Orphan.antt =====
-- A runtime that does not stop while its plugin is uninstalled.
use yh_extension_manager_v.Prelude.{
  String, ◌≡◌, refl, Bool, false, Option, none, some, eq_refl, ap, ◌∙◌,
}
use yh_extension_manager_v.Prelude.Dict
use yh_extension_manager_v.Prelude.Outcome.{Result, ok, err, is_ok}
use yh_extension_manager_v.Entities.{RuntimeHandle}
use yh_extension_manager_v.World.{Env, World, Exec, PluginRuntimeManager, map_error, ◌>>=◌}
use yh_extension_manager_v.Registry.State.{state_of}
use yh_extension_manager_v.Manager.{
  handle_of, on_runtimes, get_plugin_runtime_manager, remove_runtime_handle,
}
use yh_extension_manager_v.Manager.Handles.{handle_of-remove_self}
use yh_extension_manager_v.Installer.{running}
use yh_extension_manager_v.Handlers.{AppError, internal, RequestContext}
use yh_extension_manager_v.Handlers.Lifecycle.{
  stop_runtime, start_plugin_runtime, stop_plugin_runtime, load_stoppable,
}
use yh_extension_manager_v.Handlers.Lifecycle.Quiet.{core-stop_runtime}
use yh_extension_manager_v.Handlers.Lifecycle.Start.{start_plugin_runtime-refuses}
use yh_extension_manager_v.Handlers.Lifecycle.Stop.{
  stop_plugin_runtime-no_handle, stop_plugin_runtime-not_loaded,
}
use yh_extension_manager_v.Handlers.Uninstall.{stop_taken, stop_active_runtime, uninstall_plugin}

module _ {E : Env} where
  -- the world in which the runtime of an uninstalled plugin is stopped
  abbrev pub without_handle : String → World E → World E
  without_handle q w = record w { core = on_runtimes (Dict.remove q) w.core }

  map_error-err :
      {F G A : Type 0} (f : F → G) (k : Exec E F A) (v : World E) {x : F}
      → (k v).0 ≡ err x
      → (map_error f k v).0 ≡ err (f x)
  unfolding ◌>>=◌
  map_error-err f k v g = rw g refl

  stop_taken-fails :
      (x : String) (o : Option PluginRuntimeManager) (m : PluginRuntimeManager)
      (p : Option RuntimeHandle) (h : RuntimeHandle) (v : World E)
      → o ≡ some m
      → p ≡ some h
      → (stop_runtime E h m.snapshot.docker_engine_command v).0 ≡ err x
      → ((stop_taken E o p v).0 ≡ err (internal x)) × ((stop_taken E o p v).1.core ≡ v.core)
  unfolding stop_taken ◌>>=◌
  stop_taken-fails x o m p h v e f g =
      rw (e, f)
        (
          map_error-err internal (stop_runtime E h m.snapshot.docker_engine_command) v g,
          core-stop_runtime h m.snapshot.docker_engine_command v,
        )

  uninstall_plugin-stop_fails :
      (ctx : RequestContext) (q x : String) (w : World E) (m : PluginRuntimeManager)
      (h : RuntimeHandle)
      → w.core.manager ≡ some m
      → handle_of w.core q ≡ some h
      → (stop_runtime E h m.snapshot.docker_engine_command (without_handle q w)).0 ≡ err x
      → ((uninstall_plugin E ctx q w).0 ≡ err (internal x))
        × ((uninstall_plugin E ctx q w).1.core ≡ on_runtimes (Dict.remove q) w.core)
  unfolding uninstall_plugin stop_active_runtime stop_taken get_plugin_runtime_manager
      remove_runtime_handle ◌>>=◌
  uninstall_plugin-stop_fails ctx q x w m h e f g =
      let v = without_handle q w in
      let (a, b) = stop_taken-fails x w.core.manager m (handle_of w.core q) h v e f g in
      (rw a refl, rw a b)

  stop_plugin_runtime-orphan :
      (ctx : RequestContext) (q : String) (w : World E) (r : Result AppError PluginRuntimeManager)
      → (load_stoppable E q w).0 ≡ r
      → handle_of w.core q ≡ none
      → is_ok (stop_plugin_runtime E ctx q w).0 ≡ false
  stop_plugin_runtime-orphan ctx q w (ok m) e f =
      (stop_plugin_runtime-no_handle ctx q w {m = m} e f).0
  stop_plugin_runtime-orphan ctx q w (err x) e f =
      rw ((stop_plugin_runtime-not_loaded ctx q w {x = x} e).0) refl

  -- When the runtime of a plugin that is recorded as running does not stop while the plugin is
  -- uninstalled, the request fails with the runtime's error and the plugin stays recorded as
  -- running, but its handle is lost: from there, both starting and stopping the plugin fail,
  -- whatever the machine and the database do.
  pub uninstall_plugin-orphan :
      (ctx : RequestContext) (q x : String) (w : World E) (m : PluginRuntimeManager)
      (h : RuntimeHandle) (b : Bool)
      → w.core.manager ≡ some m
      → handle_of w.core q ≡ some h
      → state_of w.core.db.registry q ≡ some (b, running)
      → (stop_runtime E h m.snapshot.docker_engine_command (without_handle q w)).0 ≡ err x
      → (let w' = (uninstall_plugin E ctx q w).1 in
          ((uninstall_plugin E ctx q w).0 ≡ err (internal x))
          × (w'.core.db ≡ w.core.db)
          × (is_ok (start_plugin_runtime E ctx q w').0 ≡ false)
          × (is_ok (stop_plugin_runtime E ctx q w').0 ≡ false))
  uninstall_plugin-orphan ctx q x w m h b e f s g =
      let (a, c) = uninstall_plugin-stop_fails ctx q x w m h e f g in
      let w' = (uninstall_plugin E ctx q w).1 in
      (
        a,
        ap (λ d. d.db) c,
        (start_plugin_runtime-refuses ctx q w' (rw (c, s, eq_refl running) refl)).0,
        stop_plugin_runtime-orphan ctx q w' (load_stoppable E q w').0 refl
            (ap (λ d. handle_of d q) c ∙ handle_of-remove_self w.core q),
      )
