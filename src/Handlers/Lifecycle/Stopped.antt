-- ===== src/Handlers/Lifecycle/Stopped.antt =====
-- Success and failure of stopping a plugin.
use yh_extension_manager_v.Prelude.{
  String, ◌≡◌, refl, Bool, true, false, Option, none, some, arith, eq_iff, eq_refl, sym, ap, ◌∙◌,
}
use yh_extension_manager_v.Prelude.Dict
use yh_extension_manager_v.Prelude.Outcome.{Result, ok, err, is_ok}
use yh_extension_manager_v.Entities.{RuntimeHandle}
use yh_extension_manager_v.World.{Env, World, PluginRuntimeManager, ◌>>=◌}
use yh_extension_manager_v.World.Reliable.{Reliable}
use yh_extension_manager_v.Registry.State.{state_of}
use yh_extension_manager_v.Manager.{handle_in, handle_of, on_runtimes}
use yh_extension_manager_v.Installer.{installed}
use yh_extension_manager_v.Manager.Handles.{handle_of-remove, put_back}
use yh_extension_manager_v.Handlers.{AppError, RequestContext}
use yh_extension_manager_v.Handlers.Lifecycle.{
  load_stoppable, stop_runtime, settle_stop, stop_plugin_runtime, start_plugin_runtime, report_stop,
  report_failed_stop,
}
use yh_extension_manager_v.Handlers.Lifecycle.Quiet.{core-stop_runtime}
use yh_extension_manager_v.Handlers.Lifecycle.Started.{start_plugin_runtime-starts}
use yh_extension_manager_v.Handlers.Lifecycle.Stop.{
  is_running, load_stoppable-manager, load_stoppable-running, load_stoppable-loads, taken,
  core-taken, stop_plugin_runtime-refuses, stop_plugin_runtime-not_loaded,
  stop_plugin_runtime-no_handle, stop_plugin_runtime-eq, settle_stop-stops, settle_stop-state,
  settle_stop-restores,
}

is_running-some :
    (o : Option (Bool × String)) → is_running o ≡ true → (x : Bool × String) × (o ≡ some x)
is_running-some none e = ground arith
is_running-some (some x) e = (x, refl)

module _ {E : Env} where
  -- the world after the attempt to stop the runtime
  abbrev tried : String → RuntimeHandle → PluginRuntimeManager → World E → World E
  tried q h m w = (stop_runtime E h m.snapshot.docker_engine_command (taken q w)).1

  core-tried :
      (q : String) (h : RuntimeHandle) (m : PluginRuntimeManager) (w : World E)
      → (tried q h m w).core ≡ on_runtimes (Dict.remove q) w.core
  core-tried q h m w =
      core-stop_runtime h m.snapshot.docker_engine_command (taken q w) ∙ core-taken q w

  stops_after :
      (R : Reliable E) (ctx : RequestContext) (q : String) (w : World E) {g : RuntimeHandle}
      (r : Result AppError PluginRuntimeManager) (o : Option RuntimeHandle)
      → (load_stoppable E q w).0 ≡ r
      → handle_of w.core q ≡ o
      → (stop_plugin_runtime E ctx q w).0 ≡ ok g
      → (handle_of w.core q ≡ some g)
        × (handle_of (stop_plugin_runtime E ctx q w).1.core q ≡ none)
        × (state_of (stop_plugin_runtime E ctx q w).1.core.db.registry q ≡ some (false, installed))
  stops_after R ctx q w {g} (ok m) (some h) e f k =
      let eq = stop_plugin_runtime-eq ctx q w {m = m} {h = h} e f in
      let r = (stop_runtime E h m.snapshot.docker_engine_command (taken q w)).0 in
      let k' : (settle_stop E ctx q h r (tried q h m w)).0 ≡ ok g = ap (λ p. p.0) (sym eq) ∙ k in
      let (same, kept) = settle_stop-stops ctx q h r (tried q h m w) {g = g} k' in
      let handle : handle_of (settle_stop E ctx q h r (tried q h m w)).1.core q ≡ none =
        ap (λ o. handle_in o q) (kept ∙ ap (λ c. c.manager) (core-tried q h m w))
        ∙ handle_of-remove w.core q q
        ∙ rw (eq_refl q) refl in
      let row =
        is_running-some (state_of w.core.db.registry q) (load_stoppable-running q w {m = m} e) in
      let state =
        settle_stop-state R ctx q h r (tried q h m w) {g = g} {y = row.0}
          (ap (λ c. state_of c.db.registry q) (core-tried q h m w) ∙ row.1) k' in
      (f ∙ ap some same, rw eq handle, rw eq state)
  stops_after R ctx q w {g} (ok m) none e f k =
      let (a, _) = stop_plugin_runtime-no_handle ctx q w {m = m} e f in ground arith
  stops_after R ctx q w {g} (err x) o e f k =
      let (a, _) = stop_plugin_runtime-not_loaded ctx q w {x = x} e in ground arith

  restores_after :
      (ctx : RequestContext) (q j : String) (w : World E) {x : AppError}
      (r : Result AppError PluginRuntimeManager) (o : Option RuntimeHandle)
      → (load_stoppable E q w).0 ≡ r
      → handle_of w.core q ≡ o
      → (stop_plugin_runtime E ctx q w).0 ≡ err x
      → (handle_of (stop_plugin_runtime E ctx q w).1.core j ≡ handle_of w.core j)
        × ((stop_plugin_runtime E ctx q w).1.core.db.registry ≡ w.core.db.registry)
  restores_after ctx q j w {x} (ok m) (some h) e f k =
      let eq = stop_plugin_runtime-eq ctx q w {m = m} {h = h} e f in
      let r = (stop_runtime E h m.snapshot.docker_engine_command (taken q w)).0 in
      let k' : (settle_stop E ctx q h r (tried q h m w)).0 ≡ err x = ap (λ p. p.0) (sym eq) ∙ k in
      let (a, b) = settle_stop-restores ctx q h r (tried q h m w) {x = x} k' in
      (
        ap (λ p. handle_of p.1.core j) eq
            ∙ ap (λ o. handle_in o j)
                (a ∙ ap (λ c. (on_runtimes (Dict.insert q h) c).manager) (core-tried q h m w))
            ∙ put_back w.core m q j h (load_stoppable-manager q w {m = m} e) f,
        ap (λ p. p.1.core.db.registry) eq ∙ b ∙ ap (λ c. c.db.registry) (core-tried q h m w),
      )
  restores_after ctx q j w {x} (ok m) none e f k =
      let (_, a) = stop_plugin_runtime-no_handle ctx q w {m = m} e f in
      rw a (ground (arith, handle_of-remove w.core q j, eq_iff q j), refl)
  restores_after ctx q j w {x} (err y) o e f k =
      let (_, a) = stop_plugin_runtime-not_loaded ctx q w {x = y} e in rw a (refl, refl)

  -- With a reliable database, a stop that succeeds returns the handle that was kept for the
  -- plugin; the handle is gone, and the plugin is recorded as installed and disabled.
  pub stop_plugin_runtime-stops :
      (R : Reliable E) (ctx : RequestContext) (q : String) (w : World E) {h : RuntimeHandle}
      → (stop_plugin_runtime E ctx q w).0 ≡ ok h
      → (handle_of w.core q ≡ some h)
        × (handle_of (stop_plugin_runtime E ctx q w).1.core q ≡ none)
        × (state_of (stop_plugin_runtime E ctx q w).1.core.db.registry q ≡ some (false, installed))
  stop_plugin_runtime-stops R ctx q w {h} f =
      stops_after R ctx q w {g = h} (load_stoppable E q w).0 (handle_of w.core q) refl refl f

  -- A stop that fails, whatever the machine and the database do, leaves every plugin's handle in
  -- place and the registry as it was: the handle that it took is put back.
  pub stop_plugin_runtime-restores :
      (ctx : RequestContext) (q j : String) (w : World E) {x : AppError}
      → (stop_plugin_runtime E ctx q w).0 ≡ err x
      → (handle_of (stop_plugin_runtime E ctx q w).1.core j ≡ handle_of w.core j)
        × ((stop_plugin_runtime E ctx q w).1.core.db.registry ≡ w.core.db.registry)
  stop_plugin_runtime-restores ctx q j w {x} f =
      restores_after ctx q j w {x = x} (load_stoppable E q w).0 (handle_of w.core q) refl refl f

  -- With a reliable database, a second stop right after one that succeeded is refused and changes
  -- nothing that the program keeps.
  pub stop_plugin_runtime-stop_plugin_runtime :
      (R : Reliable E) (ctx : RequestContext) (q : String) (w : World E) {h : RuntimeHandle}
      → (stop_plugin_runtime E ctx q w).0 ≡ ok h
      → (let w' = (stop_plugin_runtime E ctx q w).1 in
          (is_ok (stop_plugin_runtime E ctx q w').0 ≡ false)
          × ((stop_plugin_runtime E ctx q w').1.core ≡ w'.core))
  stop_plugin_runtime-stop_plugin_runtime R ctx q w {h} f =
      let (_, _, state) = stop_plugin_runtime-stops R ctx q w {h = h} f in
      stop_plugin_runtime-refuses ctx q (stop_plugin_runtime E ctx q w).1 (rw state refl)

  settle_stop-is_ok :
      (ctx : RequestContext) (q : String) (h : RuntimeHandle) (r : Result String Unit) (w : World E)
      → is_ok (settle_stop E ctx q h r w).0 ≡ is_ok r
  unfolding settle_stop report_stop report_failed_stop ◌>>=◌
  settle_stop-is_ok ctx q h (ok u) w = ground arith
  settle_stop-is_ok ctx q h (err e) w = ground arith

  -- With a reliable database, a plugin whose start succeeded is stopped by exactly the handle that
  -- the start returned: the stop succeeds if and only if stopping that runtime does.
  pub stop_plugin_runtime-start_plugin_runtime :
      (R : Reliable E) (ctx : RequestContext) (q : String) (w : World E) {h : RuntimeHandle}
      (m : PluginRuntimeManager)
      → (start_plugin_runtime E ctx q w).0 ≡ ok h
      → (start_plugin_runtime E ctx q w).1.core.manager ≡ some m
      → (let w' = (start_plugin_runtime E ctx q w).1 in
          is_ok (stop_plugin_runtime E ctx q w').0
          ≡ is_ok (stop_runtime E h m.snapshot.docker_engine_command (taken q w')).0)
  stop_plugin_runtime-start_plugin_runtime R ctx q w {h} m f e =
      let w' = (start_plugin_runtime E ctx q w).1 in
      let (handle, state) = start_plugin_runtime-starts R ctx q w {h = h} f in
      let loaded = load_stoppable-loads R q w' m {b = true} e state in
      rw (stop_plugin_runtime-eq ctx q w' {m = m} {h = h} loaded handle)
        (settle_stop-is_ok ctx q h _ _)
