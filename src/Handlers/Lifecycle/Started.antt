-- ===== src/Handlers/Lifecycle/Started.antt =====
-- Success and failure of starting a plugin.
use yh_extension_manager_v.Prelude.{String, ◌≡◌, refl, true, some, arith, sym, ap, ◌∙◌}
use yh_extension_manager_v.Prelude.Outcome.{Result, ok, err}
use yh_extension_manager_v.Entities.{RuntimeHandle}
use yh_extension_manager_v.World.{Env, World}
use yh_extension_manager_v.World.Reliable.{Reliable}
use yh_extension_manager_v.Registry.State.{state_of}
use yh_extension_manager_v.Manager.{handle_of}
use yh_extension_manager_v.Installer.{running}
use yh_extension_manager_v.Handlers.{AppError, RequestContext}
use yh_extension_manager_v.Handlers.Lifecycle.{
  Startable, load_startable, start_runtime, start_plugin_runtime,
}
use yh_extension_manager_v.Handlers.Lifecycle.Start.{
  load_startable-manager, load_startable-plugin, start_plugin_runtime-eq,
  start_plugin_runtime-not_loaded, marked, marked-state, marked-manager, settle_start-starts,
  settle_start-manager, settle_start-fails, launched, core-launched,
}

module _ {E : Env} where
  starts_after :
      (R : Reliable E) (ctx : RequestContext) (q : String) (w : World E) {h : RuntimeHandle}
      (r : Result AppError Startable)
      → (load_startable E q w).0 ≡ r
      → (start_plugin_runtime E ctx q w).0 ≡ ok h
      → (handle_of (start_plugin_runtime E ctx q w).1.core q ≡ some h)
        × (state_of (start_plugin_runtime E ctx q w).1.core.db.registry q ≡ some (true, running))
  unfolding launched
  starts_after R ctx q w {h} (ok s) e f =
      let eq = start_plugin_runtime-eq ctx q w {s = s} e in
      let (a, b) =
        settle_start-starts ctx q s (start_runtime E q s s.manifest.runtime (marked q w)).0
          (launched q s w) s.manager {h = h}
          (rw (core-launched q s w, marked-manager q w) (load_startable-manager q w {s = s} e))
          (ap (λ p. p.0) (sym eq) ∙ f) in
      rw eq (a, rw (b, core-launched q s w) (marked-state R q w {s = s} e))
  starts_after R ctx q w {h} (err x) e f =
      let (a, _) = start_plugin_runtime-not_loaded ctx q w {x = x} e in ground arith

  -- With a reliable database, a plugin whose start succeeds is recorded as enabled and running,
  -- and the handle that the request returns is the one kept for it.
  pub start_plugin_runtime-starts :
      (R : Reliable E) (ctx : RequestContext) (q : String) (w : World E) {h : RuntimeHandle}
      → (start_plugin_runtime E ctx q w).0 ≡ ok h
      → (handle_of (start_plugin_runtime E ctx q w).1.core q ≡ some h)
        × (state_of (start_plugin_runtime E ctx q w).1.core.db.registry q ≡ some (true, running))
  start_plugin_runtime-starts R ctx q w {h} f =
      starts_after R ctx q w {h = h} (load_startable E q w).0 refl f

  fails_after :
      (ctx : RequestContext) (q : String) (w : World E) {x : AppError}
      (r : Result AppError Startable)
      → (load_startable E q w).0 ≡ r
      → (start_plugin_runtime E ctx q w).0 ≡ err x
      → (start_plugin_runtime E ctx q w).1.core.manager ≡ w.core.manager
  unfolding launched
  fails_after ctx q w {x} (ok s) e f =
      let eq = start_plugin_runtime-eq ctx q w {s = s} e in
      let a =
        settle_start-manager ctx q s (start_runtime E q s s.manifest.runtime (marked q w)).0
          (launched q s w) {x = x} (ap (λ p. p.0) (sym eq) ∙ f) in
      ap (λ p. p.1.core.manager) eq
      ∙ a
      ∙ ap (λ c. c.manager) (core-launched q s w)
      ∙ marked-manager q w
  fails_after ctx q w (err y) e f =
      ap (λ c. c.manager) (start_plugin_runtime-not_loaded ctx q w {x = y} e).1

  -- A start that fails keeps no handle that was not there, and drops none: the manager is as it
  -- was, whatever the machine and the database do.
  pub start_plugin_runtime-fails :
      (ctx : RequestContext) (q : String) (w : World E) {x : AppError}
      → (start_plugin_runtime E ctx q w).0 ≡ err x
      → (start_plugin_runtime E ctx q w).1.core.manager ≡ w.core.manager
  start_plugin_runtime-fails ctx q w {x} f =
      fails_after ctx q w {x = x} (load_startable E q w).0 refl f

  rolls_back_after :
      (R : Reliable E) (ctx : RequestContext) (q : String) (w : World E) {x : AppError}
      (r : Result AppError Startable)
      → (load_startable E q w).0 ≡ r
      → (start_plugin_runtime E ctx q w).0 ≡ err x
      → state_of (start_plugin_runtime E ctx q w).1.core.db.registry q
        ≡ state_of w.core.db.registry q
  unfolding launched
  rolls_back_after R ctx q w {x} (ok s) e f =
      let eq = start_plugin_runtime-eq ctx q w {s = s} e in
      let a =
        settle_start-fails R ctx q s (start_runtime E q s s.manifest.runtime (marked q w)).0
          (launched q s w) {x = x} {y = (true, running)}
          (rw (core-launched q s w) (marked-state R q w {s = s} e)) (ap (λ p. p.0) (sym eq) ∙ f) in
      rw (eq, load_startable-plugin q w {s = s} e) a
  rolls_back_after R ctx q w (err y) e f =
      ap (λ c. state_of c.db.registry q) (start_plugin_runtime-not_loaded ctx q w {x = y} e).1

  -- With a reliable database, a start that fails leaves the plugin's flag and status as they were:
  -- the mark `running` that is set in front of the launch is taken back.
  pub start_plugin_runtime-rolls_back :
      (R : Reliable E) (ctx : RequestContext) (q : String) (w : World E) {x : AppError}
      → (start_plugin_runtime E ctx q w).0 ≡ err x
      → state_of (start_plugin_runtime E ctx q w).1.core.db.registry q
        ≡ state_of w.core.db.registry q
  start_plugin_runtime-rolls_back R ctx q w {x} f =
      rolls_back_after R ctx q w {x = x} (load_startable E q w).0 refl f
