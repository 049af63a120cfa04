-- ===== src/Handlers/Lifecycle/Start.antt =====
-- What starting a plugin leaves behind.

use yh_extension_manager_v.Prelude.{
  String, ◌≡◌, refl, Bool, true, false, ◌||◌, Option, none, some, List, [], ◌∷◌, ◌++◌, ◌==◌, arith,
  eq_refl,
}
use yh_extension_manager_v.Prelude.Dict
use yh_extension_manager_v.Prelude.Outcome.{Result, ok, err, is_ok}
use yh_extension_manager_v.Prelude.Rows.{select_one}
use yh_extension_manager_v.Manifest.{PluginManifest, PluginUiManifest}
use yh_extension_manager_v.Entities.{PluginAuditLog, PluginNavItem, RuntimeHandle}
use yh_extension_manager_v.World.{Env, Core, World, PluginRuntimeManager, ◌>>=◌}
use yh_extension_manager_v.World.Keeps
use yh_extension_manager_v.World.Keeps.{Keeps, keeps_rules}
use yh_extension_manager_v.World.Reliable.{Reliable}
use yh_extension_manager_v.Registry.{by_id, get_registry_by_id, update_plugin_runtime_state}
use yh_extension_manager_v.Registry.State.{
  state_of, with_audit_logs, with_nav_items, Keeps-update_plugin_runtime_state,
  Keeps-append_audit_log, Keeps-upsert_plugin_nav_item, update_plugin_runtime_state-sets,
}
use yh_extension_manager_v.Manager.{get_plugin_runtime_manager, handle_of, set_runtime_handle}
use yh_extension_manager_v.Installer.{pending, running}
use yh_extension_manager_v.Handlers.{AppError, RequestContext}
use yh_extension_manager_v.Handlers.Lifecycle.{
  Startable, load_startable, start_runtime, report_start, report_failed_start, settle_start,
  start_plugin_runtime, ensure_default_nav_item, ensure_nav_item_of,
}
use yh_extension_manager_v.Handlers.Lifecycle.Quiet.{core-load_startable, core-start_runtime}

-- A status in which a plugin is not started.
abbrev pub is_not_startable : Option (Bool × String) → Bool
is_not_startable none = true
is_not_startable (some (_, status)) = status == pending || status == running

module _ {E : Env} where
  pub load_startable-manager :
      (q : String) (w : World E) {s : Startable}
      → (load_startable E q w).0 ≡ ok s
      → w.core.manager ≡ some s.manager
  unfolding load_startable get_plugin_runtime_manager get_registry_by_id ◌>>=◌
  load_startable-manager q w h = ground arith

  pub load_startable-plugin :
      (q : String) (w : World E) {s : Startable}
      → (load_startable E q w).0 ≡ ok s
      → select_one (by_id q) w.core.db.registry ≡ some s.plugin
  unfolding load_startable get_plugin_runtime_manager get_registry_by_id ◌>>=◌
  load_startable-plugin q w h = ground arith

  pub load_startable-startable :
      (q : String) (w : World E) {s : Startable}
      → (load_startable E q w).0 ≡ ok s
      → is_not_startable (state_of w.core.db.registry q) ≡ false
  unfolding load_startable get_plugin_runtime_manager get_registry_by_id ◌>>=◌
  load_startable-startable q w h = ground arith

  load_startable-refuses :
      (q : String) (w : World E)
      → is_not_startable (state_of w.core.db.registry q) ≡ true
      → is_ok (load_startable E q w).0 ≡ false
  unfolding load_startable get_plugin_runtime_manager get_registry_by_id ◌>>=◌
  load_startable-refuses q w h = ground arith

  -- A plugin that is pending, running or not registered is not started: the request fails, and
  -- nothing that the program keeps changes, whatever the machine does.
  pub start_plugin_runtime-refuses :
      (ctx : RequestContext) (q : String) (w : World E)
      → is_not_startable (state_of w.core.db.registry q) ≡ true
      → (is_ok (start_plugin_runtime E ctx q w).0 ≡ false)
        × ((start_plugin_runtime E ctx q w).1.core ≡ w.core)
  unfolding start_plugin_runtime ◌>>=◌
  start_plugin_runtime-refuses ctx q w h =
      ground (arith, core-load_startable q w, load_startable-refuses q w)

  -- the world in which the runtime is started
  abbrev pub marked : String → World E → World E
  marked q w = (update_plugin_runtime_state E q true running (load_startable E q w).1).1

  -- what goes wrong in front of the first change
  pub start_plugin_runtime-not_loaded :
      (ctx : RequestContext) (q : String) (w : World E) {x : AppError}
      → (load_startable E q w).0 ≡ err x
      → ((start_plugin_runtime E ctx q w).0 ≡ err x)
        × ((start_plugin_runtime E ctx q w).1.core ≡ w.core)
  unfolding start_plugin_runtime ◌>>=◌
  start_plugin_runtime-not_loaded ctx q w h = ground (arith, core-load_startable q w)

  pub start_plugin_runtime-eq :
      (ctx : RequestContext) (q : String) (w : World E) {s : Startable}
      → (load_startable E q w).0 ≡ ok s
      → start_plugin_runtime E ctx q w ≡ (
          let (r, w') = start_runtime E q s s.manifest.runtime (marked q w) in
          settle_start E ctx q s r w')
  unfolding start_plugin_runtime ◌>>=◌
  start_plugin_runtime-eq ctx q w h = rw h refl

  module _ {P : Core → Type 0} where
    Keeps-ensure_nav_item_of :
        (q : String) (m : PluginManifest) (o : Option PluginUiManifest)
        → ((c : Core) (rows : List PluginNavItem) → P c → P (with_nav_items c rows))
        → Keeps P (ensure_nav_item_of E q m o)
    unfolding ensure_nav_item_of
    Keeps-ensure_nav_item_of q m none k = Keeps.Keeps-pure _
    Keeps-ensure_nav_item_of q m (some ui) k =
        Keeps.Keeps-bind _ _ (Keeps.Keeps-attempt _ (Keeps-upsert_plugin_nav_item _ k))
          (λ r. Keeps.Keeps-pure _)

    pub Keeps-report_start :
        (ctx : RequestContext) (q : String) (s : Startable) (h : RuntimeHandle)
        → ((c : Core) (rows : List PluginNavItem) → P c → P (with_nav_items c rows))
        → ((c : Core) (row : PluginAuditLog)
            → row.plugin_id ≡ q
            → P c
            → P (with_audit_logs c (c.db.audit_logs ++ row ∷ [])))
        → Keeps P (report_start E ctx q s h)
    unfolding report_start ensure_default_nav_item
    Keeps-report_start ctx q s h n l =
        Keeps.Keeps-bind _ _ (Keeps-ensure_nav_item_of q s.manifest s.manifest.ui n) (λ v.
          Keeps.Keeps-bind _ _ (Keeps.Keeps-attempt _ (Keeps-append_audit_log q _ _ _ l))
            (λ r. Keeps.Keeps-pure _))

    pub Keeps-report_failed_start :
        (ctx : RequestContext) (q : String) (s : Startable) (e : String)
        → ((c : Core) (row : PluginAuditLog)
            → row.plugin_id ≡ q
            → P c
            → P (with_audit_logs c (c.db.audit_logs ++ row ∷ [])))
        → Keeps P (report_failed_start E ctx q s e)
    unfolding report_failed_start
    Keeps-report_failed_start ctx q s e l =
        Keeps.Keeps-bind _ _ (Keeps.Keeps-attempt _ (Keeps-append_audit_log q _ _ _ l))
          (λ r. Keeps.Keeps-raise _)

  settle_start-sets_handle :
      (ctx : RequestContext) (q : String) (s : Startable) (h : RuntimeHandle) (w : World E)
      (m : PluginRuntimeManager)
      → w.core.manager ≡ some m
      → (handle_of (settle_start E ctx q s (ok h) w).1.core q ≡ some h)
        × ((settle_start E ctx q s (ok h) w).1.core.db.registry ≡ w.core.db.registry)
  unfolding settle_start set_runtime_handle ◌>>=◌
  settle_start-sets_handle ctx q s h w m e =
      let P : Core → Type 0 =
        λ c. (handle_of c q ≡ some h) × (c.db.registry ≡ w.core.db.registry) in
      (Keeps-report_start {P = P} ctx q s h (λ c rows p. p) (λ c row e p. p)).at _
        (rw (e, Dict.lookup-insert q q h m.active_runtimes, eq_refl q) refl, refl)

  settle_start-rolls_back :
      (R : Reliable E) (ctx : RequestContext) (q : String) (s : Startable) (e : String)
      (w : World E) {x : Bool × String}
      → state_of w.core.db.registry q ≡ some x
      → state_of (settle_start E ctx q s (err e) w).1.core.db.registry q
        ≡ some (s.plugin.enabled, s.plugin.install_status)
  unfolding settle_start ◌>>=◌
  settle_start-rolls_back R ctx q s e w h =
      let P : Core → Type 0 =
        λ c. state_of c.db.registry q ≡ some (s.plugin.enabled, s.plugin.install_status) in
      (Keeps-report_failed_start {P = P} ctx q s e (λ c row e p. p)).at _
        (update_plugin_runtime_state-sets R q s.plugin.enabled s.plugin.install_status w h)

  pub settle_start-result :
      (ctx : RequestContext) (q : String) (s : Startable) (r : Result String RuntimeHandle)
      (w : World E) {h : RuntimeHandle}
      → (settle_start E ctx q s r w).0 ≡ ok h
      → r ≡ ok h
  unfolding settle_start report_start report_failed_start ensure_default_nav_item ensure_nav_item_of
      set_runtime_handle ◌>>=◌
  settle_start-result ctx q s (ok g) w e = ground arith
  settle_start-result ctx q s (err x) w e = ground arith

  pub marked-state :
      (R : Reliable E) (q : String) (w : World E) {s : Startable}
      → (load_startable E q w).0 ≡ ok s
      → state_of (marked q w).core.db.registry q ≡ some (true, running)
  marked-state R q w {s} e =
      update_plugin_runtime_state-sets R q true running (load_startable E q w).1
        {x = (s.plugin.enabled, s.plugin.install_status)}
        (rw (core-load_startable q w, load_startable-plugin q w {s = s} e) refl)

  pub marked-manager : (q : String) (w : World E) → (marked q w).core.manager ≡ w.core.manager
  marked-manager q w =
      (Keeps-update_plugin_runtime_state {P = λ c. c.manager ≡ w.core.manager} q true running
          (λ c now p. p)).at
        (load_startable E q w).1 (rw (core-load_startable q w) refl)

  -- the match on the result, in a world where the plugin is marked as running
  pub settle_start-starts :
      (ctx : RequestContext) (q : String) (s : Startable) (r : Result String RuntimeHandle)
      (w : World E) (m : PluginRuntimeManager) {h : RuntimeHandle}
      → w.core.manager ≡ some m
      → (settle_start E ctx q s r w).0 ≡ ok h
      → (handle_of (settle_start E ctx q s r w).1.core q ≡ some h)
        × ((settle_start E ctx q s r w).1.core.db.registry ≡ w.core.db.registry)
  settle_start-starts ctx q s r w m {h} e f =
      rw (settle_start-result ctx q s r w {h = h} f) (settle_start-sets_handle ctx q s h w m e)

  pub settle_start-manager :
      (ctx : RequestContext) (q : String) (s : Startable) (r : Result String RuntimeHandle)
      (w : World E) {x : AppError}
      → (settle_start E ctx q s r w).0 ≡ err x
      → (settle_start E ctx q s r w).1.core.manager ≡ w.core.manager
  unfolding settle_start report_start ensure_default_nav_item ensure_nav_item_of set_runtime_handle
      ◌>>=◌
  settle_start-manager ctx q s (ok g) w e = ground arith
  settle_start-manager ctx q s (err y) w e =
      let P : Core → Type 0 = λ c. c.manager ≡ w.core.manager in
      (Keeps-report_failed_start {P = P} ctx q s y (λ c row e p. p)).at _
        ((Keeps-update_plugin_runtime_state {P = P} q _ _ (λ c now p. p)).at w refl)

  pub settle_start-fails :
      (R : Reliable E) (ctx : RequestContext) (q : String) (s : Startable)
      (r : Result String RuntimeHandle) (w : World E) {x : AppError} {y : Bool × String}
      → state_of w.core.db.registry q ≡ some y
      → (settle_start E ctx q s r w).0 ≡ err x
      → state_of (settle_start E ctx q s r w).1.core.db.registry q
        ≡ some (s.plugin.enabled, s.plugin.install_status)
  unfolding settle_start report_start ensure_default_nav_item ensure_nav_item_of set_runtime_handle
      ◌>>=◌
  settle_start-fails R ctx q s (ok g) w h e = ground arith
  settle_start-fails R ctx q s (err z) w h e = settle_start-rolls_back R ctx q s z w h

  unfoldable pub launched : String → Startable → World E → World E
  launched q s w = (start_runtime E q s s.manifest.runtime (marked q w)).1

  pub core-launched :
      (q : String) (s : Startable) (w : World E) → (launched q s w).core ≡ (marked q w).core
  unfolding launched
  core-launched q s w = core-start_runtime q s s.manifest.runtime (marked q w)
