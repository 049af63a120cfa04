-- ===== src/Registry/State.antt =====
-- What the statements of src/registry.rs do to the state of a plugin: its flag and its status.
use mathlib.Core.Option
use yh_extension_manager_v.Prelude.{
  ℕ, String, ◌≡◌, refl, Bool, Option, none, some, List, [], ◌∷◌, ◌++◌, arith,
}
use yh_extension_manager_v.Prelude.Rows.{select_one, update_one, select_one-update_self}
use yh_extension_manager_v.Entities.{PluginRegistry, PluginNavItem, PluginAuditLog}
use yh_extension_manager_v.World.{Env, Core, World, ◌>>=◌}
use yh_extension_manager_v.World.Keeps
use yh_extension_manager_v.World.Keeps.{Keeps, keeps_rules}
use yh_extension_manager_v.World.Reliable.{Reliable}
use yh_extension_manager_v.Registry.{
  UpsertNavItemInput, by_id, update_plugin_runtime_state, write_runtime_state, set_runtime_state,
  append_audit_log, upsert_plugin_nav_item, write_nav_item,
}

-- The flag and the status of a plugin's row, if the plugin has one.
abbrev pub state_of : List PluginRegistry → String → Option (Bool × String)
state_of rows q =
    Option.map (λ (r : PluginRegistry). (r.enabled, r.install_status)) (select_one (by_id q) rows)

abbrev pub with_registry : Core → List PluginRegistry → Core
with_registry c rows = record c { db = record c.db { registry = rows } }

abbrev pub with_audit_logs : Core → List PluginAuditLog → Core
with_audit_logs c rows = record c { db = record c.db { audit_logs = rows } }

abbrev pub with_nav_items : Core → List PluginNavItem → Core
with_nav_items c rows = record c { db = record c.db { nav_items = rows } }

module _ {E : Env} {P : Core → Type 0} where
  Keeps-write_runtime_state :
      (q : String) (b : Bool) (st : String) (o : Option PluginRegistry)
      → ((c : Core) (now : ℕ)
          → P c
          → P (with_registry c (update_one (by_id q) (set_runtime_state b st now) c.db.registry)))
      → Keeps P (write_runtime_state E q b st o)
  unfolding write_runtime_state
  Keeps-write_runtime_state q b st none k = search keeps_rules
  Keeps-write_runtime_state q b st (some r) k =
      Keeps.Keeps-bind _ _ (Keeps.Keeps-step _) (λ now. Keeps.Keeps-statement _ (λ c. k c now))

  -- Setting the state of a plugin keeps what writing its row anew keeps.
  pub Keeps-update_plugin_runtime_state :
      (q : String) (b : Bool) (st : String)
      → ((c : Core) (now : ℕ)
          → P c
          → P (with_registry c (update_one (by_id q) (set_runtime_state b st now) c.db.registry)))
      → Keeps P (update_plugin_runtime_state E q b st)
  unfolding update_plugin_runtime_state
  Keeps-update_plugin_runtime_state q b st k =
      Keeps.Keeps-bind _ _ (Keeps.Keeps-query _) (λ o. Keeps-write_runtime_state q b st o k)

  -- Logging keeps what a new row of the log, one of the plugin's, keeps.
  pub Keeps-append_audit_log :
      (q action message : String) (actor : Option String)
      → ((c : Core) (row : PluginAuditLog)
          → row.plugin_id ≡ q
          → P c
          → P (with_audit_logs c (c.db.audit_logs ++ row ∷ [])))
      → Keeps P (append_audit_log E q action message actor)
  unfolding append_audit_log
  Keeps-append_audit_log q action message actor k = Keeps.Keeps-bind _ _ (Keeps.Keeps-step _) (λ id.
      Keeps.Keeps-bind _ _ (Keeps.Keeps-step _) (λ now. Keeps.Keeps-statement _ (λ c. k c _ refl)))

  Keeps-write_nav_item :
      (i : UpsertNavItemInput) (now : ℕ) (o : Option PluginNavItem)
      → ((c : Core) (rows : List PluginNavItem) → P c → P (with_nav_items c rows))
      → Keeps P (write_nav_item E i now o)
  unfolding write_nav_item
  Keeps-write_nav_item i now none k =
      Keeps.Keeps-bind _ _ (Keeps.Keeps-step _) (λ id. Keeps.Keeps-statement _ (λ c. k c _))
  Keeps-write_nav_item i now (some n) k = Keeps.Keeps-statement _ (λ c. k c _)

  pub Keeps-upsert_plugin_nav_item :
      (i : UpsertNavItemInput)
      → ((c : Core) (rows : List PluginNavItem) → P c → P (with_nav_items c rows))
      → Keeps P (upsert_plugin_nav_item E i)
  unfolding upsert_plugin_nav_item
  Keeps-upsert_plugin_nav_item i k =
      Keeps.Keeps-bind _ _ (Keeps.Keeps-query _)
        (λ o. Keeps.Keeps-bind _ _ (Keeps.Keeps-step _) (λ now. Keeps-write_nav_item i now o k))

module _ {E : Env} where
  write_runtime_state-sets :
      (R : Reliable E) (q : String) (b : Bool) (st : String) (o : Option PluginRegistry)
      (w : World E) {x : Bool × String}
      → select_one (by_id q) w.core.db.registry ≡ o
      → state_of w.core.db.registry q ≡ some x
      → state_of (write_runtime_state E q b st o w).1.core.db.registry q ≡ some (b, st)
  unfolding write_runtime_state ◌>>=◌
  write_runtime_state-sets R q b st none w e h = ground arith
  write_runtime_state-sets R q b st (some r) w e h = ground (
    arith,
    R.answers (E.now w.env).1,
    select_one-update_self (by_id q) (set_runtime_state b st (E.now w.env).0) w.core.db.registry
        (λ x e. e),
  )

  -- On a reliable database, setting the state of a plugin that has a row sets it.
  pub update_plugin_runtime_state-sets :
      (R : Reliable E) (q : String) (b : Bool) (st : String) (w : World E) {x : Bool × String}
      → state_of w.core.db.registry q ≡ some x
      → state_of (update_plugin_runtime_state E q b st w).1.core.db.registry q ≡ some (b, st)
  unfolding update_plugin_runtime_state ◌>>=◌
  update_plugin_runtime_state-sets R q b st w h =
      let s = (E.db_fault w.env).1 in
      let rest =
        write_runtime_state-sets R q b st (select_one (by_id q) w.core.db.registry)
          (record w { env = s }) refl h in
      rw (R.answers w.env) rest
