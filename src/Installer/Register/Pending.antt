-- ===== src/Installer/Register/Pending.antt =====
-- What a registration leaves behind: a pending plugin to which nothing is granted.

use yh_extension_manager_v.Prelude.{
  ℕ, String, ◌≡◌, refl, Bool, true, false, ◌||◌, Option, none, some, List, [], ◌∷◌, ◌==◌, arith,
  eq_refl, ap, sym, ◌∙◌, if◌then◌else◌,
}
use yh_extension_manager_v.Prelude.Outcome.{ok}
use yh_extension_manager_v.Prelude.Rows.{select_one, select_one-insert, select_one-update_self}
use yh_extension_manager_v.Manifest.{PluginManifest, PluginPermission, as_key}
use yh_extension_manager_v.Entities.{PluginRegistry, PluginAuditLog}
use yh_extension_manager_v.World.{Env, Core, World, Bytes, ◌>>=◌}
use yh_extension_manager_v.World.Keeps
use yh_extension_manager_v.World.Keeps.{Keeps}
use yh_extension_manager_v.World.Ensures.{Ensures, Ensures-last, Ensures-first, Ensures-map_error}
use yh_extension_manager_v.Permissions.{
  permission_keys_to_items, replace_plugin_permission_grants, any_key,
}
use yh_extension_manager_v.Permissions.Laws.{
  decision, last_decision, replace_plugin_permission_grants-decision,
}
use yh_extension_manager_v.Permissions.Keeps.{Keeps-replace_plugin_permission_grants}
use yh_extension_manager_v.Registry.{by_id}
use yh_extension_manager_v.Registry.State.{state_of}
use yh_extension_manager_v.Installer.{pending, InstallPluginOptions, InstallPluginResult}
use yh_extension_manager_v.Installer.Manifest.{read_manifest_from_zip_bytes}
use yh_extension_manager_v.Installer.Register.{
  register_again, new_registry, write_registry, save_registry, insert_version, log_registered,
  record_registration, register_manifest, register_plugin_from_zip_bytes,
}

-- A manifest asks for a permission.
abbrev pub declares : List PluginPermission → PluginPermission → Bool
declares [] p = false
declares (q ∷ qs) p = as_key q == as_key p || declares qs p

last_decision-permission_keys_to_items :
    (ps : List PluginPermission) (p : PluginPermission)
    → last_decision (as_key p) (permission_keys_to_items ps [])
      ≡ (if declares ps p then some false else none)
unfolding permission_keys_to_items any_key
last_decision-permission_keys_to_items [] p = refl
last_decision-permission_keys_to_items (q ∷ qs) p =
    ground (arith, last_decision-permission_keys_to_items qs p)

-- A plugin's state, if it has one, is pending.
abbrev pub is_pending : Option (Bool × String) → Bool
is_pending none = false
is_pending (some (_, status)) = status == pending

module _ {E : Env} where
  write_registry-pending :
      (m : PluginManifest) (o : InstallPluginOptions) (now : ℕ) (r : Option PluginRegistry)
      (w : World E)
      → select_one (by_id m.id) w.core.db.registry ≡ r
      → (write_registry E m o now r w).0 ≡ ok tt
      → is_pending (state_of (write_registry E m o now r w).1.core.db.registry m.id) ≡ true
  unfolding write_registry ◌>>=◌
  write_registry-pending m o now none w e h = ground (
    arith,
    eq_refl m.id,
    eq_refl pending,
    select_one-insert (by_id m.id) w.core.db.registry (new_registry E m o now),
  )
  write_registry-pending m o now (some r) w e h = ground (
    arith,
    eq_refl pending,
    select_one-update_self (by_id m.id) (register_again E m o now) w.core.db.registry (λ x e. e),
  )

  save_registry-pending :
      (m : PluginManifest) (o : InstallPluginOptions) (now : ℕ) (w : World E)
      → (save_registry E m o now w).0 ≡ ok tt
      → is_pending (state_of (save_registry E m o now w).1.core.db.registry m.id) ≡ true
  unfolding save_registry ◌>>=◌
  save_registry-pending m o now w h = ground (
    arith,
    write_registry-pending m o now (select_one (by_id m.id) w.core.db.registry)
        (record w { env = (E.db_fault w.env).1 }) refl,
  )

  Ensures-declined :
      (m : PluginManifest) (p : PluginPermission)
      → declares m.permissions p ≡ true
      → Ensures
          (λ c. decision c.db.grants m.id (as_key p) ≡ some false)
          (replace_plugin_permission_grants E m.id (permission_keys_to_items m.permissions []))
  Ensures-declined m p h = record {
    at = λ w a e.
        replace_plugin_permission_grants-decision m.id (permission_keys_to_items m.permissions []) w
          m.id (as_key p) e
        ∙ rw (eq_refl m.id, last_decision-permission_keys_to_items m.permissions p, h) refl;
  }

  Ensures-pending :
      (m : PluginManifest) (o : InstallPluginOptions) (now : ℕ)
      → Ensures (λ c. is_pending (state_of c.db.registry m.id) ≡ true) (save_registry E m o now)
  Ensures-pending m o now = record { at = λ w u e. save_registry-pending m o now w e }

  Keeps-insert_version :
      (m : PluginManifest) (dir sum : String) (now : ℕ)
      → Keeps
          (λ c. is_pending (state_of c.db.registry m.id) ≡ true)
          (insert_version E m dir sum now)
  unfolding insert_version
  Keeps-insert_version m dir sum now =
      Keeps.Keeps-bind _ _ (Keeps.Keeps-step _)
        (λ id. Keeps.Keeps-map_error _ _ (Keeps.Keeps-statement _ (λ c h. h)))

  Keeps-log_registered :
      {P : Core → Type 0} (m : PluginManifest) (actor : Option String) (now : ℕ)
      → ((c : Core) (rows : List PluginAuditLog)
          → P c
          → P (record c { db = record c.db { audit_logs = rows } }))
      → Keeps P (log_registered E m actor now)
  unfolding log_registered
  Keeps-log_registered m actor now k =
      Keeps.Keeps-bind _ _ (Keeps.Keeps-step _)
        (λ id. Keeps.Keeps-map_error _ _ (Keeps.Keeps-statement _ (λ c h. k c _ h)))

  record_registration-pending :
      (m : PluginManifest) (dir sum : String) (o : InstallPluginOptions)
      → Ensures
          (λ c. is_pending (state_of c.db.registry m.id) ≡ true)
          (record_registration E m dir sum o)
  unfolding record_registration
  record_registration-pending m dir sum o = Ensures-last _ _ (λ now.
      Ensures-first _ _ (Ensures-pending m o now) (λ u.
        Keeps.Keeps-bind _ _ (Keeps-insert_version m dir sum now) (λ v.
          Keeps.Keeps-bind _ _
            (Keeps.Keeps-map_error _ _
              (Keeps-replace_plugin_permission_grants (λ c rows h. h) m.id _))
            (λ x. Keeps-log_registered m o.actor_user_id now (λ c rows h. h)))))

  record_registration-declined :
      (m : PluginManifest) (dir sum : String) (o : InstallPluginOptions) (p : PluginPermission)
      → declares m.permissions p ≡ true
      → Ensures
          (λ c. decision c.db.grants m.id (as_key p) ≡ some false)
          (record_registration E m dir sum o)
  unfolding record_registration
  record_registration-declined m dir sum o p d = Ensures-last _ _ (λ now. Ensures-last _ _ (λ u.
      Ensures-last _ _ (λ v.
        Ensures-first _ _ (Ensures-map_error _ _ (Ensures-declined m p d))
          (λ x. Keeps-log_registered m o.actor_user_id now (λ c rows h. h)))))

  register_manifest-Ensures :
      {Q : Core → Type 0} (root : String) (zip : Bytes) (o : InstallPluginOptions)
      (m : PluginManifest)
      → ((dir sum : String) → Ensures Q (record_registration E m dir sum o))
      → Ensures Q (register_manifest E root zip o m)
  unfolding register_manifest
  register_manifest-Ensures root zip o m h =
      Ensures-last _ _
        (λ u. Ensures-last _ _ (λ v. Ensures-first _ _ (h _ _) (λ x. Keeps.Keeps-pure _)))

  register_plugin_from_zip_bytes-eq :
      (root : String) (zip : Bytes) (o : InstallPluginOptions) (w : World E) {m : PluginManifest}
      → (read_manifest_from_zip_bytes E zip w).0 ≡ ok m
      → register_plugin_from_zip_bytes E root zip o w
        ≡ register_manifest E root zip o m (read_manifest_from_zip_bytes E zip w).1
  unfolding register_plugin_from_zip_bytes ◌>>=◌
  register_plugin_from_zip_bytes-eq root zip o w h = rw h refl

  -- A registration that succeeds leaves the plugin that the manifest names pending, also where it
  -- was installed or running, and every permission that the manifest asks for is stored as not
  -- granted, also where it was granted before.
  pub register_plugin_from_zip_bytes-pending :
      (root : String) (zip : Bytes) (o : InstallPluginOptions) (w : World E) (m : PluginManifest)
      (p : PluginPermission) {r : InstallPluginResult}
      → (read_manifest_from_zip_bytes E zip w).0 ≡ ok m
      → declares m.permissions p ≡ true
      → (register_plugin_from_zip_bytes E root zip o w).0 ≡ ok r
      → (is_pending
            (state_of (register_plugin_from_zip_bytes E root zip o w).1.core.db.registry m.id)
          ≡ true)
        × (decision (register_plugin_from_zip_bytes E root zip o w).1.core.db.grants m.id (as_key p)
            ≡ some false)
  register_plugin_from_zip_bytes-pending root zip o w m p {r} read asked done =
      let eq = register_plugin_from_zip_bytes-eq root zip o w {m = m} read in
      let done' = ap (λ x. x.0) (sym eq) ∙ done in
      let v = (read_manifest_from_zip_bytes E zip w).1 in
      rw eq (
        (register_manifest-Ensures root zip o m
              (λ dir sum. record_registration-pending m dir sum o)).at
            v r done',
        (register_manifest-Ensures root zip o m
              (λ dir sum. record_registration-declined m dir sum o p asked)).at
            v r done',
      )
