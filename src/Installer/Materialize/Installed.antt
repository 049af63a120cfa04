-- ===== src/Installer/Materialize/Installed.antt =====
-- What materializing a plugin leaves behind, and what it never does.
use yh_extension_manager_v.Prelude.{
  ℕ, String, ◌≡◌, refl, Bool, true, not, ◌&&◌, Option, none, some, ◌==◌, eq_refl, arith, unwrap_or,
}
use yh_extension_manager_v.Prelude.Dict.{Dict}
use yh_extension_manager_v.Prelude.Outcome.{ok}
use yh_extension_manager_v.Prelude.Rows.{select_one, select_one-update_self}
use yh_extension_manager_v.Entities.{PluginRegistry, PluginVersion}
use yh_extension_manager_v.World.{Env, Core, World, ◌>>=◌}
use yh_extension_manager_v.World.Keeps.{
  Keeps, Keeps-pure, Keeps-bind, Keeps-step, Keeps-map_error, Keeps-query, Keeps-statement,
}
use yh_extension_manager_v.World.Ensures.{Ensures, Ensures-last, Ensures-first}
use yh_extension_manager_v.Registry.{by_id}
use yh_extension_manager_v.Installer.{installed, InstallPluginResult}
use yh_extension_manager_v.Installer.Setup.{Target}
use yh_extension_manager_v.Installer.Materialize.{
  set_installed, load_current, write_installed, save_installed, write_version_installed,
  log_materialized, record_installed, materialize_plugin_from_zip,
}

-- The row of a plugin, if there is one, is that of an installed and disabled plugin at a version.
abbrev pub is_installed_at : String → Option PluginRegistry → Bool
is_installed_at version none = true
is_installed_at version (some r) =
    unwrap_or r.current_version "" == version && r.install_status == installed && not r.enabled

abbrev pub IsInstalledAt : String → String → Core → Type 0
IsInstalledAt q version c = is_installed_at version (select_one (by_id q) c.db.registry) ≡ true

module _ {E : Env} where
  written :
      (q version kind : String) (now : ℕ) (r : Option PluginRegistry) (w : World E)
      → select_one (by_id q) w.core.db.registry ≡ r
      → (write_installed E q version kind now r w).0 ≡ ok tt
      → IsInstalledAt q version (write_installed E q version kind now r w).1.core
  unfolding write_installed ◌>>=◌
  written q version kind now none w e h = ground arith
  written q version kind now (some r) w e h = ground (
    arith,
    eq_refl version,
    eq_refl installed,
    select_one-update_self (by_id q) (set_installed version kind now) w.core.db.registry (λ x e. e),
  )

  saved :
      (q version kind : String) (now : ℕ) (w : World E)
      → (save_installed E q version kind now w).0 ≡ ok tt
      → IsInstalledAt q version (save_installed E q version kind now w).1.core
  unfolding save_installed load_current ◌>>=◌
  saved q version kind now w h = ground (
    arith,
    written q version kind now (select_one (by_id q) w.core.db.registry)
        (record w { env = (E.db_fault w.env).1 }) refl,
  )

  Ensures-save_installed :
      (q version kind : String) (now : ℕ)
      → Ensures (IsInstalledAt q version) (save_installed E q version kind now)
  Ensures-save_installed q version kind now = record { at = λ w u e. saved q version kind now w e }

  Keeps-write_version_installed :
      (q v version : String) (now : ℕ) (r : Option PluginVersion)
      → Keeps (IsInstalledAt q v) (write_version_installed E q version now r)
  unfolding write_version_installed
  Keeps-write_version_installed q v version now none = Keeps-pure tt
  Keeps-write_version_installed q v version now (some r) =
      Keeps-map_error _ _ (Keeps-statement {P = IsInstalledAt q v} _ (λ c h. h))

  Keeps-log_materialized :
      (q v version : String) (actor : Option String) (now : ℕ)
      → Keeps (IsInstalledAt q v) (log_materialized E q version actor now)
  unfolding log_materialized
  Keeps-log_materialized q v version actor now =
      Keeps-bind _ _ (Keeps-step _)
        (λ id. Keeps-map_error _ _ (Keeps-statement {P = IsInstalledAt q v} _ (λ c h. h)))

  Ensures-record_installed :
      (q version kind : String) (actor : Option String)
      → Ensures (IsInstalledAt q version) (record_installed E q version kind actor)
  unfolding record_installed
  Ensures-record_installed q version kind actor = Ensures-last _ _ (λ now.
      Ensures-first _ _ (Ensures-save_installed q version kind now) (λ u.
        Keeps-bind _ _ (Keeps-map_error _ _ (Keeps-query _)) (λ r.
          Keeps-bind _ _ (Keeps-write_version_installed q version version now r)
            (λ v. Keeps-log_materialized q version version actor now))))

  materialized :
      (t : Target) (root q version : String) (o : Dict String) (actor : Option String)
      → Ensures (IsInstalledAt q version) (materialize_plugin_from_zip E t root q version o actor)
  unfolding materialize_plugin_from_zip
  materialized t root q version o actor = Ensures-last _ _ (λ manifest. Ensures-last _ _ (λ kind.
      Ensures-first _ _ (Ensures-record_installed q version kind actor) (λ u. Keeps-pure _)))

  -- A materialization that succeeds leaves the plugin, if it is registered, installed at the
  -- version and disabled, whatever it was before.
  pub materialize_plugin_from_zip-IsInstalledAt :
      (t : Target) (root q version : String) (o : Dict String) (actor : Option String) (w : World E)
      (r : InstallPluginResult)
      → (materialize_plugin_from_zip E t root q version o actor w).0 ≡ ok r
      → IsInstalledAt q version (materialize_plugin_from_zip E t root q version o actor w).1.core
  materialize_plugin_from_zip-IsInstalledAt t root q version o actor w r h =
      (materialized t root q version o actor).at w r h
