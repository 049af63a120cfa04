-- ===== src/Installer/Materialize/Upgrade.antt =====
-- Which setup steps a materialization runs.
use yh_extension_manager_v.Prelude.{
  String, ◌≡◌, refl, sym, ap, ◌∙◌, Option, some, List, eq_refl, arith,
}
use yh_extension_manager_v.Prelude.Dict.{Dict}
use yh_extension_manager_v.Prelude.Outcome.{ok}
use yh_extension_manager_v.Prelude.Rows.{select_one}
use yh_extension_manager_v.FilePath.{join}
use yh_extension_manager_v.Manifest.{PluginManifest, PluginSetupStep, PluginRuntimeManifest}
use yh_extension_manager_v.Entities.{PluginRegistry}
use yh_extension_manager_v.World.{Env, Core, World, Exec, pure, ◌>>=◌, ◌>>◌}
use yh_extension_manager_v.World.Bind.{bind-ok, bind_alike}
use yh_extension_manager_v.World.Keeps.{Keeps, keeps_rules, Keeps-pure, Keeps-bind}
use yh_extension_manager_v.Runtime.Process.{prepare_process_runtime}
use yh_extension_manager_v.Runtime.Wasm.{prepare_wasm_runtime}
use yh_extension_manager_v.Runtime.Docker.{prepare_docker_runtime}
use yh_extension_manager_v.Registry.{by_id}
use yh_extension_manager_v.Installer.Setup.{Target}
use yh_extension_manager_v.Installer.Quiet.{Keeps-execute_commands_with_overrides}
use yh_extension_manager_v.Installer.Materialize.{
  current_of, prepare, validate_prepared_runtime, load_current, set_up, run_commands, upgrade_from,
}

-- The registry has the version as the plugin's current one.
abbrev pub IsCurrent : String → String → Core → Type 0
IsCurrent q version c = current_of (select_one (by_id q) c.db.registry) ≡ some version

module _ {E : Env} where
  Keeps-prepare :
      {P : Core → Type 0} (q d : String) (r : PluginRuntimeManifest) → Keeps P (prepare E q d r)
  unfolding prepare prepare_wasm_runtime prepare_process_runtime prepare_docker_runtime
  Keeps-prepare q d (PluginRuntimeManifest.wasm_component r) = search keeps_rules depth 30
  Keeps-prepare q d (PluginRuntimeManifest.wasm_module r) = search keeps_rules depth 30
  Keeps-prepare q d (PluginRuntimeManifest.process r) = search keeps_rules depth 30
  Keeps-prepare q d (PluginRuntimeManifest.docker r) = search keeps_rules depth 30

  Keeps-validate_prepared_runtime :
      {P : Core → Type 0} (m : PluginManifest) (d : String)
      → Keeps P (validate_prepared_runtime E m d)
  unfolding validate_prepared_runtime
  Keeps-validate_prepared_runtime m d = Keeps-bind _ _ (Keeps-prepare m.id d _) (λ h. Keeps-pure _)

  Keeps-run_commands :
      {P : Core → Type 0} (t : Target) (o : Dict String) (root : String) (m : PluginManifest)
      (d : String) (steps : Option (List PluginSetupStep))
      → Keeps P (run_commands E t o root m d steps)
  unfolding run_commands
  Keeps-run_commands t o root m d steps = Keeps-execute_commands_with_overrides t o _ d _

  loaded :
      (q : String) (w : World E) (r : Option PluginRegistry)
      → (load_current E q w).0 ≡ ok r
      → r ≡ select_one (by_id q) w.core.db.registry
  unfolding load_current ◌>>=◌
  loaded q w r h = ground arith

  module _ (t : Target) (o : Dict String) (root q version : String) where
    no_upgrade_from :
        (n : PluginManifest) (dir : String) (previous : Option String) (w : World E)
        → previous ≡ some version
        → upgrade_from E t o root n dir q version previous w ≡ (ok tt, w)
    unfolding upgrade_from ◌>>=◌
    no_upgrade_from n dir previous w e = rw (e, eq_refl) refl

    -- the check of the recorded version, and the upgrade
    upgrade_part : PluginManifest → String → Exec E String String
    upgrade_part n kind = do
      previous ← load_current E q
      upgrade_from E t o root n (join (join root q) version) q version (current_of previous)
      pure kind

    no_upgrade :
        (n m : PluginManifest) (kind : String) (w : World E)
        → current_of (select_one (by_id q) w.core.db.registry) ≡ some version
        → upgrade_part n kind w ≡ upgrade_part m kind w
    unfolding upgrade_part
    no_upgrade n m kind w e = bind_alike (load_current E q) _ _ w (λ previous h.
        let current = ap current_of (loaded q w previous h) ∙ e in
        let dir = join (join root q) version in
        let w' = (load_current E q w).1 in
        bind-ok _ _ w' w' tt (no_upgrade_from n dir (current_of previous) w' current)
        ∙ sym (bind-ok _ _ w' w' tt (no_upgrade_from m dir (current_of previous) w' current)))

    -- Where the registry has the version that is materialized as the current one, as it has after
    -- a registration, the steps for an upgrade play no part: setting the plugin up does the same,
    -- on the disk and everywhere else, whatever steps the manifest has for one.
    pub set_up-no_upgrade :
        (m : PluginManifest) (commands : Option (List PluginSetupStep)) (w : World E)
        → IsCurrent q version w.core
        → set_up E t o root q version (record m { upgrade_commands = commands }) w
          ≡ set_up E t o root q version m w
    unfolding set_up upgrade_part run_commands validate_prepared_runtime
    set_up-no_upgrade m commands w e =
        let dir = join (join root q) version in
        bind_alike _ _ _ w (λ u h.
          let w1 = (run_commands E t o root m dir m.install_commands w).1 in
          bind_alike _ _ _ w1 (λ kind k.
            no_upgrade (record m { upgrade_commands = commands }) m kind
              (validate_prepared_runtime E m dir w1).1
              ((Keeps-validate_prepared_runtime {P = IsCurrent q version} m dir).at w1 (
                (Keeps-run_commands {P = IsCurrent q version} t o root m dir m.install_commands).at
                  w e))))
