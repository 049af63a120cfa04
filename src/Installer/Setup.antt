-- ===== src/Installer/Setup.antt =====
-- src/installer.rs: the setup steps of a manifest: their template variables and conditions, and the
-- loop that runs them.
pub mod Step
pub mod Checksum
use yh_extension_manager_v.Prelude.{
  ℕ, suc, String, ◌<>◌, Bool, true, false, not, Option, none, some, List, [], ◌∷◌, ◌==◌, is_none,
  or_else, if◌then◌else◌,
}
use yh_extension_manager_v.Prelude.Dict
use yh_extension_manager_v.Prelude.Dict.{Dict}
use yh_extension_manager_v.Text.{replace}
use yh_extension_manager_v.Text.Decimal.{show}
use yh_extension_manager_v.FilePath.{join}
use yh_extension_manager_v.Manifest.{PluginSetupAction, PluginSetupCondition, PluginSetupStep}
use yh_extension_manager_v.World.{Env, Exec, pure, observe, ◌>>=◌, ◌>>◌}
use yh_extension_manager_v.Installer.Setup.Step.{execute_setup_step}

-- `std::env::consts`: the system that the program was built for
pub record Target : Type 0 where
  pub os : String
  pub arch : String

abbrev arch_str : String → String
arch_str arch = if arch == "x86_64" then "amd64" else arch

-- What the variables of a template stand for.
pub record TemplateVars : Type 0 where
  pub version : String
  pub plugin_id : String
  pub name : String

unfoldable pub resolve_template_vars : Target → TemplateVars → String → String
resolve_template_vars target vars template = replace "{name}" (replace " " "%20" vars.name) (
    replace "{plugin_id}" vars.plugin_id (
      replace "{arch}" (arch_str target.arch)
        (replace "{os}" target.os (replace "{version}" vars.version template))))

abbrev resolve : Target → TemplateVars → Option String → Option String
resolve target vars none = none
resolve target vars (some template) = some (resolve_template_vars target vars template)

unfoldable pub resolve_step : Target → TemplateVars → PluginSetupStep → PluginSetupStep
resolve_step target vars step = record step {
  url = resolve target vars step.url;
  source = resolve target vars step.source;
  dest = resolve target vars step.dest;
  symlink_target = resolve target vars step.symlink_target;
}

abbrev pub is_download : PluginSetupAction → Bool
is_download PluginSetupAction.download = true
is_download _ = false

-- The override of the `dl_idx`-th download takes the place of its address.
unfoldable pub override_url : Dict String → ℕ → PluginSetupStep → PluginSetupStep
override_url overrides dl_idx step =
    if is_download step.action
    then record step { url = or_else (Dict.lookup (show dl_idx) overrides) step.url }
    else step

module _ (E : Env) where
  unfoldable pub check_setup_condition : PluginSetupCondition → String → Exec E String Bool
  check_setup_condition (PluginSetupCondition.file_not_exists f) pkg_dir = do
    there ← observe (E.exists (join pkg_dir f))
    pure (not there)
  check_setup_condition (PluginSetupCondition.file_exists f) pkg_dir =
      observe (E.exists (join pkg_dir f))
  check_setup_condition (PluginSetupCondition.env_not_set name) pkg_dir = do
    value ← observe (E.env_var name)
    pure (is_none value)

  unfoldable pub should_run : Option PluginSetupCondition → String → Exec E String Bool
  unfolding check_setup_condition
  should_run none pkg_dir = pure true
  should_run (some condition) pkg_dir = check_setup_condition condition pkg_dir

module _ (E : Env) (target : Target) (overrides : Dict String) (vars : TemplateVars)
    (pkg_dir : String) where
  -- The loop; `dl_idx` counts the downloads that are not skipped.
  unfoldable pub execute_commands : ℕ → List PluginSetupStep → Exec E String Unit
  unfolding should_run resolve_step override_url
  execute_commands dl_idx [] = pure tt
  execute_commands dl_idx (step ∷ steps) = do
    run ← should_run E step.if_condition pkg_dir
    if not run then execute_commands dl_idx steps else do
      let resolved = override_url overrides dl_idx (resolve_step target vars step)
      execute_setup_step E resolved pkg_dir pkg_dir
      execute_commands (if is_download step.action then suc dl_idx else dl_idx) steps

  unfoldable pub execute_commands_with_overrides : List PluginSetupStep → Exec E String Unit
  unfolding execute_commands
  execute_commands_with_overrides steps = execute_commands 0 steps
