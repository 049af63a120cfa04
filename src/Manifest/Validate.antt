-- ===== src/Manifest/Validate.antt =====
-- src/manifest.rs: `PluginManifest::validate`, which every manifest passes before it is used.
use Prim.Native.String.{len}
use yh_extension_manager_v.Prelude.{
  ℕ, suc, String, ◌<>◌, Bool, true, false, not, ◌&&◌, Option, none, some, List, [], ◌∷◌, nat_eq,
}
use yh_extension_manager_v.Prelude.Outcome.{Result, ok, fail_if, ◌>>◌}
use yh_extension_manager_v.Text.{is_ascii_hexdigit, chars_all}
use yh_extension_manager_v.Text.Trim.{is_blank}
use yh_extension_manager_v.Text.Decimal.{show}
use yh_extension_manager_v.Manifest.{
  PluginRuntimeManifest, PluginSetupAction, PluginSetupStep, PluginManifest,
}

-- `v.as_ref().map(|v| v.trim().is_empty()).unwrap_or(true)`
abbrev pub is_blank_opt : Option String → Bool
is_blank_opt none = true
is_blank_opt (some v) = is_blank v

unfoldable pub validate_runtime : PluginRuntimeManifest → Result String Unit
validate_runtime (PluginRuntimeManifest.wasm_component r) =
    fail_if (is_blank r.artifact) "wasm artifact is required"
validate_runtime (PluginRuntimeManifest.wasm_module r) =
    fail_if (is_blank r.artifact) "wasm artifact is required"
validate_runtime (PluginRuntimeManifest.process r) =
    fail_if (is_blank r.program) "process program is required"
validate_runtime (PluginRuntimeManifest.docker r) =
    fail_if (is_blank_opt r.image && is_blank_opt r.oci_archive && is_blank_opt r.compose_file)
      "docker runtime requires image, oci_archive, or compose_file"

-- `matches!(step.action, PluginSetupAction::Download)`
abbrev pub is_download : PluginSetupAction → Bool
is_download PluginSetupAction.download = true
is_download _ = false

abbrev pub is_sha256_hex : String → Bool
is_sha256_hex sha = nat_eq (len sha) 64 && chars_all is_ascii_hexdigit sha

unfoldable pub validate_sha : String → ℕ → Option String → Result String Unit
validate_sha label i none = ok tt
validate_sha label i (some sha) =
    fail_if (not (is_sha256_hex sha))
      (label <> "[" <> show i <> "].sha256 must be a 64-character hex string, got '" <> sha <> "'")

unfoldable pub validate_step : String → ℕ → PluginSetupStep → Result String Unit
unfolding validate_sha
validate_step label i step = do
  fail_if (is_download step.action && is_blank_opt step.url)
      (label <> "[" <> show i <> "].url is required for Download action in " <> label)
  validate_sha label i step.sha256

unfoldable pub validate_steps : String → ℕ → List PluginSetupStep → Result String Unit
unfolding validate_step
validate_steps label i [] = ok tt
validate_steps label i (step ∷ rest) = do
  validate_step label i step
  validate_steps label (suc i) rest

abbrev pub steps_of : Option (List PluginSetupStep) → List PluginSetupStep
steps_of none = []
steps_of (some entries) = entries

unfoldable pub validate : PluginManifest → Result String Unit
unfolding validate_runtime validate_steps
validate m = do
  fail_if (is_blank m.id) "plugin id is required"
  fail_if (is_blank m.name) "plugin name is required"
  fail_if (is_blank m.version) "plugin version is required"
  fail_if (is_blank m.summary) "plugin summary is required"
  fail_if (is_blank m.description) "plugin description is required"
  fail_if (is_blank m.author) "plugin author is required"
  validate_runtime m.runtime
  validate_steps "install_commands" 0 (steps_of m.install_commands)
  validate_steps "upgrade_commands" 0 (steps_of m.upgrade_commands)
  validate_steps "uninstall_commands" 0 (steps_of m.uninstall_commands)
