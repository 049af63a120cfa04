-- ===== src/Installer/Setup/Step.antt =====
-- src/installer.rs: one setup step, with its eleven actions.
use Prim.Native.Nat.{bit_and}
use yh_extension_manager_v.Prelude.{
  ℕ, String, ◌<>◌, Bool, true, false, not, Option, none, some, [], ◌==◌, nat_eq, or_else, unwrap_or,
  if◌then◌else◌,
}
use yh_extension_manager_v.Prelude.Outcome.{value_or}
use yh_extension_manager_v.Text.{trim}
use yh_extension_manager_v.Text.Decimal.{parse_octal}
use yh_extension_manager_v.FilePath.{join, parent, is_absolute}
use yh_extension_manager_v.Manifest.{PluginSetupAction, PluginSetupStep}
use yh_extension_manager_v.World.{
  Env, Bytes, Command, Exec, pure, raise_if, or_raise, lift, os, observe, attempt, map_error, ◌>>=◌,
  ◌>>◌,
}
use yh_extension_manager_v.Installer.Extract.{
  create_dir_of, extract_archive, extract_archive_with_format,
}

-- A path of a step: an absolute one is kept, another one is below the directory.
abbrev source_path : String → Option String → Option String
source_path dir none = none
source_path dir (some s) = some (if is_absolute s then s else join dir s)

abbrev dest_path : String → Option String → Option String
dest_path dir none = none
dest_path dir (some d) = some (join dir d)

module _ (E : Env) where
  unfoldable pub compute_sha256 : Bytes → String
  compute_sha256 bytes = E.sha256_hex bytes

  unfoldable pub verify_sha256 : Bytes → String → Exec E String Unit
  unfolding compute_sha256
  verify_sha256 data_bytes expected =
      raise_if (not (compute_sha256 data_bytes == expected))
        ("SHA-256 mismatch: expected " <> expected <> " but computed " <> compute_sha256 data_bytes)

  unfoldable pub verify_declared : Bytes → Option String → Exec E String Unit
  unfolding verify_sha256
  verify_declared data_bytes none = pure tt
  verify_declared data_bytes (some expected) = verify_sha256 data_bytes expected

  unfoldable pub download_to_bytes : String → Exec E String Bytes
  download_to_bytes url = do
    response ← map_error (λ e. "failed to download '" <> url <> "': " <> e) (os (E.http_get url))
    raise_if (not response.success)
        ("download failed with status " <> response.status <> " for '" <> url <> "'")
    map_error (λ e. "failed to read response body from '" <> url <> "': " <> e) (lift response.body)

  unfoldable pub write_download :
      PluginSetupStep → String → String → Bytes → Option String → Exec E String Unit
  write_download step pkg_dir dest content (some archive_fmt) = do
    create_dir_of E (parent dest) "dir"
    map_error (λ e. "failed to write archive '" <> dest <> "': " <> e) (os (E.write dest content))
    extract_archive_with_format E dest (unwrap_or (parent dest) pkg_dir) archive_fmt
        (unwrap_or step.strip_components 0)
    attempt (os (E.remove_file dest))
    pure tt
  write_download step pkg_dir dest content none = do
    create_dir_of E (parent dest) "dir"
    map_error (λ e. "failed to write '" <> dest <> "': " <> e) (os (E.write dest content))

  unfoldable pub download_step : PluginSetupStep → String → Option String → Exec E String Unit
  unfolding download_to_bytes verify_declared write_download
  download_step step pkg_dir dst = do
    url ← or_raise step.url "download action requires url"
    dest ← or_raise dst "download action requires dest"
    content ← download_to_bytes url
    verify_declared content step.sha256
    write_download step pkg_dir dest content step.archive

  unfoldable pub extract_step :
      PluginSetupStep → String → Option String → Option String → Exec E String Unit
  extract_step step pkg_dir src dst = do
    src_path ← or_raise src "extract action requires source"
    extract_archive E src_path (unwrap_or dst pkg_dir) (unwrap_or step.strip_components 0)

  unfoldable pub move_step : Option String → Option String → Exec E String Unit
  move_step src dst = do
    src_path ← or_raise src "move action requires source"
    dst_path ← or_raise dst "move action requires dest"
    create_dir_of E (parent dst_path) "dir"
    map_error (λ e. "move '" <> src_path <> "' to '" <> dst_path <> "' failed: " <> e)
        (os (E.rename src_path dst_path))

  unfoldable pub copy_step : Option String → Option String → Exec E String Unit
  copy_step src dst = do
    src_path ← or_raise src "copy action requires source"
    dst_path ← or_raise dst "copy action requires dest"
    create_dir_of E (parent dst_path) "dir"
    map_error (λ e. "copy '" <> src_path <> "' to '" <> dst_path <> "' failed: " <> e)
        (os (E.copy src_path dst_path))

  unfoldable pub symlink_step : PluginSetupStep → Option String → Exec E String Unit
  symlink_step step dst = do
    link_path ← or_raise dst "symlink action requires dest"
    target ←
        or_raise (or_else step.symlink_target step.source)
          "symlink action requires symlink_target or source"
    create_dir_of E (parent link_path) "dir"
    map_error (λ e. "symlink '" <> link_path <> "' -> '" <> target <> "' failed: " <> e)
        (os (E.symlink target link_path))

  unfoldable pub chmod_step : PluginSetupStep → Option String → Exec E String Unit
  chmod_step step src = do
    target ← or_raise src "chmod action requires source"
    mode_str ← or_raise step.mode "chmod action requires mode"
    mode ← or_raise (parse_octal mode_str) ("invalid mode '" <> mode_str <> "': must be octal")
    map_error (λ e. "chmod '" <> target <> "' to '" <> mode_str <> "' failed: " <> e)
        (os (E.set_permissions target mode))

  unfoldable pub mkdir_step : PluginSetupStep → String → Option String → Exec E String Unit
  mkdir_step step pkg_dir dst = do
    dir ←
        or_raise (or_else dst (dest_path pkg_dir step.source))
          "mkdir action requires source or dest"
    map_error (λ e. "mkdir '" <> dir <> "' failed: " <> e) (os (E.create_dir_all dir))

  unfoldable pub remove_target : String → Bool → Exec E String Unit
  remove_target target true =
      map_error (λ e. "remove dir '" <> target <> "' failed: " <> e) (os (E.remove_dir_all target))
  remove_target target false =
      map_error (λ e. "remove file '" <> target <> "' failed: " <> e) (os (E.remove_file target))

  unfoldable pub remove_step : PluginSetupStep → String → Option String → Exec E String Unit
  unfolding remove_target
  remove_step step pkg_dir dst = do
    target ←
        or_raise (or_else dst (source_path pkg_dir step.source))
          "remove action requires source or dest"
    there ← attempt (os (E.try_exists target))
    is_dir ← observe (E.is_dir target)
    if value_or there false then remove_target target is_dir else pure tt

  unfoldable pub touch_step : Option String → Exec E String Unit
  touch_step dst = do
    target ← or_raise dst "touch action requires dest"
    create_dir_of E (parent target) "dir"
    map_error (λ e. "touch '" <> target <> "' failed: " <> e) (os (E.write target []))

  unfoldable pub write_file_step : PluginSetupStep → Option String → Exec E String Unit
  write_file_step step dst = do
    target ← or_raise dst "write_file action requires dest"
    create_dir_of E (parent target) "dir"
    map_error (λ e. "write_file '" <> target <> "' failed: " <> e)
        (os (E.write_text target (unwrap_or step.content "")))

  abbrev run_command : String → String → PluginSetupStep → Command
  run_command bin_path pkg_dir step = record {
    program = bin_path;
    args = unwrap_or step.args [];
    env = [];
    cwd = some pkg_dir;
    log_file = none;
    own_group = false;
  }

  unfoldable pub make_executable : String → ℕ → Exec E String Unit
  make_executable bin_path mode =
      if nat_eq (bit_and mode 0o111) 0
      then map_error (λ e. "failed to chmod '" <> bin_path <> "': " <> e)
          (os (E.set_permissions bin_path 0o755))
      else pure tt

  unfoldable pub run_step : PluginSetupStep → String → Exec E String Unit
  unfolding make_executable
  run_step step pkg_dir = do
    bin_rel ← or_raise step.source "run action requires source"
    let bin_path = join pkg_dir bin_rel
    there ← attempt (os (E.try_exists bin_path))
    raise_if (not (value_or there false)) ("run target '" <> bin_path <> "' does not exist")
    mode ← map_error (λ e. "failed to stat '" <> bin_path <> "': " <> e) (os (E.mode_of bin_path))
    make_executable bin_path mode
    output ←
        map_error (λ e. "failed to execute '" <> bin_path <> "': " <> e)
          (os (E.status (run_command bin_path pkg_dir step)))
    raise_if (not output.success) (
        "command '"
        <> bin_path
        <> "' failed with exit code "
        <> output.text
        <> ": "
        <> trim output.stderr)

  unfoldable pub perform :
      PluginSetupAction
      → PluginSetupStep
      → String
      → Option String
      → Option String
      → Exec E String Unit
  unfolding download_step extract_step move_step copy_step symlink_step chmod_step mkdir_step
      remove_step touch_step write_file_step run_step
  perform PluginSetupAction.download step pkg_dir src dst = download_step step pkg_dir dst
  perform PluginSetupAction.extract step pkg_dir src dst = extract_step step pkg_dir src dst
  perform PluginSetupAction.move step pkg_dir src dst = move_step src dst
  perform PluginSetupAction.copy step pkg_dir src dst = copy_step src dst
  perform PluginSetupAction.symlink step pkg_dir src dst = symlink_step step dst
  perform PluginSetupAction.chmod step pkg_dir src dst = chmod_step step src
  perform PluginSetupAction.mkdir step pkg_dir src dst = mkdir_step step pkg_dir dst
  perform PluginSetupAction.remove step pkg_dir src dst = remove_step step pkg_dir dst
  perform PluginSetupAction.touch step pkg_dir src dst = touch_step dst
  perform PluginSetupAction.write_file step pkg_dir src dst = write_file_step step dst
  perform PluginSetupAction.run step pkg_dir src dst = run_step step pkg_dir

  unfoldable pub execute_setup_step : PluginSetupStep → String → String → Exec E String Unit
  unfolding perform
  execute_setup_step step work_dir pkg_dir =
      perform step.action step pkg_dir (source_path work_dir step.source)
        (dest_path pkg_dir step.dest)
