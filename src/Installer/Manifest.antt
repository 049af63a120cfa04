-- ===== src/Installer/Manifest.antt =====
-- src/installer.rs: reading the manifest of a package, which `validate` accepts in both ways.
use yh_extension_manager_v.Prelude.{String, ◌<>◌}
use yh_extension_manager_v.Prelude.Outcome.{map_err}
use yh_extension_manager_v.FilePath.{join}
use yh_extension_manager_v.Manifest.{PluginManifest}
use yh_extension_manager_v.Manifest.Validate.{validate}
use yh_extension_manager_v.World.{Env, Bytes, Exec, pure, lift, os, map_error, ◌>>=◌, ◌>>◌}
use yh_extension_manager_v.Installer.{plugin_manifest_file_name}

module _ (E : Env) where
  unfoldable pub read_manifest_from_package_dir : String → Exec E String PluginManifest
  read_manifest_from_package_dir package_dir = do
    let manifest_path = join package_dir plugin_manifest_file_name
    text ←
        map_error (λ e. "failed to read installed plugin manifest '" <> manifest_path <> "': " <> e)
          (os (E.read_to_string manifest_path))
    manifest ← lift (
        map_err (λ e. "invalid installed plugin manifest '" <> manifest_path <> "': " <> e)
          (E.manifest_of_json text))
    lift (validate manifest)
    pure manifest

  -- `zip_text` opens the archive and reads one of its files; its error says which of them failed.
  unfoldable pub read_manifest_from_zip_bytes : Bytes → Exec E String PluginManifest
  read_manifest_from_zip_bytes zip_bytes = do
    text ← lift (E.zip_text zip_bytes plugin_manifest_file_name)
    manifest ← lift (map_err (λ e. "invalid plugin manifest: " <> e) (E.manifest_of_json text))
    lift (validate manifest)
    pure manifest
