-- ===== src/Installer/Register.antt =====
-- src/installer.rs: `register_plugin_from_zip_bytes`, which unpacks a package and records its
-- plugin as pending.
pub mod Pending
use Prim.Native.Nat.{bit_or}
use yh_extension_manager_v.Prelude.{
  ℕ, suc, String, ◌<>◌, Bool, false, not, ◌&&◌, Option, none, some, List, [], ◌∷◌, ◌++◌, ◌==◌,
  is_none, unwrap_or, if◌then◌else◌,
}
use yh_extension_manager_v.Prelude.Outcome.{Result}
use yh_extension_manager_v.Prelude.Rows.{select_one, update_one}
use yh_extension_manager_v.Text.{ends_with}
use yh_extension_manager_v.Text.Decimal.{show}
use yh_extension_manager_v.FilePath.{join, parent, file_name}
use yh_extension_manager_v.Manifest.{
  PluginManifest, PluginRuntimeManifest, runtime_kind, as_kebab_str,
}
use yh_extension_manager_v.Entities.{PluginRegistry}
use yh_extension_manager_v.World.{
  Env, Bytes, ZipEntry, Exec, pure, raise_if, lift, os, observe, step, attempt, map_error, query,
  statement, ◌>>=◌, ◌>>◌,
}
use yh_extension_manager_v.Permissions.{permission_keys_to_items, replace_plugin_permission_grants}
use yh_extension_manager_v.Registry.{by_id}
use yh_extension_manager_v.Installer.{pending, InstallPluginResult, InstallPluginOptions}
use yh_extension_manager_v.Installer.SafePath.{safe_join}
use yh_extension_manager_v.Installer.Manifest.{read_manifest_from_zip_bytes}

abbrev is_runtime_dir : Option String → Bool
is_runtime_dir none = false
is_runtime_dir (some dir) = file_name dir == "runtime"

-- The mode of an extracted file: what stands directly in a `runtime` directory and is no wasm
-- file is made executable.
unfoldable pub extracted_mode : String → Option ℕ → ℕ
extracted_mode out_path unix_mode =
    let mode = unwrap_or unix_mode 0o644 in
    if is_runtime_dir (parent out_path) && not (ends_with (file_name out_path) ".wasm")
    then bit_or mode 0o755
    else mode

-- The checksum that a manifest declares, if any, is not that of the package.
abbrev is_wrong_checksum : Option String → String → Bool
is_wrong_checksum none actual = false
is_wrong_checksum (some expected) actual = not (expected == actual)

module _ (E : Env) where
  pub create_parent : Option String → String → Exec E String Unit
  create_parent none what = pure tt
  create_parent (some dir) what =
      map_error (λ e. "failed to create " <> what <> " '" <> dir <> "': " <> e)
        (os (E.create_dir_all dir))

  extract_file : String → ZipEntry → Exec E String Unit
  unfolding create_parent extracted_mode
  extract_file out_path entry = do
    create_parent (parent out_path) "extracted parent dir"
    buffer ←
        map_error (λ e. "failed to read zip entry '" <> entry.name <> "': " <> e)
          (lift entry.content)
    map_error (λ e. "failed to write extracted file '" <> out_path <> "': " <> e)
        (os (E.write out_path buffer))
    attempt (os (E.set_permissions out_path (extracted_mode out_path entry.unix_mode)))
    pure tt

  extract_dir : String → Exec E String Unit
  extract_dir out_path =
      map_error (λ e. "failed to create extracted dir '" <> out_path <> "': " <> e)
        (os (E.create_dir_all out_path))

  -- the loop over the entries, from the given index on
  extract_entries : ℕ → String → List (Result String ZipEntry) → Exec E String Unit
  unfolding extract_file extract_dir safe_join
  extract_entries index target_dir [] = pure tt
  extract_entries index target_dir (read ∷ rest) = do
    entry ← map_error (λ e. "failed to read zip entry " <> show index <> ": " <> e) (lift read)
    out_path ← lift (safe_join target_dir entry.name)
    if entry.is_dir then extract_dir out_path else extract_file out_path entry
    extract_entries (suc index) target_dir rest

  -- `extract_plugin_zip_to_dir_blocking`
  unfoldable pub extract_plugin_zip_to_dir : Bytes → String → Exec E String Unit
  unfolding extract_entries
  extract_plugin_zip_to_dir zip_bytes target_dir = do
    map_error (λ e. "failed to create package dir '" <> target_dir <> "': " <> e)
        (os (E.create_dir_all target_dir))
    entries ← map_error (λ e. "invalid plugin package: " <> e) (lift (E.zip_entries zip_bytes))
    extract_entries 0 target_dir entries

  -- one file of the package, if the manifest names it
  require_file : String → String → Option String → Exec E String Unit
  require_file install_root what none = pure tt
  require_file install_root what (some file) = do
    there ← observe (E.exists (join install_root file))
    raise_if (not there) (what <> " '" <> file <> "' not found in package")

  unfoldable pub validate_prepared_runtime_basic : PluginManifest → String → Exec E String Unit
  unfolding require_file
  validate_prepared_runtime_basic manifest install_root = elim manifest.runtime [
    | PluginRuntimeManifest.wasm_component r ↦
        require_file install_root "wasm artifact" (some r.artifact)
    | PluginRuntimeManifest.wasm_module r ↦
        require_file install_root "wasm artifact" (some r.artifact)
    | PluginRuntimeManifest.process r ↦ require_file install_root "process program" (some r.program)
    | PluginRuntimeManifest.docker r ↦ do
      raise_if (is_none r.image && is_none r.oci_archive && is_none r.compose_file)
          "docker runtime must specify image, oci_archive, or compose_file"
      require_file install_root "docker oci_archive" r.oci_archive
      require_file install_root "docker compose_file" r.compose_file
  ]

  -- a package directory that is there already is replaced
  clear_package_dir : String → Exec E String Unit
  clear_package_dir package_dir = do
    there ←
        map_error (λ e. "failed to check package dir '" <> package_dir <> "': " <> e)
          (os (E.try_exists package_dir))
    if there
        then map_error
            (λ e. "failed to replace existing package dir '" <> package_dir <> "': " <> e)
            (os (E.remove_dir_all package_dir))
        else pure tt

  abbrev register_again :
      PluginManifest → InstallPluginOptions → ℕ → PluginRegistry → PluginRegistry
  register_again manifest options now r = record r {
    display_name = manifest.name;
    source_kind = options.source_kind;
    current_version = some manifest.version;
    install_status = pending;
    market_origin = options.market_origin;
    updated_at = now;
  }

  abbrev new_registry : PluginManifest → InstallPluginOptions → ℕ → PluginRegistry
  new_registry manifest options now = record {
    id = manifest.id;
    display_name = manifest.name;
    runtime_kind = "";
    source_kind = options.source_kind;
    current_version = some manifest.version;
    install_status = pending;
    enabled = false;
    market_origin = options.market_origin;
    created_at = now;
    updated_at = now;
  }

  write_registry :
      PluginManifest → InstallPluginOptions → ℕ → Option PluginRegistry → Exec E String Unit
  write_registry manifest options now (some existing) =
      map_error (λ e. "failed to update plugin registry: " <> e)
        (statement (λ db. (
          tt,
          record db {
            registry =
                update_one (by_id manifest.id) (register_again manifest options now) db.registry;
          },
        )))
  write_registry manifest options now none =
      map_error (λ e. "failed to insert plugin registry: " <> e)
        (statement (λ db.
          (tt, record db { registry = db.registry ++ (new_registry manifest options now ∷ []) })))

  insert_version : PluginManifest → String → String → ℕ → Exec E String Unit
  insert_version manifest package_dir checksum now = do
    id ← step E.uuid_v7
    map_error (λ e. "failed to insert plugin version: " <> e)
        (statement (λ db. (
          tt,
          record db {
            versions =
                db.versions
                ++ (record {
                  id = id;
                  plugin_id = manifest.id;
                  version = manifest.version;
                  package_path = package_dir;
                  checksum_sha256 = some checksum;
                  install_status = pending;
                  installed_at = none;
                  created_at = now;
                }
                    ∷ []);
          },
        )))

  -- the row of the registry is updated, or a new one is inserted
  save_registry : PluginManifest → InstallPluginOptions → ℕ → Exec E String Unit
  unfolding write_registry
  save_registry manifest options now = do
    existing ←
        map_error (λ e. "failed to load plugin registry: " <> e)
          (query (λ db. select_one (by_id manifest.id) db.registry))
    write_registry manifest options now existing

  -- the row of the audit log, with the time of the other rows
  log_registered : PluginManifest → Option String → ℕ → Exec E String Unit
  log_registered manifest actor_user_id now = do
    id ← step E.uuid_v7
    map_error (λ e. "failed to insert plugin audit log: " <> e)
        (statement (λ db. (
          tt,
          record db {
            audit_logs =
                db.audit_logs
                ++ (record {
                  id = id;
                  plugin_id = manifest.id;
                  action = "register";
                  message =
                      "Registered plugin " <> manifest.id <> " " <> manifest.version
                      <> " (pending)";
                  actor_user_id = actor_user_id;
                  created_at = now;
                }
                    ∷ []);
          },
        )))

  -- what is recorded of a package that has been unpacked
  pub record_registration :
      PluginManifest → String → String → InstallPluginOptions → Exec E String Unit
  unfolding save_registry insert_version log_registered
  record_registration manifest package_dir checksum options = do
    now ← step E.now
    save_registry manifest options now
    insert_version manifest package_dir checksum now
    map_error (λ e. "failed to save plugin permission grants: " <> e)
        (replace_plugin_permission_grants E manifest.id
          (permission_keys_to_items manifest.permissions []))
    log_registered manifest options.actor_user_id now

  pub unpack_package : PluginManifest → String → Bytes → Exec E String Unit
  unfolding clear_package_dir
  unpack_package manifest package_dir zip_bytes = do
    clear_package_dir package_dir
    extract_plugin_zip_to_dir zip_bytes package_dir
    validate_prepared_runtime_basic manifest package_dir

  -- the part that follows the reading of the manifest
  register_manifest :
      String → Bytes → InstallPluginOptions → PluginManifest → Exec E String InstallPluginResult
  unfolding record_registration unpack_package runtime_kind as_kebab_str
  register_manifest packages_root zip_bytes options manifest = do
    let checksum = E.sha256_hex zip_bytes
    raise_if (is_wrong_checksum manifest.checksum_sha256 checksum)
        "plugin package checksum does not match manifest checksum_sha256"
    let package_dir = join (join packages_root manifest.id) manifest.version
    unpack_package manifest package_dir zip_bytes
    record_registration manifest package_dir checksum options
    pure (record {
      plugin_id = manifest.id;
      version = manifest.version;
      package_dir = package_dir;
      checksum_sha256 = checksum;
      prepared_runtime_kind = as_kebab_str (runtime_kind manifest);
    })

  unfoldable pub register_plugin_from_zip_bytes :
      String → Bytes → InstallPluginOptions → Exec E String InstallPluginResult
  unfolding register_manifest
  register_plugin_from_zip_bytes packages_root zip_bytes options = do
    manifest ← read_manifest_from_zip_bytes E zip_bytes
    register_manifest packages_root zip_bytes options manifest
