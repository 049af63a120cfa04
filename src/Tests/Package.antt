-- ===== src/Tests/Package.antt =====
-- Manifests, permissions, archive entries and processes on the machine of the tests.
use yh_extension_manager_v.Prelude.{
  String, ◌≡◌, refl, ◌↔◌, Bool, true, false, Option, none, some, List, [], ◌∷◌, ◌++◌, or_else, ◌==◌,
  if◌then◌else◌,
}
use yh_extension_manager_v.Prelude.Outcome.{ok, is_ok}
use yh_extension_manager_v.Text.{split, chars_all}
use yh_extension_manager_v.FilePath.{join, is_absolute}
use yh_extension_manager_v.Manifest.{PluginPermission, PluginRuntimeManifest, as_key}
use yh_extension_manager_v.Manifest.Network.{
  base_url, effective_base_url, base_url-eq-effective_base_url,
}
use yh_extension_manager_v.Manifest.Validate.{validate}
use yh_extension_manager_v.Manifest.Validity.{IsValidManifest, validate_iff}
use yh_extension_manager_v.Permissions.{
  PluginPermissionGrantItem, check_plugin_permissions, require_plugin_permission,
  replace_plugin_permission_grants,
}
use yh_extension_manager_v.Permissions.Laws.{
  decision, last_decision, replace_plugin_permission_grants-decision,
}
use yh_extension_manager_v.Permissions.Check.{
  holds, all_hold, check_plugin_permissions-all_hold, require_plugin_permission_iff,
}
use yh_extension_manager_v.Registry.State.{state_of}
use yh_extension_manager_v.Installer.{InstallPluginOptions, InstallPluginResult}
use yh_extension_manager_v.Installer.Manifest.{read_manifest_from_zip_bytes}
use yh_extension_manager_v.Installer.Register.{register_plugin_from_zip_bytes}
use yh_extension_manager_v.Installer.Register.Pending.{
  declares, is_pending, register_plugin_from_zip_bytes-pending,
}
use yh_extension_manager_v.Manager.{is_safe_char, sanitize_component}
use yh_extension_manager_v.Manager.Sanitize.{sanitize_component-sanitize_component}
use yh_extension_manager_v.Installer.SafePath.{safe_join, walk, safe_join-stays}
use yh_extension_manager_v.Runtime.Process.{health_check}
use yh_extension_manager_v.Runtime.Process.Health.{some_probe_answers, health_check-is_ok}
use yh_extension_manager_v.World.{◌>>=◌}
use yh_extension_manager_v.Tests.{machine, installed_world, manifest, process}

abbrev revoked : List PluginPermissionGrantItem
revoked = record { permission_key = "kv-read"; granted = false } ∷ []

replaces :
    (replace_plugin_permission_grants (machine true) "chat" revoked (installed_world true)).0
    ≡ ok tt
unfolding replace_plugin_permission_grants ◌>>=◌ yh_extension_manager_v.Prelude.Rows.select_one
replaces = refl

checks :
    (check_plugin_permissions
      (machine true)
      "chat"
      (PluginPermission.kv_read ∷ [])
      (installed_world true)).0
    ≡ ok true
unfolding check_plugin_permissions ◌>>=◌ yh_extension_manager_v.Prelude.Rows.select_one
checks = refl

joins : safe_join "/data" "ui/index.html" ≡ ok "/data/ui/index.html"
unfolding safe_join split join
joins = refl

replace_plugin_permission_grants-decision_example :
    decision
      (replace_plugin_permission_grants
        (machine true)
        "chat"
        revoked
        (installed_world true)).1.core.db.grants
      "chat"
      "kv-read"
    ≡ (if "chat" == "chat"
        then or_else
            (last_decision "kv-read" revoked)
            (decision (installed_world true).core.db.grants "chat" "kv-read")
        else decision (installed_world true).core.db.grants "chat" "kv-read")
replace_plugin_permission_grants-decision_example =
    replace_plugin_permission_grants-decision "chat" revoked (installed_world true) "chat" "kv-read"
      replaces

check_plugin_permissions-all_hold_example :
    (true ≡ all_hold (installed_world true).core.db.grants "chat" (PluginPermission.kv_read ∷ []))
    × ((check_plugin_permissions
          (machine true)
          "chat"
          (PluginPermission.kv_read ∷ [])
          (installed_world true)).1.core
        ≡ (installed_world true).core)
check_plugin_permissions-all_hold_example =
    check_plugin_permissions-all_hold "chat" (PluginPermission.kv_read ∷ []) (installed_world true)
      {b = true} checks

require_plugin_permission_iff_example :
    ((require_plugin_permission
        (machine true)
        "chat"
        PluginPermission.kv_write
        (installed_world true)).0
      ≡ ok tt)
    ↔ (holds (installed_world true).core.db.grants "chat" PluginPermission.kv_write ≡ true)
require_plugin_permission_iff_example =
    require_plugin_permission_iff "chat" PluginPermission.kv_write (installed_world true) refl

validate_iff_example : (validate manifest ≡ ok tt) ↔ IsValidManifest manifest
validate_iff_example = validate_iff manifest

safe_join-stays_example :
    ("/data/ui/index.html" ≡ join "/data" "ui/index.html")
    × (is_absolute "ui/index.html" ≡ false)
    × ((deeper : List String) × (walk ("data" ∷ []) (split b'/' "ui/index.html")
          ≡ deeper ++ "data" ∷ []))
safe_join-stays_example =
    safe_join-stays "/data" "ui/index.html" "/data/ui/index.html" ("data" ∷ []) joins

base_url-eq-effective_base_url_example :
    base_url (PluginRuntimeManifest.process process)
    ≡ effective_base_url (PluginRuntimeManifest.process process)
base_url-eq-effective_base_url_example =
    base_url-eq-effective_base_url (PluginRuntimeManifest.process process)

abbrev sideload : InstallPluginOptions
sideload = record { source_kind = "zip"; market_origin = none; actor_user_id = some "root" }

abbrev registered : InstallPluginResult
registered = record {
  plugin_id = "chat";
  version = "1.0";
  package_dir = "/data/packages/chat/1.0";
  checksum_sha256 = "00";
  prepared_runtime_kind = "process";
}

reads : (read_manifest_from_zip_bytes (machine true) [] (installed_world true)).0 ≡ ok manifest
unfolding read_manifest_from_zip_bytes ◌>>=◌ validate yh_extension_manager_v.Text.trim
    yh_extension_manager_v.Text.is_whitespace
reads = refl

registers :
    (register_plugin_from_zip_bytes
      (machine true)
      "/data/packages"
      []
      sideload
      (installed_world true)).0
    ≡ ok registered
unfolding register_plugin_from_zip_bytes ◌>>=◌ read_manifest_from_zip_bytes validate
    yh_extension_manager_v.Text.trim yh_extension_manager_v.Text.is_whitespace
    yh_extension_manager_v.Installer.Register.extract_plugin_zip_to_dir
    yh_extension_manager_v.Installer.Register.validate_prepared_runtime_basic
    yh_extension_manager_v.Prelude.Rows.select_one replace_plugin_permission_grants
    yh_extension_manager_v.Permissions.permission_keys_to_items
    yh_extension_manager_v.Registry.append_audit_log join
registers = refl

asks : declares manifest.permissions PluginPermission.kv_read ≡ true
unfolding yh_extension_manager_v.Manifest.as_key
asks = refl

register_plugin_from_zip_bytes-pending_example :
    (is_pending (
        state_of
          (register_plugin_from_zip_bytes
            (machine true)
            "/data/packages"
            []
            sideload
            (installed_world true)).1.core.db.registry
          "chat")
      ≡ true)
    × (decision
          (register_plugin_from_zip_bytes
            (machine true)
            "/data/packages"
            []
            sideload
            (installed_world true)).1.core.db.grants
          "chat"
          (as_key PluginPermission.kv_read)
        ≡ some false)
register_plugin_from_zip_bytes-pending_example =
    register_plugin_from_zip_bytes-pending "/data/packages" [] sideload (installed_world true)
      manifest PluginPermission.kv_read {r = registered} reads asks registers

health_check-is_ok_example :
    is_ok
      (health_check
        (machine true)
        15
        "http://127.0.0.1:1/health"
        "chat"
        (some 7)
        (installed_world true)).0
    ≡ some_probe_answers (machine true) 15 "http://127.0.0.1:1/health" (installed_world true).env
health_check-is_ok_example =
    health_check-is_ok 14 "http://127.0.0.1:1/health" "chat" (some 7) (installed_world true)

sanitize_component-sanitize_component_example :
    (chars_all is_safe_char (sanitize_component "a/b c") ≡ true)
    × (sanitize_component (sanitize_component "a/b c") ≡ sanitize_component "a/b c")
sanitize_component-sanitize_component_example = sanitize_component-sanitize_component "a/b c"
