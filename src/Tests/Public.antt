-- ===== src/Tests/Public.antt =====
-- Requests for the files of a plugin's user interface, on a machine with files.
use yh_extension_manager_v.Prelude.{
  ℕ, String, ◌≡◌, refl, true, false, Option, none, some, [], ◌∷◌, ◌==◌, if◌then◌else◌,
}
use yh_extension_manager_v.Prelude.Outcome.{Result, ok}
use yh_extension_manager_v.Manifest.{PluginManifest, PluginUiManifest}
use yh_extension_manager_v.Text.{split, trim, is_whitespace}
use yh_extension_manager_v.Manifest.Validate.{validate}
use yh_extension_manager_v.FilePath.{join}
use yh_extension_manager_v.Prelude.Rows.{select_one}
use yh_extension_manager_v.World.{Env, Bytes, World, ◌>>=◌}
use yh_extension_manager_v.Registry.{get_registry_by_id, get_version_by_plugin_and_version}
use yh_extension_manager_v.Installer.Manifest.{read_manifest_from_package_dir}
use yh_extension_manager_v.Public.{
  should_forward_request_header, ui_entry_relative_path, UiFile, serve_plugin_ui_file,
}
use yh_extension_manager_v.Public.Files.{IsServed, serve_plugin_ui_file-IsServed}
use yh_extension_manager_v.Tests.{machine, running_world, manifest}

abbrev ui : PluginUiManifest
ui = record { root = "/app/"; mount_path = none; sandboxed = none }

abbrev page_manifest : PluginManifest
page_manifest = record manifest { ui = some ui }

-- The machine on which `app.js` is there.
abbrev site : Env
site = record (machine true) {
  manifest_of_json = λ t. ok page_manifest;
  try_exists = λ p s. (ok (p == "/data/packages/chat/1.0/ui/app/app.js"), s);
}

abbrev site_world : World site
site_world = record { core = (running_world true).core; env = (running_world true).env }

abbrev read : String → ℕ → Result String Bytes × ℕ
read p s =
    if p == "/data/packages/chat/1.0/ui/app/app.js" then (ok (1 ∷ []), s) else (ok (2 ∷ []), s)

abbrev header_of : String → Option String
header_of p = some "text/plain"

abbrev script : UiFile
script = record { content_type = "text/plain"; body = 1 ∷ [] }

serves : (serve_plugin_ui_file {E = site} read header_of "chat" "app.js" site_world).0 ≡ ok script
unfolding serve_plugin_ui_file get_registry_by_id get_version_by_plugin_and_version select_one
    read_manifest_from_package_dir join split validate trim is_whitespace ◌>>=◌
serves = refl

-- A file that is not there is answered with the entry.
serves_entry :
    (serve_plugin_ui_file {E = site} read header_of "chat" "rooms/7" site_world).0
    ≡ ok (record { content_type = "text/plain"; body = 2 ∷ [] })
unfolding serve_plugin_ui_file get_registry_by_id get_version_by_plugin_and_version select_one
    read_manifest_from_package_dir join split validate trim is_whitespace ◌>>=◌
serves_entry = refl

serve_plugin_ui_file-IsServed_example :
    IsServed {E = site} read header_of "chat" "app.js" site_world script
serve_plugin_ui_file-IsServed_example =
    serve_plugin_ui_file-IsServed {E = site} read header_of "chat" "app.js" site_world script serves

entry_of_page : ui_entry_relative_path "app/main.html" ≡ "app/main.html"
unfolding ui_entry_relative_path split
entry_of_page = refl

entry_of_directory : ui_entry_relative_path "/.html/" ≡ ".html/index.html"
unfolding ui_entry_relative_path split
entry_of_directory = refl

keeps_host : should_forward_request_header "host" ≡ false
unfolding should_forward_request_header
keeps_host = refl
