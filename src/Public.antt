-- ===== src/Public.antt =====
-- src/public.rs: the files of a plugin's user interface, and where its requests are forwarded.
pub mod Files
use mathlib.Core.Option
use Prim.Native.Char.{code}
use yh_extension_manager_v.Prelude.{
  String, ◌<>◌, Bool, true, false, not, ◌&&◌, ◌||◌, Option, none, some, List, [], ◌∷◌, ◌==◌, nat_eq,
  or_else, unwrap_or, if◌then◌else◌,
}
use yh_extension_manager_v.Prelude.Outcome.{Result, ok, err}
use yh_extension_manager_v.Text.{str_is_empty, split}
use yh_extension_manager_v.FilePath.{join, is_absolute, trim_end_slashes}
use yh_extension_manager_v.Manifest.{PluginManifest}
use yh_extension_manager_v.World.{
  Env, Bytes, Exec, pure, lift, os, or_raise, map_error, ◌>>=◌, ◌>>◌,
}
use yh_extension_manager_v.Registry.{get_registry_by_id, get_version_by_plugin_and_version}
use yh_extension_manager_v.Manager.{get_plugin_runtime_manager, get_runtime_handle}
use yh_extension_manager_v.Installer.Manifest.{read_manifest_from_package_dir}
use yh_extension_manager_v.Installer.SafePath.{any_parent_dir}
use yh_extension_manager_v.Handlers.{AppError, ErrorCode, app_error, internal}

unfoldable pub safe_join : String → String → Result AppError String
safe_join base name =
    if is_absolute name || any_parent_dir (split b'/' name)
    then err (app_error ErrorCode.bad_request ("invalid relative path: " <> name))
    else ok (join base name)

-- The name of a header is in lower case.
unfoldable pub should_forward_request_header : String → Bool
should_forward_request_header name = not (
    name == "connection"
    || name == "content-length"
    || name == "host"
    || name == "keep-alive"
    || name == "proxy-authenticate"
    || name == "proxy-authorization"
    || name == "te"
    || name == "trailer"
    || name == "transfer-encoding"
    || name == "upgrade")

-- `Path::file_name`: the last component, where empty ones and `.` are passed over and `..` is no
-- name.
unfoldable pub last_component : List String → Option String
last_component [] = none
last_component (c ∷ cs) = or_else (last_component cs) (if c == "" || c == "." then none else some c)

abbrev file_name_of : Option String → Option String
file_name_of none = none
file_name_of (some name) = if name == ".." then none else some name

-- The text behind the last dot of a name, if there is a dot that does not begin it.
unfoldable pub last_dot : String → Option String
last_dot String.[] = none
last_dot (String.◌∷◌ c s) = or_else (last_dot s) (if nat_eq (code c) b'.' then some s else none)

abbrev extension_of : Option String → Option String
extension_of none = none
extension_of (some String.[]) = none
extension_of (some (String.◌∷◌ c s)) = last_dot s

unfoldable pub is_html_like_path : String → Bool
unfolding last_component last_dot
is_html_like_path value = elim (extension_of (file_name_of (last_component (split b'/' value)))) [
  | none ↦ false
  | some ext ↦ ext == "html" || ext == "htm"
]

unfoldable pub trim_start_slashes : String → String
trim_start_slashes String.[] = String.[]
trim_start_slashes (String.◌∷◌ c s) =
    let rest = trim_start_slashes s in if nat_eq (code c) b'/' then rest else String.◌∷◌ c s

-- `trim_matches('/')`
abbrev trim_slashes : String → String
trim_slashes s = trim_end_slashes (trim_start_slashes s)

unfoldable pub ui_entry_relative_path : String → String
unfolding is_html_like_path trim_start_slashes trim_end_slashes
ui_entry_relative_path ui_root =
    let trimmed = trim_slashes ui_root in
    if str_is_empty trimmed
    then "index.html"
    else if is_html_like_path trimmed
    then trimmed
    else trim_end_slashes trimmed <> "/index.html"

unfoldable pub ui_requested_relative_path : String → String → String
unfolding ui_entry_relative_path is_html_like_path trim_start_slashes trim_end_slashes
ui_requested_relative_path ui_root path =
    let requested = trim_slashes path in
    let trimmed_root = trim_slashes ui_root in
    if str_is_empty requested
    then ui_entry_relative_path ui_root
    else if str_is_empty trimmed_root || is_html_like_path trimmed_root
    then requested
    else trim_end_slashes trimmed_root <> "/" <> requested

-- the body of the response and the type that it is declared with
pub record UiFile : Type 0 where
  pub content_type : String
  pub body : Bytes

module _ (E : Env) where
  -- the package directory of the plugin's current version, and its manifest
  unfoldable pub load_package_root : String → Exec E AppError (String × PluginManifest)
  load_package_root plugin_id = do
    found ←
        map_error (λ e. internal ("failed to load plugin registry: " <> e))
          (get_registry_by_id E plugin_id)
    plugin ←
        or_raise found (app_error ErrorCode.not_found ("Plugin '" <> plugin_id <> "' not found"))
    current ←
        or_raise plugin.current_version (
          app_error ErrorCode.bad_request ("Plugin '" <> plugin_id <> "' has no installed version"))
    stored ←
        map_error (λ e. internal ("failed to load plugin version: " <> e))
          (get_version_by_plugin_and_version E plugin_id current)
    version ← or_raise stored (
        app_error ErrorCode.not_found
          ("Plugin '" <> plugin_id <> "' current version record not found"))
    manifest ←
        map_error (app_error ErrorCode.bad_request)
          (read_manifest_from_package_dir E version.package_path)
    pure (version.package_path, manifest)

  unfoldable pub active_route_base_url : String → Exec E AppError String
  active_route_base_url plugin_id = do
    running ← get_plugin_runtime_manager E
    or_raise running (internal "plugin runtime manager is not initialized")
    kept ← get_runtime_handle E plugin_id
    handle ←
        or_raise kept
          (app_error ErrorCode.not_found ("Plugin '" <> plugin_id <> "' runtime is not active"))
    or_raise handle.route_base_url
        (app_error ErrorCode.bad_request "plugin runtime has no proxy base url")

  -- the requested file if it is there, else the entry
  unfoldable pub select_ui_file : String → String → String → Exec E AppError String
  unfolding safe_join ui_entry_relative_path ui_requested_relative_path
  select_ui_file root ui_root path = do
    entry_file ← lift (safe_join root (ui_entry_relative_path ui_root))
    candidate ← lift (safe_join root (ui_requested_relative_path ui_root path))
    there ←
        map_error (λ e. internal ("failed to check ui asset: " <> e)) (os (E.try_exists candidate))
    pure (if there then candidate else entry_file)

-- `read` is `tokio::fs::read`, and `header_of` the header value that `mime_guess` has for a path,
-- if it is one.
module _ {E : Env} (read : String → E.State → Result String Bytes × E.State)
    (header_of : String → Option String) where
  unfoldable pub read_ui_file : String → Exec E AppError UiFile
  read_ui_file selected = do
    content ← map_error (λ e. internal ("failed to read ui asset: " <> e)) (os (read selected))
    pure (record {
      content_type = unwrap_or (header_of selected) "application/octet-stream";
      body = content;
    })

  unfoldable pub serve_plugin_ui_file : String → String → Exec E AppError UiFile
  unfolding load_package_root select_ui_file read_ui_file
  serve_plugin_ui_file plugin_id path = do
    root_and_manifest ← load_package_root E plugin_id
    ui ← or_raise root_and_manifest.1.ui (
        app_error ErrorCode.not_found ("Plugin '" <> plugin_id <> "' does not provide a UI bundle"))
    selected ← select_ui_file E (join root_and_manifest.0 "ui") ui.root path
    read_ui_file selected
