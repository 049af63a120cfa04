-- ===== src/HostApi/Vfs.antt =====
-- src/host_api.rs: the endpoints of the virtual file system.
use yh_extension_manager_v.Prelude.{String, ◌<>◌, not, Option, none, some}
use yh_extension_manager_v.Prelude.Outcome.{map_err}
use yh_extension_manager_v.Text.{strip_prefix, before}
use yh_extension_manager_v.Text.Decimal.{show_int}
use yh_extension_manager_v.Text.Utf8.{bytes}
use yh_extension_manager_v.Manifest.{PluginPermission}
use yh_extension_manager_v.Text.Lossy.{from_utf8_lossy}
use yh_extension_manager_v.World.{
  Env, Exec, pure, raise_if, lift, os, observe, map_error, ◌>>=◌, ◌>>◌,
}
use yh_extension_manager_v.Handlers.{AppError, ErrorCode, app_error, internal}
use yh_extension_manager_v.HostApi.{Services, RequestContext}
use yh_extension_manager_v.HostApi.Auth.{require_user, require_plugin_or_user, require_permission}

pub record HostVfsReadTextQuery : Type 0 where
  pub logical_path : String

pub record HostVfsReadTextResponse : Type 0 where
  pub logical_path : String
  pub content : String

pub record HostVfsWriteTextRequest : Type 0 where
  pub logical_path : String
  pub content : String

pub record HostVfsWriteBytesRequest : Type 0 where
  pub logical_path : String
  pub content_base64 : String

abbrev before_slash : Option String → Option String
before_slash none = none
before_slash (some stripped) = before b'/' stripped

-- The plugin in whose directory a path of the form `/.plugins/{plugin_id}/...` is.
unfoldable pub plugin_of_path : String → Option String
plugin_of_path logical_path = before_slash (strip_prefix "/.plugins/" logical_path)

module _ (E : Env) where
  unfoldable pub check_path : PluginPermission → Option String → Exec E AppError Unit
  check_path permission none = pure tt
  check_path permission (some plugin_id) = require_permission E plugin_id permission

module _ {E : Env} (S : Services E) where
  unfoldable pub create_user_scoped_engine : RequestContext → Exec E AppError S.Storage
  create_user_scoped_engine ctx = do
    user ← lift (require_user ctx)
    ready ← observe S.hub_ready
    raise_if (not ready) (internal "vfs storage hub is not initialized")
    map_error (λ e. internal ("failed to create scoped vfs storage: " <> e))
        (os (S.create_user_storage user.user_id (show_int user.role_id)))

  unfoldable pub read_vfs_text :
      RequestContext → HostVfsReadTextQuery → Exec E AppError HostVfsReadTextResponse
  unfolding check_path plugin_of_path create_user_scoped_engine
  read_vfs_text ctx request = do
    lift (require_plugin_or_user ctx)
    check_path E PluginPermission.vfs_read (plugin_of_path request.logical_path)
    storage ← create_user_scoped_engine ctx
    content ←
        map_error (λ e. internal ("vfs read failed: " <> e))
          (os (S.vfs_read storage request.logical_path))
    pure (record { logical_path = request.logical_path; content = from_utf8_lossy content })

  -- The response repeats the path.
  unfoldable pub write_vfs_text : RequestContext → HostVfsWriteTextRequest → Exec E AppError String
  unfolding check_path plugin_of_path create_user_scoped_engine
  write_vfs_text ctx payload = do
    lift (require_plugin_or_user ctx)
    check_path E PluginPermission.vfs_write (plugin_of_path payload.logical_path)
    storage ← create_user_scoped_engine ctx
    map_error (λ e. internal ("vfs write failed: " <> e))
        (os (S.vfs_write storage payload.logical_path (bytes payload.content)))
    pure payload.logical_path

  unfoldable pub write_vfs_bytes :
      RequestContext → HostVfsWriteBytesRequest → Exec E AppError String
  unfolding check_path plugin_of_path create_user_scoped_engine
  write_vfs_bytes ctx payload = do
    lift (require_plugin_or_user ctx)
    check_path E PluginPermission.vfs_write (plugin_of_path payload.logical_path)
    storage ← create_user_scoped_engine ctx
    content ← lift (
        map_err (λ e. app_error ErrorCode.bad_request ("invalid base64 content: " <> e))
          (S.base64_decode payload.content_base64))
    map_error (λ e. internal ("vfs write failed: " <> e))
        (os (S.vfs_write storage payload.logical_path content))
    pure payload.logical_path
