-- ===== src/HostApi/Kv.antt =====
-- src/host_api.rs: the endpoints of the key-value store.
pub mod Store
pub mod Isolation
pub mod Requests
pub mod RoundTrip
pub mod Access
pub mod Namespace
use mathlib.Core.Option
use yh_extension_manager_v.Prelude.{ℕ, String, ◌<>◌, Bool, not, Option, none, some, ◌==◌}
use yh_extension_manager_v.Text.{strip_prefix, before}
use yh_extension_manager_v.Text.Utf8.{bytes}
use yh_extension_manager_v.Manifest.{PluginPermission}
use yh_extension_manager_v.Text.Lossy.{from_utf8_lossy}
use yh_extension_manager_v.World.{Env, Exec, pure, raise_if, lift, os, map_error, ◌>>=◌, ◌>>◌}
use yh_extension_manager_v.Handlers.{AppError, internal}
use yh_extension_manager_v.HostApi.{Services, RequestContext, Headers, permission_denied}
use yh_extension_manager_v.HostApi.Auth.{
  require_user, require_authenticated_plugin_id, require_permission,
  validate_host_plugin_identifier,
}

pub record HostKvSetRequest : Type 0 where
  pub key : String
  pub value : String
  pub ttl_secs : Option ℕ

pub record HostKvGetResponse : Type 0 where
  pub key : String
  pub value : Option String

pub record HostKvDeleteResponse : Type 0 where
  pub key : String
  pub deleted : Bool

pub record HostKvNamespaceRequest : Type 0 where
  pub plugin_id : String
  pub key : String

pub record HostKvNamespaceResponse : Type 0 where
  pub namespaced_key : String

unfoldable pub kv_namespaced_key : String → String → String
kv_namespaced_key plugin_id key = "plugin:" <> plugin_id <> ":" <> key

abbrev before_colon : Option String → Option String
before_colon none = none
before_colon (some stripped) = before b':' stripped

-- `target_plugin_id`: the plugin whose namespace a key is in, if it has that form.
unfoldable pub target_plugin_id : String → Option String
target_plugin_id key = before_colon (strip_prefix "plugin:" key)

module _ (E : Env) where
  -- The check of a key in a namespace; there is none for another key.
  unfoldable pub check_namespace : String → PluginPermission → Option String → Exec E AppError Unit
  check_namespace calling_plugin_id permission none = pure tt
  check_namespace calling_plugin_id permission (some target_id) = do
    raise_if (not (calling_plugin_id == target_id)) (
        permission_denied (
          "Plugin '" <> calling_plugin_id <> "' cannot access namespace of plugin '" <> target_id
          <> "'"))
    require_permission E calling_plugin_id permission

module _ {E : Env} (S : Services E) where
  -- What the three handlers begin with.
  unfoldable pub authorize_key :
      RequestContext → Headers → PluginPermission → String → Exec E AppError Unit
  unfolding check_namespace target_plugin_id
  authorize_key ctx headers permission key = do
    lift (require_user ctx)
    calling_plugin_id ← require_authenticated_plugin_id S headers
    check_namespace E calling_plugin_id permission (target_plugin_id key)

  unfoldable pub set_kv : RequestContext → Headers → HostKvSetRequest → Exec E AppError Unit
  unfolding authorize_key
  set_kv ctx headers payload = do
    authorize_key ctx headers PluginPermission.kv_write payload.key
    map_error (λ e. internal ("kv set failed: " <> e))
        (os (S.kv_set payload.key (bytes payload.value) payload.ttl_secs))

  unfoldable pub get_kv : RequestContext → Headers → String → Exec E AppError HostKvGetResponse
  unfolding authorize_key
  get_kv ctx headers key = do
    authorize_key ctx headers PluginPermission.kv_read key
    value ← map_error (λ e. internal ("kv get failed: " <> e)) (os (S.kv_get key))
    pure (record { key = key; value = Option.map from_utf8_lossy value })

  unfoldable pub delete_kv :
      RequestContext → Headers → String → Exec E AppError HostKvDeleteResponse
  unfolding authorize_key
  delete_kv ctx headers key = do
    authorize_key ctx headers PluginPermission.kv_delete key
    deleted ← map_error (λ e. internal ("kv delete failed: " <> e)) (os (S.kv_del key))
    pure (record { key = key; deleted = deleted })

module _ (E : Env) where
  unfoldable pub build_kv_namespace :
      RequestContext → HostKvNamespaceRequest → Exec E AppError HostKvNamespaceResponse
  unfolding kv_namespaced_key
  build_kv_namespace ctx payload = do
    lift (require_user ctx)
    plugin_id ← lift (validate_host_plugin_identifier payload.plugin_id "plugin_id")
    pure (record { namespaced_key = kv_namespaced_key plugin_id payload.key })
