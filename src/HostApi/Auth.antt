-- ===== src/HostApi/Auth.antt =====
-- src/host_api.rs: who makes a request, and the checks that the handlers begin with.
pub mod Signed
pub mod Caller
use mathlib.Core.Option
use yh_extension_manager_v.Prelude.{
  String, ◌<>◌, Bool, true, false, not, ◌||◌, Option, none, some, ◌==◌, unwrap_or, if◌then◌else◌,
}
use yh_extension_manager_v.Prelude.Dict
use yh_extension_manager_v.Prelude.Int.{ℤ}
use yh_extension_manager_v.Prelude.Outcome.{Result, ok, err}
use yh_extension_manager_v.Text.{str_is_empty, trim, strip_prefix}
use yh_extension_manager_v.Text.Trim.{is_blank}
use yh_extension_manager_v.Text.Decimal.{parse_i16}
use yh_extension_manager_v.Manifest.{PluginPermission}
use yh_extension_manager_v.World.{
  Env, Exec, PluginRuntimeManager, pure, raise_if, lift, or_raise, map_error, ◌>>=◌, ◌>>◌,
}
use yh_extension_manager_v.Manager.{sanitize_component, get_plugin_runtime_manager}
use yh_extension_manager_v.Manager.Signature.{verify_user_context_signature}
use yh_extension_manager_v.Permissions.{require_plugin_permission}
use yh_extension_manager_v.Handlers.{AppError, ErrorCode, app_error, internal}
use yh_extension_manager_v.HostApi.{Services, UserInfo, RequestContext, Headers, permission_denied}

unfoldable pub plugin_runtime_client_id : String
plugin_runtime_client_id = "plugin-runtime"

unfoldable pub is_plugin_runtime_request : RequestContext → Bool
unfolding plugin_runtime_client_id
is_plugin_runtime_request ctx = elim ctx.client_id [
  | none ↦ false
  | some id ↦ id == plugin_runtime_client_id
]

is_some_user : Option UserInfo → Bool
is_some_user none = false
is_some_user (some _) = true

unfoldable pub require_plugin_or_user : RequestContext → Result AppError Unit
unfolding is_plugin_runtime_request is_some_user
require_plugin_or_user ctx =
    if is_plugin_runtime_request ctx || is_some_user ctx.user_info
    then ok tt
    else err (
        app_error ErrorCode.unauthorized
          "plugin host API requires plugin runtime auth or authenticated user context")

abbrev visible : Option (Option String) → Option String
visible none = none
visible (some value) = value

abbrev non_empty : Option String → Option String
non_empty none = none
non_empty (some value) = if str_is_empty value then none else some value

unfoldable pub header_string : Headers → String → Option String
header_string headers name = non_empty (Option.map trim (visible (Dict.lookup name headers)))

module _ {E : Env} (S : Services E) where
  -- The user, once all parts of it are there and a manager can check the signature.
  unfoldable pub forwarded_user :
      Option String
      → Option ℤ
      → Option String
      → Option String
      → Option PluginRuntimeManager
      → Option UserInfo
  forwarded_user (some user_id) (some role_id) username (some signature) (some manager) =
      if not (
        verify_user_context_signature S.hmac_sha256_hex manager user_id (unwrap_or username "")
          role_id signature)
      then none
      else some (record { user_id = user_id; username = username; role_id = role_id })
  forwarded_user _ _ _ _ _ = none

  abbrev pub parsed_role : Option String → Option ℤ
  parsed_role none = none
  parsed_role (some value) = parse_i16 value

  unfoldable pub forwarded_user_from_headers :
      Headers → Option PluginRuntimeManager → Option UserInfo
  unfolding forwarded_user
  forwarded_user_from_headers headers manager =
      forwarded_user (header_string headers "X-Plugin-User-ID")
        (parsed_role (header_string headers "X-Plugin-User-Role"))
        (header_string headers "X-Plugin-User-Name")
        (header_string headers "X-Plugin-User-Signature") manager

  abbrev bearer : Option String → Option String
  bearer none = none
  bearer (some value) = strip_prefix "Bearer " value

  unfoldable pub bearer_token : Headers → Option String
  bearer_token headers =
      non_empty (Option.map trim (bearer (visible (Dict.lookup "Authorization" headers))))

  -- the user of a context, when a plugin runtime makes the request
  unfoldable pub as_plugin_runtime : RequestContext → String → Option UserInfo → RequestContext
  unfolding plugin_runtime_client_id
  as_plugin_runtime ctx token user = record ctx {
    client_id = some plugin_runtime_client_id;
    token = some token;
    user_id = Option.map (λ u. u.user_id) user;
    user_info = user;
  }

  -- The context that a plugin runtime's token gives to the request, if it carries that token.
  unfoldable pub authenticated :
      Headers → RequestContext → Option String → Option PluginRuntimeManager → Option RequestContext
  unfolding forwarded_user_from_headers as_plugin_runtime
  authenticated headers ctx (some token) (some manager) =
      if token == manager.host_api_secret
      then some (as_plugin_runtime ctx token (forwarded_user_from_headers headers (some manager)))
      else none
  authenticated headers ctx _ _ = none

  abbrev pub run_next :
      {F A : Type 0}
      → (RequestContext → Exec E F A)
      → Exec E F A
      → Option RequestContext
      → Exec E F A
  run_next next jwt none = jwt
  run_next next jwt (some ctx) = next ctx

  -- `next` is the rest of the server with the context that the request is given, and `jwt` the
  -- user's authentication on the request as it came.
  unfoldable pub plugin_host_auth_middleware :
      {F A : Type 0}
      → Headers
      → RequestContext
      → (RequestContext → Exec E F A)
      → Exec E F A
      → Exec E F A
  unfolding bearer_token authenticated
  plugin_host_auth_middleware headers ctx next jwt = do
    manager ← get_plugin_runtime_manager E
    run_next next jwt (authenticated headers ctx (bearer_token headers) manager)

unfoldable pub require_user : RequestContext → Result AppError UserInfo
require_user ctx = elim ctx.user_info [
  | none ↦
      err (app_error ErrorCode.unauthorized "plugin host API requires authenticated user context")
  | some user ↦ ok user
]

module _ {E : Env} (S : Services E) where
  unfoldable pub require_authenticated_plugin_id : Headers → Exec E AppError String
  require_authenticated_plugin_id headers = do
    plugin_id ←
        or_raise (header_string headers "X-Plugin-ID")
          (app_error ErrorCode.forbidden "Missing X-Plugin-ID header")
    signature ←
        or_raise (header_string headers "X-Plugin-ID-Signature")
          (app_error ErrorCode.forbidden "Missing X-Plugin-ID-Signature header")
    found ← get_plugin_runtime_manager E
    manager ← or_raise found (internal "plugin runtime manager is not initialized")
    raise_if
        (not (
          verify_user_context_signature S.hmac_sha256_hex manager plugin_id "" (ℤ.pos 0) signature))
        (app_error ErrorCode.forbidden "Invalid X-Plugin-ID signature")
    pure plugin_id

-- The permission check that the handlers share, with its error.
module _ (E : Env) where
  unfoldable pub require_permission : String → PluginPermission → Exec E AppError Unit
  require_permission plugin_id permission =
      map_error permission_denied (require_plugin_permission E plugin_id permission)

unfoldable pub sanitize_sqlite_component : String → String
unfolding sanitize_component
sanitize_sqlite_component value = sanitize_component value

unfoldable pub validate_host_plugin_identifier : String → String → Result AppError String
unfolding sanitize_sqlite_component
validate_host_plugin_identifier value field_name =
    if is_blank (sanitize_sqlite_component value)
    then err (app_error ErrorCode.bad_request (field_name <> " cannot be empty"))
    else ok (sanitize_sqlite_component value)
