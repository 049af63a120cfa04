-- ===== src/HostApi/Users.antt =====
-- src/host_api.rs: what a plugin may ask about users, and the notifications that it sends.
use Prim.Native.Nat.{Ordering}
use yh_extension_manager_v.Prelude.{String, ◌<>◌, Bool, Option, none, some, List, [], ◌∷◌, is_empty}
use yh_extension_manager_v.Prelude.Int.{ℤ}
use yh_extension_manager_v.Prelude.Outcome.{Result, ok, err, map_err}
use yh_extension_manager_v.Manifest.{PluginPermission}
use yh_extension_manager_v.World.{
  Env, Exec, pure, raise_if, or_raise, lift, os, map_error, ◌>>=◌, ◌>>◌,
}
use yh_extension_manager_v.Handlers.{AppError, ErrorCode, app_error, internal}
use yh_extension_manager_v.HostApi.{Services, RequestContext, Headers}
use yh_extension_manager_v.HostApi.Auth.{
  require_user, require_plugin_or_user, require_authenticated_plugin_id, require_permission,
}

pub record HostIdentityResponse : Type 0 where
  pub user_id : String
  pub username : Option String
  pub role_id : ℤ

pub record HostPermissionCheckRequest : Type 0 where
  pub permission_key : String

pub record HostPermissionCheckResponse : Type 0 where
  pub allowed : Bool

pub record HostUserLookupResponse : Type 0 where
  pub user_id : String
  pub username : String
  pub role_id : ℤ
  pub status : String

pub record HostNotificationSendRequest : Type 0 where
  pub title : String
  pub content : String
  pub msg_type : String
  pub level : String
  pub recipient_ids : List String
  pub extra_data : Option String

pub record HostNotificationSendResponse : Type 0 where
  pub notification_id : String

module _ {E : Env} (S : Services E) where
  unfoldable pub get_identity : RequestContext → Headers → Exec E AppError HostIdentityResponse
  get_identity ctx headers = do
    plugin_id ← require_authenticated_plugin_id S headers
    require_permission E plugin_id PluginPermission.auth_read
    user ← lift (require_user ctx)
    pure (record { user_id = user.user_id; username = user.username; role_id = user.role_id })

  unfoldable pub get_user_by_id :
      RequestContext → Headers → String → Exec E AppError HostUserLookupResponse
  get_user_by_id ctx headers user_id = do
    lift (require_user ctx)
    plugin_id ← require_authenticated_plugin_id S headers
    require_permission E plugin_id PluginPermission.user_lookup
    parsed ← lift (
        map_err (λ e. app_error ErrorCode.bad_request ("invalid user id: " <> e))
          (S.parse_user_id user_id))
    found ← map_error (λ e. internal ("failed to query user: " <> e)) (os (S.get_user_by_id parsed))
    user ← or_raise found (app_error ErrorCode.not_found ("user '" <> user_id <> "' not found"))
    pure (record {
      user_id = user_id;
      username = user.username;
      role_id = user.role_id;
      status = user.status;
    })

  unfoldable pub check_permission :
      RequestContext
      → Headers
      → HostPermissionCheckRequest
      → Exec E AppError HostPermissionCheckResponse
  check_permission ctx headers payload = do
    user ← lift (require_user ctx)
    plugin_id ← require_authenticated_plugin_id S headers
    require_permission E plugin_id PluginPermission.user_permission_check
    allowed ←
        map_error (λ e. internal ("permission check failed: " <> e))
          (os (S.has_permission user.user_id user.role_id payload.permission_key))
    pure (record { allowed = allowed })

  -- `BTreeSet::insert`: the identifiers in order, each once.
  unfoldable pub insert_sorted : S.UserId → List S.UserId → List S.UserId
  insert_sorted u [] = u ∷ []
  insert_sorted u (v ∷ vs) =
      let rest = insert_sorted u vs in
      elim (S.user_compare u v) [
        | Ordering.lt ↦ u ∷ v ∷ vs
        | Ordering.eq ↦ v ∷ vs
        | Ordering.gt ↦ v ∷ rest
      ]

  abbrev insert_parsed : Result String S.UserId → List S.UserId → List S.UserId
  insert_parsed (ok u) us = insert_sorted u us
  insert_parsed (err e) us = us

  -- The texts that are identifiers of users, in order and without repetition.
  unfoldable pub recipients : List String → List S.UserId
  unfolding insert_sorted
  recipients [] = []
  recipients (value ∷ values) = insert_parsed (S.parse_user_id value) (recipients values)

  parsed_sender : Result String S.UserId → Option S.UserId
  parsed_sender (ok u) = some u
  parsed_sender (err e) = none

  sender : Option String → Option S.UserId
  unfolding parsed_sender
  sender none = none
  sender (some value) = parsed_sender (S.parse_user_id value)

  unfoldable pub send_notification :
      RequestContext
      → Headers
      → HostNotificationSendRequest
      → Exec E AppError HostNotificationSendResponse
  unfolding recipients sender
  send_notification ctx headers payload = do
    lift (require_plugin_or_user ctx)
    plugin_id ← require_authenticated_plugin_id S headers
    require_permission E plugin_id PluginPermission.web_api
    raise_if (is_empty (recipients payload.recipient_ids)) (
        app_error ErrorCode.bad_request
          "notification recipient_ids must contain at least one valid user id")
    notification_id ←
        map_error (λ e. internal ("failed to create notification: " <> e))
          (os (
            S.send_notification (record {
              title = payload.title;
              content = payload.content;
              msg_type = payload.msg_type;
              level = payload.level;
              sender_id = sender ctx.user_id;
              recipient_ids = recipients payload.recipient_ids;
              extra_data = payload.extra_data;
            })))
    pure (record { notification_id = notification_id })
