-- ===== src/HostApi.antt =====
-- src/host_api.rs: the HTTP interface that the host offers to its plugins. A response is the value
-- that the handler turns into JSON; the request and client identifiers that it echoes, and the
-- warnings on stderr, are left out. The hub for key-value storage, the virtual file system, the
-- user centre, the notification service and the libraries for HMAC and base64 are the parameter
-- `Services`, which the handlers take.
pub mod Auth
pub mod Kv
pub mod Users
pub mod Vfs
pub mod Paths
pub mod Shared
pub mod Migrations
pub mod Tasks
pub mod Nav
pub mod Quiet
pub mod Untouched
pub mod Frame
use Prim.Native.Nat.{Ordering}
use yh_extension_manager_v.Prelude.{ℕ, String, Option, Bool, List}
use yh_extension_manager_v.Prelude.Dict.{Dict}
use yh_extension_manager_v.Prelude.Int.{ℤ}
use yh_extension_manager_v.Prelude.Outcome.{Result}
use yh_extension_manager_v.Entities.{Db}
use yh_extension_manager_v.World.{Env, Bytes}
use yh_extension_manager_v.Handlers.{AppError, ErrorCode, app_error}

-- A user that the user centre knows, as far as the handlers read it.
pub record User : Type 0 where
  pub username : String
  pub role_id : ℤ
  pub status : String

-- What a notification is made of; its type of JSON data is a text here.
pub record NotifyPayload (UserId : Type 0) : Type 0 where
  pub title : String
  pub content : String
  pub msg_type : String
  pub level : String
  pub sender_id : Option UserId
  pub recipient_ids : List UserId
  pub extra_data : Option String

pub record Services (E : Env) : Type 1 where
  pub hmac_sha256_hex : String → String → String
  pub base64_decode : String → Result String Bytes
  -- yh_fast_kv_storage_hub
  pub kv_set : String → Bytes → Option ℕ → E.State → Result String Unit × E.State
  pub kv_get : String → E.State → Result String (Option Bytes) × E.State
  pub kv_del : String → E.State → Result String Bool × E.State
  -- yh_filemanager_vfs_storage_hub
  pub Storage : Type 0
  pub hub_ready : E.State → Bool
  pub create_user_storage : String → String → E.State → Result String Storage × E.State
  pub vfs_read : Storage → String → E.State → Result String Bytes × E.State
  pub vfs_write : Storage → String → Bytes → E.State → Result String Unit × E.State
  -- yh_user_center
  pub UserId : Type 0
  pub user_compare : UserId → UserId → Ordering
  pub parse_user_id : String → Result String UserId
  pub get_user_by_id : UserId → E.State → Result String (Option User) × E.State
  pub has_permission : String → ℤ → String → E.State → Result String Bool × E.State
  -- yh_internal_notify
  pub send_notification : NotifyPayload UserId → E.State → Result String String × E.State
  -- A statement of SQL in a text: what it does to the tables.
  pub execute : String → Db → Db
  -- serde_json: the state of a migration that was applied, from its description, the time and the
  -- number of statements
  pub applied_json : Option String → ℕ → ℕ → String

-- `UserInfo`, whose session and status the host API leaves empty, and `RequestContext`.
pub record UserInfo : Type 0 where
  pub user_id : String
  pub username : Option String
  pub role_id : ℤ

pub record RequestContext : Type 0 where
  pub client_id : Option String
  pub token : Option String
  pub user_id : Option String
  pub user_info : Option UserInfo

-- The headers by name: a value, or nothing if it is not visible ASCII, where `to_str` fails.
abbrev pub Headers : Type 0
Headers = Dict (Option String)

-- `permission_denied`
unfoldable pub permission_denied : String → AppError
permission_denied message = app_error ErrorCode.forbidden message
