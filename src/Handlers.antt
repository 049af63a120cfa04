-- ===== src/Handlers.antt =====
-- src/handlers.rs: the administrator's requests that move a plugin through its life. A request is
-- the user who makes it, if one is known; the identifiers that a response echoes are left out.
pub mod Lifecycle
pub mod Uninstall
pub mod Frame
use yh_extension_manager_v.Prelude.{String, ◌<>◌, Option}
use yh_extension_manager_v.World.{Env, Exec}

pub data ErrorCode : Type 0 where
  bad_request unauthorized forbidden not_found internal_error config_read_failed : ErrorCode

pub record AppError : Type 0 where
  pub code : ErrorCode
  pub message : String

abbrev pub app_error : ErrorCode → String → AppError
app_error code message = record { code = code; message = message }

-- `AppError::internal`
abbrev pub internal : String → AppError
internal message = app_error ErrorCode.internal_error message

-- `map_db_error`: the cause is logged, and the client sees the message alone.
abbrev pub map_db_error : String → String → AppError
map_db_error message error = app_error ErrorCode.internal_error message

pub record RequestContext : Type 0 where
  pub user_id : Option String
