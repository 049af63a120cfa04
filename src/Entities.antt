-- ===== src/Entities.antt =====
-- src/entities/: the rows of the eight tables, and src/runtime/mod.rs: the handle of a running
-- plugin. A time stamp is a number.
use yh_extension_manager_v.Prelude.{ℕ, String, Bool, Option, List}
use yh_extension_manager_v.Prelude.Int.{ℤ}

pub record PluginRegistry : Type 0 where
  pub id : String
  pub display_name : String
  pub runtime_kind : String
  pub source_kind : String
  pub current_version : Option String
  pub install_status : String
  pub enabled : Bool
  pub market_origin : Option String
  pub created_at : ℕ
  pub updated_at : ℕ

pub record PluginVersion : Type 0 where
  pub id : String
  pub plugin_id : String
  pub version : String
  pub package_path : String
  pub checksum_sha256 : Option String
  pub install_status : String
  pub installed_at : Option ℕ
  pub created_at : ℕ

pub record PluginPermissionGrant : Type 0 where
  pub id : String
  pub plugin_id : String
  pub permission_key : String
  pub granted : Bool
  pub created_at : ℕ
  pub updated_at : ℕ

pub record PluginAuditLog : Type 0 where
  pub id : String
  pub plugin_id : String
  pub action : String
  pub message : String
  pub actor_user_id : Option String
  pub created_at : ℕ

pub record PluginTask : Type 0 where
  pub id : String
  pub plugin_id : String
  pub task_key : String
  pub mode : String
  pub status : String
  pub cron : Option String
  pub last_error : Option String
  pub created_at : ℕ
  pub updated_at : ℕ

pub record PluginNavItem : Type 0 where
  pub id : String
  pub plugin_id : String
  pub item_key : String
  pub label : String
  pub route : String
  pub icon : String
  pub visibility : String
  pub group_key : Option String
  pub position : Option String
  pub required_permission : Option String
  pub sort_order : ℤ
  pub created_at : ℕ
  pub updated_at : ℕ

pub record PluginSharedRecord : Type 0 where
  pub id : String
  pub plugin_id : String
  pub collection : String
  pub record_key : String
  pub owner_user_id : Option String
  pub payload_json : String
  pub created_at : ℕ
  pub updated_at : ℕ

pub record PluginMigrationState : Type 0 where
  pub id : String
  pub plugin_id : String
  pub scope : String
  pub migration_key : String
  pub state_json : String
  pub created_at : ℕ
  pub updated_at : ℕ

pub record Db : Type 0 where
  pub registry : List PluginRegistry
  pub versions : List PluginVersion
  pub grants : List PluginPermissionGrant
  pub audit_logs : List PluginAuditLog
  pub tasks : List PluginTask
  pub nav_items : List PluginNavItem
  pub shared_records : List PluginSharedRecord
  pub migration_states : List PluginMigrationState

pub data RuntimeStatus : Type 0 where
  prepared running stopped failed : RuntimeStatus

pub record RuntimeHandle : Type 0 where
  pub plugin_id : String
  pub runtime_kind : String
  pub status : RuntimeStatus
  pub detail : String
  pub pid : Option ℕ
  pub instance_ref : Option String
  pub route_base_url : Option String
