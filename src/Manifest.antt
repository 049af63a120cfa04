-- ===== src/Manifest.antt =====
-- src/manifest.rs: what a plugin package declares. A map with text keys is a list of pairs; the
-- JSON schema of the configuration is kept as its text.
pub mod Network
pub mod Validate
pub mod Validity
use yh_extension_manager_v.Prelude.{ℕ, String, Bool, Option, none, some, List}

pub data PluginPermission : Type 0 where
  auth_read user_lookup user_permission_check vfs_read vfs_write : PluginPermission
  kv_read kv_write kv_delete db_shared_read db_shared_write db_sqlite : PluginPermission
  web_api web_socket scheduler network process_execution docker_execution : PluginPermission

unfoldable pub as_key : PluginPermission → String
as_key auth_read = "auth-read"
as_key user_lookup = "user-lookup"
as_key user_permission_check = "user-permission-check"
as_key vfs_read = "vfs-read"
as_key vfs_write = "vfs-write"
as_key kv_read = "kv-read"
as_key kv_write = "kv-write"
as_key kv_delete = "kv-delete"
as_key db_shared_read = "db-shared-read"
as_key db_shared_write = "db-shared-write"
as_key db_sqlite = "db-sqlite"
as_key web_api = "web-api"
as_key web_socket = "web-socket"
as_key scheduler = "scheduler"
as_key network = "network"
as_key process_execution = "process-execution"
as_key docker_execution = "docker-execution"

pub data PluginRuntimeKind : Type 0 where
  wasm_component wasm_module process docker : PluginRuntimeKind

unfoldable pub as_kebab_str : PluginRuntimeKind → String
as_kebab_str wasm_component = "wasm-component"
as_kebab_str wasm_module = "wasm-module"
as_kebab_str process = "process"
as_kebab_str docker = "docker"

pub record PluginUiManifest : Type 0 where
  pub root : String
  pub mount_path : Option String
  pub sandboxed : Option Bool

pub record PluginMarketManifest : Type 0 where
  pub keywords : List String
  pub screenshots : List String
  pub homepage_url : Option String
  pub repository_url : Option String

pub data PluginNetworkMode : Type 0 where
  proxy direct both : PluginNetworkMode

pub record PluginNetworkManifest : Type 0 where
  pub mode : Option PluginNetworkMode
  pub port : Option ℕ
  pub base_url : Option String

abbrev pub StringMap : Type 0
StringMap = List (String × String)

pub record WasmRuntimeManifest : Type 0 where
  pub artifact : String
  pub entrypoint : Option String
  pub component : Option Bool
  pub args : Option (List String)
  pub env : Option StringMap
  pub base_url : Option String
  pub network : Option PluginNetworkManifest

pub record ProcessRuntimeManifest : Type 0 where
  pub program : String
  pub args : Option (List String)
  pub cwd : Option String
  pub env : Option StringMap
  pub stdin : Option String
  pub base_url : Option String
  pub network : Option PluginNetworkManifest

pub record DockerPortMapping : Type 0 where
  pub host : Option ℕ
  pub container : ℕ
  pub protocol : Option String

pub record DockerVolumeMapping : Type 0 where
  pub source : String
  pub target : String
  pub read_only : Option Bool

pub record DockerRuntimeManifest : Type 0 where
  pub image : Option String
  pub oci_archive : Option String
  pub compose_file : Option String
  pub command : Option (List String)
  pub args : Option (List String)
  pub env : Option StringMap
  pub ports : Option (List DockerPortMapping)
  pub volumes : Option (List DockerVolumeMapping)
  pub workdir : Option String
  pub base_url : Option String
  pub network : Option PluginNetworkManifest

pub data PluginRuntimeManifest : Type 0 where
  wasm_component : WasmRuntimeManifest → PluginRuntimeManifest
  wasm_module : WasmRuntimeManifest → PluginRuntimeManifest
  process : ProcessRuntimeManifest → PluginRuntimeManifest
  docker : DockerRuntimeManifest → PluginRuntimeManifest

pub data PluginSetupAction : Type 0 where
  download extract move copy symlink chmod mkdir remove run touch write_file : PluginSetupAction

pub data PluginSetupCondition : Type 0 where
  file_not_exists : String → PluginSetupCondition
  file_exists : String → PluginSetupCondition
  env_not_set : String → PluginSetupCondition

pub record PluginSetupStep : Type 0 where
  pub action : PluginSetupAction
  pub url : Option String
  pub source : Option String
  pub dest : Option String
  pub archive_format : Option String
  pub strip_components : Option ℕ
  pub mode : Option String
  pub args : Option (List String)
  pub content : Option String
  pub sha256 : Option String
  pub archive : Option String
  pub if_condition : Option PluginSetupCondition
  pub symlink_target : Option String

pub record PluginManifest : Type 0 where
  pub id : String
  pub name : String
  pub version : String
  pub summary : String
  pub description : String
  pub author : String
  pub runtime : PluginRuntimeManifest
  pub permissions : List PluginPermission
  pub tags : List String
  pub ui : Option PluginUiManifest
  pub market : Option PluginMarketManifest
  pub homepage_url : Option String
  pub repository_url : Option String
  pub checksum_sha256 : Option String
  pub install_commands : Option (List PluginSetupStep)
  pub upgrade_commands : Option (List PluginSetupStep)
  pub uninstall_commands : Option (List PluginSetupStep)
  pub config_schema : Option String

unfoldable pub runtime_kind : PluginManifest → PluginRuntimeKind
runtime_kind m = elim m.runtime [
  | wasm_component _ ↦ PluginRuntimeKind.wasm_component
  | wasm_module _ ↦ PluginRuntimeKind.wasm_module
  | process _ ↦ PluginRuntimeKind.process
  | docker _ ↦ PluginRuntimeKind.docker
]

unfoldable pub runtime_artifact : PluginManifest → Option String
runtime_artifact m = elim m.runtime [
  | wasm_component r ↦ some r.artifact
  | wasm_module r ↦ some r.artifact
  | process r ↦ some r.program
  | docker _ ↦ none
]
