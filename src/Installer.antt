-- ===== src/Installer.antt =====
-- src/installer.rs: a package on its way to an installed plugin.
pub mod Manifest
pub mod SafePath
pub mod Register
pub mod Archive
pub mod Extract
pub mod Setup
pub mod Quiet
pub mod Materialize
use yh_extension_manager_v.Prelude.{String, Option}

abbrev pub pending : String
pending = "pending"

abbrev pub installed : String
installed = "installed"

abbrev pub running : String
running = "running"

abbrev pub plugin_manifest_file_name : String
plugin_manifest_file_name = "plugin.json"

pub record InstallPluginResult : Type 0 where
  pub plugin_id : String
  pub version : String
  pub package_dir : String
  pub checksum_sha256 : String
  pub prepared_runtime_kind : String

pub record InstallPluginOptions : Type 0 where
  pub source_kind : String
  pub market_origin : Option String
  pub actor_user_id : Option String
