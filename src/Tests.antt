-- ===== src/Tests.antt =====
-- A machine and a registered plugin on which the theorems are tried out.
pub mod Lifecycle
pub mod Package
pub mod HostApi
pub mod Kv
pub mod Storage
pub mod Public
use yh_extension_manager_v.Prelude.{
  ℕ, suc, String, refl, Bool, true, false, Option, none, some, List, [], ◌∷◌, if◌then◌else◌,
}
use yh_extension_manager_v.Prelude.Outcome.{Result, ok, err}
use yh_extension_manager_v.Manifest.{
  PluginManifest, PluginRuntimeManifest, ProcessRuntimeManifest, PluginPermission,
}
use yh_extension_manager_v.Entities.{
  Db, PluginRegistry, PluginVersion, PluginPermissionGrant, RuntimeHandle, RuntimeStatus,
}
use yh_extension_manager_v.World.{
  Env, World, Core, IoError, ExitStatus, HttpResponse, PluginRuntimeManager,
  PluginRuntimeStatusSnapshot,
}
use yh_extension_manager_v.World.Reliable.{Reliable}
use yh_extension_manager_v.Manager.{layout_from_root}
use yh_extension_manager_v.Handlers.{RequestContext}

abbrev pub process : ProcessRuntimeManifest
process = record {
  program = "runtime/server";
  args = none;
  cwd = none;
  env = none;
  stdin = none;
  base_url = none;
  network = none;
}

abbrev pub manifest : PluginManifest
manifest = record {
  id = "chat";
  name = "Chat";
  version = "1.0";
  summary = "A chat";
  description = "A chat room";
  author = "someone";
  runtime = PluginRuntimeManifest.process process;
  permissions = PluginPermission.kv_read ∷ [];
  tags = [];
  ui = none;
  market = none;
  homepage_url = none;
  repository_url = none;
  checksum_sha256 = none;
  install_commands = none;
  upgrade_commands = none;
  uninstall_commands = none;
  config_schema = none;
}

-- A machine on which all goes well, but that processes start and live only if `works` holds. Its
-- state has a clock.
abbrev pub machine_on : (A : Type 0) → (A → ℕ) → (A → A) → Bool → Env
machine_on A clock tick works = record {
  State = A;
  db_fault = λ s. (none, s);
  now = λ s. (clock s, tick s);
  uuid_v7 = λ s. ("id", tick s);
  exists = λ p s. true;
  try_exists = λ p s. (ok false, s);
  create_dir_all = λ p s. (ok tt, s);
  remove_dir_all = λ p s. (ok tt, s);
  read_to_string = λ p s. (ok "manifest", s);
  write = λ p b s. (ok tt, s);
  write_text = λ p t s. (ok tt, s);
  dup_file = λ p s. (ok tt, s);
  create_file = λ p s. (ok tt, s);
  set_permissions = λ p m s. (ok tt, s);
  mode_of = λ p s. (ok 0o644, s);
  is_dir = λ p s. false;
  remove_file = λ p s. (ok tt, s);
  rename = λ p q s. (ok tt, s);
  copy = λ p q s. (ok tt, s);
  symlink = λ p q s. (ok tt, s);
  env_var = λ n s. none;
  spawn = λ c s. (
    if works then ok (some 7) else err (record { is_not_found = true; text = "no such file" }),
    s,
  );
  status = λ c s. (ok (record { success = works; text = "exit status"; stderr = "" }), s);
  http_get = λ u s. (err "offline", s);
  http_get_ok = λ u s. (true, s);
  killpg = λ p g s. (some (record { is_not_found = true; text = "no such process" }), s);
  pid_alive = λ p s. works;
  deadline_passed = λ s. false;
  sleep = λ s. (tt, tick s);
  system_temp_dir = λ s. none;
  manifest_of_json = λ t. ok manifest;
  zip_entries = λ b. ok [];
  zip_text = λ b n. ok "manifest";
  zip_file = λ p s. (ok [], s);
  tar_file = λ p s. (ok [], s);
  tar_unpack = λ e p s. (ok tt, s);
  gunzip_to = λ p q s. (ok tt, s);
  sha256_hex = λ b. "00";
}

-- The machine whose state is its clock.
abbrev pub machine : Bool → Env
machine works = machine_on ℕ (λ s. s) suc works

pub machine-Reliable : (works : Bool) → Reliable (machine works)
machine-Reliable works = record { answers = λ s. refl }

abbrev pub row : Bool → String → PluginRegistry
row enabled status = record {
  id = "chat";
  display_name = "Chat";
  runtime_kind = "process";
  source_kind = "zip";
  current_version = some "1.0";
  install_status = status;
  enabled = enabled;
  market_origin = none;
  created_at = 1;
  updated_at = 1;
}

abbrev pub version : PluginVersion
version = record {
  id = "v";
  plugin_id = "chat";
  version = "1.0";
  package_path = "/data/packages/chat/1.0";
  checksum_sha256 = none;
  install_status = "installed";
  installed_at = some 1;
  created_at = 1;
}

abbrev pub grant : PluginPermissionGrant
grant = record {
  id = "g";
  plugin_id = "chat";
  permission_key = "kv-read";
  granted = true;
  created_at = 1;
  updated_at = 1;
}

abbrev pub handle : RuntimeHandle
handle = record {
  plugin_id = "chat";
  runtime_kind = "process";
  status = RuntimeStatus.running;
  detail = "/data/packages/chat/1.0/runtime/server";
  pid = some 7;
  instance_ref = none;
  route_base_url = none;
}

abbrev pub snapshot : PluginRuntimeStatusSnapshot
snapshot = record {
  initialized = true;
  enabled = true;
  temp_dir = "/tmp";
  market_request_timeout_sec = 10;
  allow_sideload = true;
  enable_wasm_runtime = true;
  enable_process_runtime = true;
  enable_docker_runtime = true;
  docker_engine_command = "docker";
  host_api_base_url = "http://127.0.0.1:1";
  layout = layout_from_root "/data";
}

abbrev pub manager : List (String × RuntimeHandle) → PluginRuntimeManager
manager handles = record {
  snapshot = snapshot;
  host_api_secret = "secret";
  active_runtimes = handles;
}

abbrev pub core : Bool → String → List (String × RuntimeHandle) → Core
core enabled status handles = record {
  db = record {
    registry = row enabled status ∷ [];
    versions = version ∷ [];
    grants = grant ∷ [];
    audit_logs = [];
    tasks = [];
    nav_items = [];
    shared_records = [];
    migration_states = [];
  };
  manager = some (manager handles);
}

-- The plugin that is installed, and the one that is running, each at the time 5.
abbrev pub installed_world : (works : Bool) → World (machine works)
installed_world works = record { core = core false "installed" []; env = 5 }

abbrev pub running_world : (works : Bool) → World (machine works)
running_world works = record { core = core true "running" (("chat", handle) ∷ []); env = 5 }

abbrev pub admin : RequestContext
admin = record { user_id = some "root" }
