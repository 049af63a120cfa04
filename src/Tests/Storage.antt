-- ===== src/Tests/Storage.antt =====
-- The theorems on stored rows and on the installation at the same machine.

use yh_extension_manager_v.Prelude.{
  ℕ, String, ◌<>◌, ◌≡◌, refl, Bool, true, false, Option, none, some, List, [], ◌∷◌, ◌==◌, arith,
}
use yh_extension_manager_v.Prelude.Outcome.{ok, err}
use yh_extension_manager_v.Manifest.{PluginSetupAction, PluginSetupStep}
use yh_extension_manager_v.World.{Env, World, Core, HttpResponse}
use yh_extension_manager_v.HostApi.{RequestContext, Headers}
use yh_extension_manager_v.HostApi.Shared.{
  HostSharedRecordUpsertRequest, HostSharedRecordQuery, HostSharedRecordResponse, get_shared_record,
}
use yh_extension_manager_v.HostApi.Shared.Map.{payload_at}
use yh_extension_manager_v.HostApi.Shared.Identified.{id_of}
use yh_extension_manager_v.HostApi.Shared.Refine.{
  SharedRequest, run_shared, replay, run_shared-replay, get_shared_record-replay,
}
use yh_extension_manager_v.HostApi.Shared.Unique.{HasUniqueRecords, run_shared-HasUniqueRecords}
use yh_extension_manager_v.HostApi.Untouched.{Untouched}
use yh_extension_manager_v.HostApi.Frame.Requests.{HostRequest, run_host, run_host-Untouched}
use yh_extension_manager_v.HostApi.Migrations.Execute.{
  HostMigrationExecuteRequest, HostMigrationExecuteResponse, execute_migration,
}
use yh_extension_manager_v.HostApi.Migrations.Execute.Executed.{Executed, execute_all-Executed}
use yh_extension_manager_v.HostApi.Migrations.Execute.Applied.{
  IsApplied, migration_of, execute_migration-IsApplied,
}
use yh_extension_manager_v.Installer.{InstallPluginResult}
use yh_extension_manager_v.Installer.Setup.{Target}
use yh_extension_manager_v.Installer.Setup.Step.{compute_sha256, download_step}
use yh_extension_manager_v.Installer.Setup.Checksum.{download_step-mismatch}
use yh_extension_manager_v.Installer.Materialize.{set_up, materialize_plugin_from_zip}
use yh_extension_manager_v.Installer.Materialize.Installed.{
  IsInstalledAt, materialize_plugin_from_zip-IsInstalledAt,
}
use yh_extension_manager_v.Installer.Materialize.Upgrade.{IsCurrent, set_up-no_upgrade}
use yh_extension_manager_v.Tests.{machine, installed_world, manifest}
use yh_extension_manager_v.Tests.HostApi.{services, store_machine, host_world, ctx, chat_headers}

abbrev upsert : HostSharedRecordUpsertRequest
upsert = record { plugin_id = "chat"; collection = "notes"; record_key = "1"; payload_json = "{}" }

abbrev same_record : HostSharedRecordQuery
same_record = record { plugin_id = "chat"; collection = "notes"; record_key = "1" }

abbrev requests : List (RequestContext × SharedRequest)
requests = (ctx, SharedRequest.upsert upsert) ∷ (ctx, SharedRequest.get same_record) ∷ []

run_shared-replay_example :
    payload_at (run_shared requests host_world).1.core
    ≡ replay requests (run_shared requests host_world).0 (payload_at host_world.core)
run_shared-replay_example = run_shared-replay requests host_world

all_succeed : (run_shared requests host_world).0 ≡ true ∷ true ∷ []
unfolding run_shared yh_extension_manager_v.HostApi.Shared.upsert_shared_record get_shared_record
    yh_extension_manager_v.World.◌>>=◌ yh_extension_manager_v.HostApi.Auth.require_user
    yh_extension_manager_v.HostApi.Auth.validate_host_plugin_identifier
    yh_extension_manager_v.Text.trim yh_extension_manager_v.Text.is_whitespace
    yh_extension_manager_v.Text.is_ascii_alphanumeric
    yh_extension_manager_v.HostApi.Auth.require_permission
    yh_extension_manager_v.Permissions.require_plugin_permission
    yh_extension_manager_v.Prelude.Rows.select_one
all_succeed = refl

abbrev found : HostSharedRecordResponse
found = record {
  plugin_id = "chat";
  collection = "notes";
  record_key = "1";
  owner_user_id = some "alice";
  payload_json = "{}";
}

record_found :
    (get_shared_record store_machine ctx same_record (run_shared requests host_world).1).0
    ≡ ok found
unfolding get_shared_record yh_extension_manager_v.World.◌>>=◌
    yh_extension_manager_v.HostApi.Auth.require_user
    yh_extension_manager_v.HostApi.Auth.validate_host_plugin_identifier
    yh_extension_manager_v.Text.trim yh_extension_manager_v.Text.is_whitespace
    yh_extension_manager_v.Text.is_ascii_alphanumeric
    yh_extension_manager_v.HostApi.Auth.require_permission
    yh_extension_manager_v.Permissions.require_plugin_permission
    yh_extension_manager_v.Prelude.Rows.select_one run_shared
    yh_extension_manager_v.HostApi.Shared.upsert_shared_record
record_found = refl

get_shared_record-replay_example :
    replay requests
      (run_shared requests host_world).0
      (payload_at host_world.core)
      (id_of ctx "chat" "notes" "1")
    ≡ some "{}"
get_shared_record-replay_example =
    get_shared_record-replay requests host_world ctx same_record found record_found

run_shared-HasUniqueRecords_example : HasUniqueRecords (run_shared requests host_world).1.core
unfolding yh_extension_manager_v.Prelude.Rows.count
run_shared-HasUniqueRecords_example =
    run_shared-HasUniqueRecords requests host_world (λ j. omega arith)

abbrev host_requests : List (RequestContext × (Headers × HostRequest))
host_requests = (ctx, (chat_headers, HostRequest.on_upsert_shared_record upsert)) ∷ []

chat_is_not_mail : ("chat" == "mail") ≡ false
chat_is_not_mail = refl

run_host-Untouched_example :
    Untouched "mail" host_world.core (run_host services host_requests host_world).core
unfolding yh_extension_manager_v.HostApi.Auth.sanitize_sqlite_component
    yh_extension_manager_v.Text.is_ascii_alphanumeric
run_host-Untouched_example =
    run_host-Untouched services "mail" host_requests host_world (chat_is_not_mail, tt)

execute_all-Executed_example : Executed services ("a;" ∷ "b;" ∷ []) host_world
execute_all-Executed_example = execute_all-Executed services ("a;" ∷ "b;" ∷ []) host_world

abbrev migration : HostMigrationExecuteRequest
migration = record { plugin_id = "chat"; scope = "main"; migration_key = "001"; description = none }

abbrev applied : HostMigrationExecuteResponse
applied = record {
  plugin_id = "chat";
  scope = "main";
  migration_key = "001";
  status = "applied";
  state_json = "{}";
  executed_statements = 1;
}

migration_runs : (execute_migration services ctx migration host_world).0 ≡ ok applied
unfolding execute_migration yh_extension_manager_v.World.◌>>=◌
    yh_extension_manager_v.HostApi.Auth.require_plugin_or_user
    yh_extension_manager_v.HostApi.Auth.validate_host_plugin_identifier
    yh_extension_manager_v.Text.trim yh_extension_manager_v.Text.is_whitespace
    yh_extension_manager_v.Text.is_ascii_alphanumeric
    yh_extension_manager_v.HostApi.Auth.require_permission
    yh_extension_manager_v.Permissions.require_plugin_permission
    yh_extension_manager_v.Prelude.Rows.select_one
    yh_extension_manager_v.Registry.get_registry_by_id
    yh_extension_manager_v.Registry.get_version_by_plugin_and_version
migration_runs = refl

execute_migration-IsApplied_example :
    IsApplied services
      (migration_of migration)
      host_world.core
      applied
      (execute_migration services ctx migration host_world).1.core
execute_migration-IsApplied_example =
    execute_migration-IsApplied services ctx migration host_world applied migration_runs

abbrev linux : Target
linux = record { os = "linux"; arch = "x86_64" }

abbrev materialized : InstallPluginResult
materialized = record {
  plugin_id = "chat";
  version = "1.0";
  package_dir = "/data/packages/chat/1.0";
  checksum_sha256 = "";
  prepared_runtime_kind = "process";
}

materialize_works :
    (materialize_plugin_from_zip
      (machine true)
      linux
      "/data/packages"
      "chat"
      "1.0"
      []
      none
      (installed_world true)).0
    ≡ ok materialized
unfolding materialize_plugin_from_zip yh_extension_manager_v.World.◌>>=◌
    yh_extension_manager_v.Installer.Manifest.read_manifest_from_package_dir
    yh_extension_manager_v.Manifest.Validate.validate yh_extension_manager_v.Text.trim
    yh_extension_manager_v.Text.is_whitespace
    yh_extension_manager_v.Installer.Setup.execute_commands_with_overrides
    yh_extension_manager_v.Runtime.Process.prepare_process_runtime
    yh_extension_manager_v.Prelude.Rows.select_one yh_extension_manager_v.FilePath.join
materialize_works = refl

materialize_plugin_from_zip-IsInstalledAt_example :
    IsInstalledAt "chat" "1.0"
      (materialize_plugin_from_zip
        (machine true)
        linux
        "/data/packages"
        "chat"
        "1.0"
        []
        none
        (installed_world true)).1.core
materialize_plugin_from_zip-IsInstalledAt_example =
    materialize_plugin_from_zip-IsInstalledAt linux "/data/packages" "chat" "1.0" [] none
      (installed_world true) materialized materialize_works

abbrev run_step : PluginSetupStep
run_step = record {
  action = PluginSetupAction.run;
  url = none;
  source = some "upgrade.sh";
  dest = none;
  archive_format = none;
  strip_components = none;
  mode = none;
  args = none;
  content = none;
  sha256 = none;
  archive = none;
  if_condition = none;
  symlink_target = none;
}

is_current : IsCurrent "chat" "1.0" (installed_world true).core
unfolding yh_extension_manager_v.Prelude.Rows.select_one
is_current = refl

set_up-no_upgrade_example :
    set_up
      (machine true)
      linux
      []
      "/data/packages"
      "chat"
      "1.0"
      (record manifest { upgrade_commands = some (run_step ∷ []) })
      (installed_world true)
    ≡ set_up (machine true) linux [] "/data/packages" "chat" "1.0" manifest (installed_world true)
set_up-no_upgrade_example =
    set_up-no_upgrade linux [] "/data/packages" "chat" "1.0" manifest (some (run_step ∷ []))
      (installed_world true) is_current

abbrev response : HttpResponse
response = record { success = true; status = "200 OK"; body = ok [] }

-- a machine whose requests are answered
abbrev online : Env
online = record (machine true) { http_get = λ u s. (ok response, s) }

abbrev online_world : World online
online_world = record { core = (installed_world true).core; env = 5 }

abbrev download : PluginSetupStep
download = record run_step {
  action = PluginSetupAction.download;
  url = some "https://example.org/a";
  sha256 = some "11";
}

wrong : (compute_sha256 online [] == "11") ≡ false
unfolding compute_sha256
wrong = refl

download_step-mismatch_example :
    download_step online download "/data" (some "/data/a") online_world ≡ (
      err ("SHA-256 mismatch: expected 11 but computed " <> compute_sha256 online []),
      online_world,
    )
unfolding compute_sha256
download_step-mismatch_example =
    download_step-mismatch download "/data" "https://example.org/a" "/data/a" "11" response []
      online_world refl refl refl refl refl wrong
