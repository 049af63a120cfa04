-- ===== src/Runtime/Wasm.antt =====
-- src/runtime/wasm.rs.
pub mod Quiet
use yh_extension_manager_v.Prelude.{
  ℕ, String, ◌<>◌, Bool, true, false, not, Option, none, some, List, [], ◌∷◌, ◌++◌, unwrap_or,
  or_else, if◌then◌else◌,
}
use yh_extension_manager_v.Prelude.Outcome.{Result, ok, err}
use yh_extension_manager_v.Text.Decimal.{show}
use yh_extension_manager_v.FilePath.{join, file_stem}
use yh_extension_manager_v.Manifest.{WasmRuntimeManifest}
use yh_extension_manager_v.Manifest.Network.{wasm_effective_base_url}
use yh_extension_manager_v.Entities.{RuntimeHandle, RuntimeStatus}
use yh_extension_manager_v.World.{
  Env, Exec, Command, IoError, pure, raise, raise_if, or_raise, os, observe, attempt, map_error,
  ◌>>=◌, ◌>>◌,
}
use yh_extension_manager_v.Runtime.{Launch, host_env, or_nil}

-- `WasmRuntimeLaunchContext`
pub record WasmRuntimeLaunchContext : Type 0 where
  pub runner : String
  pub install_root : String
  pub artifact : String
  pub runtime : WasmRuntimeManifest
  pub plugin_id : String
  pub launch : Launch
  pub is_component : Bool

-- What a spawned runtime is known by: its process, its runner, and what it runs.
pub record Spawned : Type 0 where
  pub pid : ℕ
  pub instance_ref : String
  pub detail : String

runner_command : WasmRuntimeLaunchContext → Command
runner_command c = record {
  program = c.runner;
  args = (if c.is_component then "run" ∷ [] else []) ++ (c.artifact ∷ or_nil c.runtime.args);
  env = or_nil c.runtime.env ++ host_env c.plugin_id c.launch;
  cwd = none;
  log_file = none;
  own_group = false;
}

fallback_command : WasmRuntimeLaunchContext → String → Command
fallback_command c dev_server = record {
  program = dev_server;
  args = [];
  env = or_nil c.runtime.env ++ host_env c.plugin_id c.launch;
  cwd = none;
  log_file = none;
  own_group = false;
}

kill_command : ℕ → Command
kill_command pid = record {
  program = "kill";
  args = show pid ∷ [];
  env = [];
  cwd = none;
  log_file = none;
  own_group = false;
}

module _ (E : Env) where
  unfoldable pub prepare_wasm_runtime :
      String → String → WasmRuntimeManifest → String → Exec E String RuntimeHandle
  prepare_wasm_runtime plugin_id install_root runtime runtime_kind = do
    let artifact = join install_root runtime.artifact
    found ← observe (E.exists artifact)
    raise_if (not found) ("wasm runtime artifact not found: " <> artifact)
    pure (record {
      plugin_id = plugin_id;
      runtime_kind = runtime_kind;
      status = RuntimeStatus.prepared;
      detail = artifact;
      pid = none;
      instance_ref = none;
      route_base_url = none;
    })

  dev_fallback : WasmRuntimeLaunchContext → Exec E String Spawned
  unfolding fallback_command
  dev_fallback c = do
    stem ← or_raise (file_stem c.artifact) "failed to derive wasm artifact stem"
    let dev_server = join (join c.install_root "runtime") (stem <> "-dev-server")
    found ← observe (E.exists dev_server)
    raise_if (not found) (
        "failed to spawn wasm runner '" <> c.runner
        <> "' and no development fallback binary was found at " <> dev_server)
    child ←
        map_error
          (λ (e : IoError).
            "failed to spawn development fallback '" <> dev_server <> "': " <> e.text)
          (os (E.spawn (fallback_command c dev_server)))
    pid ← or_raise child ("development fallback '" <> dev_server <> "' did not provide pid")
    pure (record { pid = pid; instance_ref = c.runner <> " (dev-fallback)"; detail = dev_server })

  after_spawn : WasmRuntimeLaunchContext → Result IoError (Option ℕ) → Exec E String Spawned
  unfolding dev_fallback
  after_spawn c (ok child) = do
    pid ← or_raise child ("runner '" <> c.runner <> "' did not provide pid")
    pure (record { pid = pid; instance_ref = c.runner; detail = c.artifact })
  after_spawn c (err error) = do
    raise_if (not error.is_not_found)
        ("failed to spawn wasm runner '" <> c.runner <> "': " <> error.text)
    dev_fallback c

  unfoldable pub spawn_wasm_or_dev_fallback : WasmRuntimeLaunchContext → Exec E String Spawned
  unfolding runner_command after_spawn
  spawn_wasm_or_dev_fallback c = do
    result ← attempt (os (E.spawn (runner_command c)))
    after_spawn c result

  running : String → String → Option String → Spawned → RuntimeHandle
  running plugin_id runtime_kind route_base_url s = record {
    plugin_id = plugin_id;
    runtime_kind = runtime_kind;
    status = RuntimeStatus.running;
    detail = s.detail;
    pid = some s.pid;
    instance_ref = some s.instance_ref;
    route_base_url = route_base_url;
  }

  unfoldable pub start_wasm_module_runtime :
      String → String → WasmRuntimeManifest → Launch → Exec E String RuntimeHandle
  unfolding spawn_wasm_or_dev_fallback running wasm_effective_base_url
  start_wasm_module_runtime plugin_id install_root runtime launch = do
    let artifact = join install_root runtime.artifact
    found ← observe (E.exists artifact)
    raise_if (not found) ("wasm module artifact not found: " <> artifact)
    runner ← observe (λ s. unwrap_or (E.env_var "FILEUNI_WASM_RUNNER" s) "wasmtime")
    spawned ← spawn_wasm_or_dev_fallback (record {
      runner = runner;
      install_root = install_root;
      artifact = artifact;
      runtime = runtime;
      plugin_id = plugin_id;
      launch = launch;
      is_component = false;
    })
    pure (running plugin_id "wasm-module" (wasm_effective_base_url runtime) spawned)

  unfoldable pub start_wasm_component_runtime :
      String → String → WasmRuntimeManifest → Launch → Exec E String RuntimeHandle
  unfolding spawn_wasm_or_dev_fallback running wasm_effective_base_url
  start_wasm_component_runtime plugin_id install_root runtime launch = do
    let artifact = join install_root runtime.artifact
    found ← observe (E.exists artifact)
    raise_if (not found) ("wasm component artifact not found: " <> artifact)
    runner ← observe (λ s.
        unwrap_or
          (or_else (E.env_var "FILEUNI_WASM_COMPONENT_RUNNER" s)
            (E.env_var "FILEUNI_WASM_RUNNER" s))
          "wasmtime")
    spawned ← spawn_wasm_or_dev_fallback (record {
      runner = runner;
      install_root = install_root;
      artifact = artifact;
      runtime = runtime;
      plugin_id = plugin_id;
      launch = launch;
      is_component = true;
    })
    pure (running plugin_id "wasm-component" (wasm_effective_base_url runtime) spawned)

  unfoldable pub stop_wasm_runtime : RuntimeHandle → Exec E String Unit
  unfolding kill_command
  stop_wasm_runtime handle = do
    pid ← or_raise handle.pid "wasm runtime has no pid to stop"
    status ←
        map_error (λ e. "failed to stop wasm runtime pid " <> show pid <> ": " <> e)
          (os (E.status (kill_command pid)))
    raise_if (not status.success) ("kill exited with status " <> status.text)
