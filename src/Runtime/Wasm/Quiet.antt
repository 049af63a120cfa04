-- ===== src/Runtime/Wasm/Quiet.antt =====
-- Starting and stopping a WebAssembly runner acts on the machine alone.
use yh_extension_manager_v.Prelude.{ℕ, String, Option}
use yh_extension_manager_v.Prelude.Outcome.{Result, ok, err}
use yh_extension_manager_v.Manifest.{WasmRuntimeManifest}
use yh_extension_manager_v.Entities.{RuntimeHandle}
use yh_extension_manager_v.World.{Env, Core, IoError}
use yh_extension_manager_v.World.Keeps.{Keeps, keeps_rules}
use yh_extension_manager_v.Runtime.{Launch}
use yh_extension_manager_v.Runtime.Wasm.{
  WasmRuntimeLaunchContext, dev_fallback, after_spawn, spawn_wasm_or_dev_fallback,
  start_wasm_module_runtime, start_wasm_component_runtime, stop_wasm_runtime,
}

module _ {E : Env} {P : Core → Type 0} where
  Keeps-dev_fallback : (c : WasmRuntimeLaunchContext) → Keeps P (dev_fallback E c)
  unfolding dev_fallback
  Keeps-dev_fallback c = search keeps_rules depth 30

  Keeps-after_spawn :
      (c : WasmRuntimeLaunchContext) (r : Result IoError (Option ℕ)) → Keeps P (after_spawn E c r)
  unfolding after_spawn
  Keeps-after_spawn c (ok child) = search keeps_rules depth 30
  Keeps-after_spawn c (err e) = search (keeps_rules, Keeps-dev_fallback) depth 30

  Keeps-spawn_wasm_or_dev_fallback :
      (c : WasmRuntimeLaunchContext) → Keeps P (spawn_wasm_or_dev_fallback E c)
  unfolding spawn_wasm_or_dev_fallback
  Keeps-spawn_wasm_or_dev_fallback c = search (keeps_rules, Keeps-after_spawn) depth 30

  pub Keeps-start_wasm_module_runtime :
      (q root : String) (r : WasmRuntimeManifest) (l : Launch)
      → Keeps P (start_wasm_module_runtime E q root r l)
  unfolding start_wasm_module_runtime
  Keeps-start_wasm_module_runtime q root r l =
      search (keeps_rules, Keeps-spawn_wasm_or_dev_fallback) depth 30

  pub Keeps-start_wasm_component_runtime :
      (q root : String) (r : WasmRuntimeManifest) (l : Launch)
      → Keeps P (start_wasm_component_runtime E q root r l)
  unfolding start_wasm_component_runtime
  Keeps-start_wasm_component_runtime q root r l =
      search (keeps_rules, Keeps-spawn_wasm_or_dev_fallback) depth 30

  pub Keeps-stop_wasm_runtime : (h : RuntimeHandle) → Keeps P (stop_wasm_runtime E h)
  unfolding stop_wasm_runtime
  Keeps-stop_wasm_runtime h = search keeps_rules depth 30
