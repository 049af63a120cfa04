-- ===== src/Handlers/Lifecycle/Quiet.antt =====
-- The parts of starting and stopping a plugin that change nothing that the program keeps.
use yh_extension_manager_v.Prelude.{String, ◌≡◌, refl}
use yh_extension_manager_v.Manifest.{PluginRuntimeManifest}
use yh_extension_manager_v.Entities.{RuntimeHandle}
use yh_extension_manager_v.World.{Env, Core, World}
use yh_extension_manager_v.World.Keeps.{Keeps, keeps_rules}
use yh_extension_manager_v.Registry.{get_registry_by_id, get_version_by_plugin_and_version}
use yh_extension_manager_v.Manager.{get_plugin_runtime_manager}
use yh_extension_manager_v.Manager.Quiet.{Keeps-ensure_plugin_config_paths}
use yh_extension_manager_v.Installer.Manifest.{read_manifest_from_package_dir}
use yh_extension_manager_v.Runtime.Process.Quiet.{
  Keeps-start_process_runtime, Keeps-stop_process_runtime,
}
use yh_extension_manager_v.Runtime.Wasm.Quiet.{
  Keeps-start_wasm_module_runtime, Keeps-start_wasm_component_runtime, Keeps-stop_wasm_runtime,
}
use yh_extension_manager_v.Runtime.Docker.Quiet.{
  Keeps-start_docker_runtime, Keeps-stop_docker_runtime,
}
use yh_extension_manager_v.Handlers.Lifecycle.{
  Startable, load_startable, start_runtime, stop_runtime, load_stoppable,
}

module _ {E : Env} {P : Core → Type 0} where
  pub Keeps-load_startable : (q : String) → Keeps P (load_startable E q)
  unfolding load_startable get_plugin_runtime_manager get_registry_by_id
      get_version_by_plugin_and_version read_manifest_from_package_dir
  Keeps-load_startable q = search (keeps_rules, Keeps-ensure_plugin_config_paths) depth 60

  pub Keeps-start_runtime :
      (q : String) (s : Startable) (r : PluginRuntimeManifest) → Keeps P (start_runtime E q s r)
  unfolding start_runtime
  Keeps-start_runtime q s (PluginRuntimeManifest.process r) = search Keeps-start_process_runtime
  Keeps-start_runtime q s (PluginRuntimeManifest.docker r) = search Keeps-start_docker_runtime
  Keeps-start_runtime q s (PluginRuntimeManifest.wasm_component r) =
      search Keeps-start_wasm_component_runtime
  Keeps-start_runtime q s (PluginRuntimeManifest.wasm_module r) =
      search Keeps-start_wasm_module_runtime

  pub Keeps-stop_runtime : (h : RuntimeHandle) (docker : String) → Keeps P (stop_runtime E h docker)
  unfolding stop_runtime
  Keeps-stop_runtime h docker =
      search
        (
          keeps_rules, Keeps-stop_process_runtime, Keeps-stop_docker_runtime,
          Keeps-stop_wasm_runtime,
        )
        depth 30

  pub Keeps-load_stoppable : (q : String) → Keeps P (load_stoppable E q)
  unfolding load_stoppable get_plugin_runtime_manager get_registry_by_id
  Keeps-load_stoppable q = search keeps_rules depth 60

module _ {E : Env} where
  pub core-load_startable : (q : String) (w : World E) → (load_startable E q w).1.core ≡ w.core
  core-load_startable q w = (Keeps-load_startable {P = λ c. c ≡ w.core} q).at w refl

  pub core-start_runtime :
      (q : String) (s : Startable) (r : PluginRuntimeManifest) (w : World E)
      → (start_runtime E q s r w).1.core ≡ w.core
  core-start_runtime q s r w = (Keeps-start_runtime {P = λ c. c ≡ w.core} q s r).at w refl

  pub core-stop_runtime :
      (h : RuntimeHandle) (docker : String) (w : World E)
      → (stop_runtime E h docker w).1.core ≡ w.core
  core-stop_runtime h docker w = (Keeps-stop_runtime {P = λ c. c ≡ w.core} h docker).at w refl

  pub core-load_stoppable : (q : String) (w : World E) → (load_stoppable E q w).1.core ≡ w.core
  core-load_stoppable q w = (Keeps-load_stoppable {P = λ c. c ≡ w.core} q).at w refl
