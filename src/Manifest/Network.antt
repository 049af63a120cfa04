-- ===== src/Manifest/Network.antt =====
-- src/manifest.rs: where the host reaches a plugin's own server.
use yh_extension_manager_v.Prelude.{
  String, ◌≡◌, Option, none, some, arith, is_none, unwrap_or, or_else, if◌then◌else◌,
}
use yh_extension_manager_v.Manifest.{
  PluginNetworkMode, PluginNetworkManifest, WasmRuntimeManifest, ProcessRuntimeManifest,
  DockerRuntimeManifest, PluginRuntimeManifest,
}

-- `PluginNetworkManifest::mode`
unfoldable pub network_mode : PluginNetworkManifest → PluginNetworkMode
network_mode n = unwrap_or n.mode PluginNetworkMode.proxy

-- `network.as_ref().and_then(|n| n.base_url.clone()).or_else(|| self.base_url.clone())`
abbrev effective : Option PluginNetworkManifest → Option String → Option String
effective none direct = direct
effective (some n) direct = or_else n.base_url direct

-- `effective_base_url` of the three kinds of runtime manifest
unfoldable pub wasm_effective_base_url : WasmRuntimeManifest → Option String
wasm_effective_base_url r = effective r.network r.base_url

unfoldable pub process_effective_base_url : ProcessRuntimeManifest → Option String
process_effective_base_url r = effective r.network r.base_url

unfoldable pub docker_effective_base_url : DockerRuntimeManifest → Option String
docker_effective_base_url r = effective r.network r.base_url

abbrev direct_base_url : PluginRuntimeManifest → Option String
direct_base_url (PluginRuntimeManifest.wasm_component r) = r.base_url
direct_base_url (PluginRuntimeManifest.wasm_module r) = r.base_url
direct_base_url (PluginRuntimeManifest.process r) = r.base_url
direct_base_url (PluginRuntimeManifest.docker r) = r.base_url

abbrev declared_network : PluginRuntimeManifest → Option PluginNetworkManifest
declared_network (PluginRuntimeManifest.wasm_component r) = r.network
declared_network (PluginRuntimeManifest.wasm_module r) = r.network
declared_network (PluginRuntimeManifest.process r) = r.network
declared_network (PluginRuntimeManifest.docker r) = r.network

-- `PluginRuntimeManifest::network`: the declared network, its base URL filled in.
unfoldable pub network : PluginRuntimeManifest → PluginNetworkManifest
network m =
    let resolved : PluginNetworkManifest =
      unwrap_or (declared_network m) (record { mode = none; port = none; base_url = none }) in
    if is_none resolved.base_url then record resolved { base_url = direct_base_url m } else resolved

-- `PluginRuntimeManifest::base_url`
unfoldable pub base_url : PluginRuntimeManifest → Option String
unfolding network
base_url m = (network m).base_url

-- The base URL by kind of runtime, as the runtimes compute it.
abbrev pub effective_base_url : PluginRuntimeManifest → Option String
effective_base_url (PluginRuntimeManifest.wasm_component r) = wasm_effective_base_url r
effective_base_url (PluginRuntimeManifest.wasm_module r) = wasm_effective_base_url r
effective_base_url (PluginRuntimeManifest.process r) = process_effective_base_url r
effective_base_url (PluginRuntimeManifest.docker r) = docker_effective_base_url r

-- For every runtime manifest, the base URL that the manifest resolves through its network section
-- is the one that the runtime of that kind computes for itself.
pub base_url-eq-effective_base_url : (m : PluginRuntimeManifest) → base_url m ≡ effective_base_url m
unfolding base_url wasm_effective_base_url process_effective_base_url docker_effective_base_url
base_url-eq-effective_base_url (PluginRuntimeManifest.wasm_component r) = ground arith
base_url-eq-effective_base_url (PluginRuntimeManifest.wasm_module r) = ground arith
base_url-eq-effective_base_url (PluginRuntimeManifest.process r) = ground arith
base_url-eq-effective_base_url (PluginRuntimeManifest.docker r) = ground arith
