-- ===== src/Runtime/Docker.antt =====
-- src/runtime/docker.rs.
pub mod Quiet
use Prim.Native.Char.{code}
use yh_extension_manager_v.Prelude.{
  ℕ, String, ◌<>◌, Bool, true, false, not, Option, none, some, List, [], ◌∷◌, ◌++◌, nat_eq, first,
  unwrap_or, or_else, if◌then◌else◌,
}
use yh_extension_manager_v.Text.{chars_map}
use yh_extension_manager_v.Text.Decimal.{show}
use yh_extension_manager_v.FilePath.{join}
use yh_extension_manager_v.Manifest.{
  DockerRuntimeManifest, DockerPortMapping, DockerVolumeMapping, StringMap,
}
use yh_extension_manager_v.Manifest.Network.{docker_effective_base_url}
use yh_extension_manager_v.Entities.{RuntimeHandle, RuntimeStatus}
use yh_extension_manager_v.World.{
  Env, Exec, Command, pure, raise, raise_if, or_raise, os, map_error, ◌>>=◌, ◌>>◌,
}
use yh_extension_manager_v.Runtime.{Launch, host_env, or_nil}

abbrev engine : String → List String → Command
engine docker_engine_command args = record {
  program = docker_engine_command;
  args = args;
  env = [];
  cwd = none;
  log_file = none;
  own_group = false;
}

-- `format!("fileuni-plg-{}", plugin_id.replace('.', "-"))`
unfoldable pub instance_name : String → String
instance_name plugin_id =
    "fileuni-plg-" <> chars_map (λ c. if nat_eq (code c) b'.' then "-" else c) plugin_id

first_port_url : Option (List DockerPortMapping) → Option String
first_port_url none = none
first_port_url (some []) = none
first_port_url (some (port ∷ _)) =
    some ("http://127.0.0.1:" <> show (unwrap_or port.host port.container))

-- where the container is reached: the declared URL, or else its first port on this machine
unfoldable pub docker_route : DockerRuntimeManifest → Option String
unfolding first_port_url docker_effective_base_url
docker_route runtime = or_else (docker_effective_base_url runtime) (first_port_url runtime.ports)

port_args : List DockerPortMapping → List String
port_args [] = []
port_args (port ∷ ports) =
    "-p"
    ∷ (show (unwrap_or port.host port.container)
        <> ":"
        <> show port.container
        <> "/"
        <> unwrap_or port.protocol "tcp")
    ∷ port_args ports

volume_args : List DockerVolumeMapping → List String
volume_args [] = []
volume_args (volume ∷ volumes) =
    "-v"
    ∷ (volume.source
        <> ":"
        <> volume.target
        <> (if unwrap_or volume.read_only false then ":ro" else ""))
    ∷ volume_args volumes

unfoldable pub env_args : StringMap → List String
env_args [] = []
env_args ((key, value) ∷ env) = "-e" ∷ (key <> "=" <> value) ∷ env_args env

unfoldable pub run_args : String → DockerRuntimeManifest → Launch → String → List String
unfolding instance_name port_args volume_args env_args
run_args plugin_id runtime launch image =
    ("run" ∷ "-d" ∷ "--rm" ∷ "--name" ∷ instance_name plugin_id ∷ [])
    ++ (port_args (or_nil runtime.ports)
        ++ (volume_args (or_nil runtime.volumes)
            ++ (env_args (or_nil runtime.env ++ host_env plugin_id launch)
                ++ (image ∷ (or_nil runtime.command ++ or_nil runtime.args)))))

module _ (E : Env) where
  unfoldable pub prepare_docker_runtime :
      String → DockerRuntimeManifest → Exec E String RuntimeHandle
  unfolding docker_route
  prepare_docker_runtime plugin_id runtime = do
    detail ←
        or_raise (or_else (or_else runtime.image runtime.oci_archive) runtime.compose_file)
          "docker runtime has no image/archive/compose source"
    pure (record {
      plugin_id = plugin_id;
      runtime_kind = "docker";
      status = RuntimeStatus.prepared;
      detail = detail;
      pid = none;
      instance_ref = none;
      route_base_url = docker_route runtime;
    })

  load_archive : String → String → Option String → Exec E String Unit
  load_archive docker install_root none = pure tt
  load_archive docker install_root (some archive) = do
    status ←
        map_error (λ e. "failed to load OCI archive: " <> e)
          (os (E.status (engine docker ("load" ∷ "-i" ∷ join install_root archive ∷ []))))
    raise_if (not status.success) ("docker load exited with status " <> status.text)

  started : String → String → Option String → RuntimeHandle
  started plugin_id detail route = record {
    plugin_id = plugin_id;
    runtime_kind = "docker";
    status = RuntimeStatus.running;
    detail = detail;
    pid = none;
    instance_ref = some (instance_name plugin_id);
    route_base_url = route;
  }

  -- the compose file if there is one, or else the image
  start_container :
      String
      → String
      → DockerRuntimeManifest
      → String
      → Launch
      → Option String
      → Exec E String RuntimeHandle
  unfolding run_args started docker_route
  start_container plugin_id install_root runtime docker launch (some compose_file) = do
    status ←
        map_error (λ e. "failed to start docker compose runtime: " <> e)
          (os (
            E.status (
              engine docker
                ("compose" ∷ "-f" ∷ join install_root compose_file ∷ "up" ∷ "-d" ∷ []))))
    raise_if (not status.success) ("docker compose up exited with status " <> status.text)
    pure (started plugin_id (join install_root compose_file) (docker_effective_base_url runtime))
  start_container plugin_id install_root runtime docker launch none = do
    image ← or_raise runtime.image "docker image is required for docker run mode"
    output ←
        map_error (λ e. "failed to start docker runtime '" <> image <> "': " <> e)
          (os (E.status (engine docker (run_args plugin_id runtime launch image))))
    raise_if (not output.success)
        ("docker run exited with status " <> output.text <> ": " <> output.stderr)
    pure (started plugin_id image (docker_route runtime))

  unfoldable pub start_docker_runtime :
      String → String → DockerRuntimeManifest → String → Launch → Exec E String RuntimeHandle
  unfolding load_archive start_container
  start_docker_runtime plugin_id install_root runtime docker launch = do
    load_archive docker install_root runtime.oci_archive
    start_container plugin_id install_root runtime docker launch runtime.compose_file

  unfoldable pub stop_docker_runtime : RuntimeHandle → String → Exec E String Unit
  stop_docker_runtime handle docker = do
    name ← or_raise handle.instance_ref "docker runtime has no container reference to stop"
    status ←
        map_error (λ e. "failed to stop docker runtime '" <> name <> "': " <> e)
          (os (E.status (engine docker ("stop" ∷ name ∷ []))))
    raise_if (not status.success) ("docker stop exited with status " <> status.text)
