-- ===== src/Runtime/Docker/Quiet.antt =====
-- Starting and stopping a container acts on the machine alone.
use yh_extension_manager_v.Prelude.{String, Option, none, some}
use yh_extension_manager_v.Manifest.{DockerRuntimeManifest}
use yh_extension_manager_v.Entities.{RuntimeHandle}
use yh_extension_manager_v.World.{Env, Core}
use yh_extension_manager_v.World.Keeps.{Keeps, keeps_rules}
use yh_extension_manager_v.Runtime.{Launch}
use yh_extension_manager_v.Runtime.Docker.{
  load_archive, start_container, start_docker_runtime, stop_docker_runtime,
}

module _ {E : Env} {P : Core → Type 0} where
  Keeps-load_archive :
      (docker root : String) (a : Option String) → Keeps P (load_archive E docker root a)
  unfolding load_archive
  Keeps-load_archive docker root none = search keeps_rules
  Keeps-load_archive docker root (some a) = search keeps_rules depth 30

  Keeps-start_container :
      (q root : String) (r : DockerRuntimeManifest) (docker : String) (l : Launch)
      (compose : Option String)
      → Keeps P (start_container E q root r docker l compose)
  unfolding start_container
  Keeps-start_container q root r docker l none = search keeps_rules depth 30
  Keeps-start_container q root r docker l (some f) = search keeps_rules depth 30

  pub Keeps-start_docker_runtime :
      (q root : String) (r : DockerRuntimeManifest) (docker : String) (l : Launch)
      → Keeps P (start_docker_runtime E q root r docker l)
  unfolding start_docker_runtime
  Keeps-start_docker_runtime q root r docker l =
      search (keeps_rules, Keeps-load_archive, Keeps-start_container) depth 30

  pub Keeps-stop_docker_runtime :
      (h : RuntimeHandle) (docker : String) → Keeps P (stop_docker_runtime E h docker)
  unfolding stop_docker_runtime
  Keeps-stop_docker_runtime h docker = search keeps_rules depth 30
