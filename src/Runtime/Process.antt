-- ===== src/Runtime/Process.antt =====
-- src/runtime/process.rs, on Unix.
pub mod Quiet
pub mod Stop
pub mod Health
use yh_extension_manager_v.Prelude.{
  ℕ, zero, suc, String, ◌<>◌, Bool, true, false, not, Option, none, some, List, ◌++◌, if◌then◌else◌,
}
use yh_extension_manager_v.Prelude.Outcome.{Result, ok, err, is_ok}
use yh_extension_manager_v.Text.Decimal.{show}
use yh_extension_manager_v.FilePath.{join, parent, trim_end_slashes}
use yh_extension_manager_v.Manifest.{ProcessRuntimeManifest}
use yh_extension_manager_v.Manifest.Network.{process_effective_base_url}
use yh_extension_manager_v.Entities.{RuntimeHandle, RuntimeStatus}
use yh_extension_manager_v.World.{
  Env, Exec, Command, IoError, Signal, or_raise, pure, raise, raise_if, os, observe, step, attempt,
  map_error, ◌>>=◌, ◌>>◌,
}
use yh_extension_manager_v.Runtime.{Launch, host_env, or_nil}

abbrev pub health_check_retries : ℕ
health_check_retries = 15

-- The waits of 100 ms after which the 10 s of `DEFAULT_STOP_TIMEOUT_SECS` have passed.
abbrev stop_waits : ℕ
stop_waits = 100

abbrev is_some : {A : Type 0} → Option A → Bool
is_some none = false
is_some (some _) = true

abbrev working_dir : String → Option String → String
working_dir install_root none = install_root
working_dir install_root (some cwd) = join install_root cwd

process_command : String → String → ProcessRuntimeManifest → Launch → String → Command
process_command plugin_id install_root runtime launch log_path = record {
  program = join install_root runtime.program;
  args = or_nil runtime.args;
  env = or_nil runtime.env ++ host_env plugin_id launch;
  cwd = some (working_dir install_root runtime.cwd);
  log_file = some log_path;
  own_group = true;
}

module _ (E : Env) where
  unfoldable pub prepare_process_runtime :
      String → String → ProcessRuntimeManifest → Exec E String RuntimeHandle
  unfolding process_effective_base_url
  prepare_process_runtime plugin_id install_root runtime = do
    let program = join install_root runtime.program
    found ← observe (E.exists program)
    raise_if (not found) ("process runtime program not found: " <> program)
    pure (record {
      plugin_id = plugin_id;
      runtime_kind = "process";
      status = RuntimeStatus.prepared;
      detail = program;
      pid = none;
      instance_ref = none;
      route_base_url = process_effective_base_url runtime;
    })

  -- `kill_process_group_force`
  force_sent : ℕ → Option IoError → Exec E String Unit
  force_sent pid none = pure tt
  force_sent pid (some e) =
      if e.is_not_found
      then pure tt
      else raise ("killpg(SIGKILL, " <> show pid <> ") failed: " <> e.text)

  kill_process_group_force : ℕ → Exec E String Unit
  unfolding force_sent
  kill_process_group_force pid = do failed ← step (E.killpg pid Signal.kill); force_sent pid failed

  give_up : ℕ → Exec E String Unit
  unfolding kill_process_group_force
  give_up pid = do
    attempt {G = String} (kill_process_group_force pid)
    raise "process did not exit in time, force killed"

  -- the loop that waits for the group to go, by the waits left until the deadline
  wait_for_exit : ℕ → ℕ → Exec E String Unit
  unfolding give_up
  wait_for_exit zero pid = do
    gone ← step (E.killpg pid Signal.probe)
    if is_some gone then pure tt else give_up pid
  wait_for_exit (suc waits) pid = do
    gone ← step (E.killpg pid Signal.probe)
    late ← observe E.deadline_passed
    let again = do step E.sleep; wait_for_exit waits pid
    if is_some gone then pure tt else if late then give_up pid else again

  term_sent : ℕ → Option IoError → Exec E String Unit
  unfolding wait_for_exit
  term_sent pid none = wait_for_exit stop_waits pid
  term_sent pid (some e) = raise ("killpg(SIGTERM, " <> show pid <> ") failed: " <> e.text)

  pub kill_process_group : ℕ → Exec E String Unit
  unfolding term_sent
  kill_process_group pid = do failed ← step (E.killpg pid Signal.term); term_sent pid failed

  health_check_failed : String → Option ℕ → Exec E String Unit
  health_check_failed plugin_id none =
      raise ("process runtime '" <> plugin_id <> "' health check failed after 15 retries")
  health_check_failed plugin_id (some pid) = do
    attempt {G = String} (kill_process_group pid)
    raise ("process runtime '" <> plugin_id <> "' health check failed after 15 retries")

  -- the attempts of the health check that are left
  pub health_check : ℕ → String → String → Option ℕ → Exec E String Unit
  unfolding health_check_failed
  health_check zero health_url plugin_id pid = pure tt
  health_check (suc zero) health_url plugin_id pid = do
    healthy ← step (E.http_get_ok health_url)
    if healthy then pure tt else health_check_failed plugin_id pid
  health_check (suc (suc left)) health_url plugin_id pid = do
    healthy ← step (E.http_get_ok health_url)
    let again = do step E.sleep; health_check (suc left) health_url plugin_id pid
    if healthy then pure tt else again

  pub check_base_url : Option String → String → Option ℕ → Exec E String Unit
  unfolding health_check trim_end_slashes
  check_base_url none plugin_id pid = pure tt
  check_base_url (some url) plugin_id pid =
      health_check health_check_retries (trim_end_slashes url <> "/health") plugin_id pid

  create_log_dir : Option String → Exec E String Unit
  create_log_dir none = pure tt
  create_log_dir (some dir) =
      map_error (λ e. "failed to create log dir '" <> dir <> "': " <> e) (os (E.create_dir_all dir))

  unfoldable pub start_process_runtime :
      String → String → ProcessRuntimeManifest → Launch → String → Exec E String RuntimeHandle
  unfolding create_log_dir check_base_url process_command process_effective_base_url
  start_process_runtime plugin_id install_root runtime launch logs_dir = do
    let program = join install_root runtime.program
    let log_path = join logs_dir (plugin_id <> ".log")
    create_log_dir (parent log_path)
    map_error (λ e. "failed to create log file '" <> log_path <> "': " <> e)
        (os (E.create_file log_path))
    map_error (λ e. "failed to clone log file handle: " <> e) (os (E.dup_file log_path))
    pid ←
        map_error
          (λ (e : IoError). "failed to spawn process runtime '" <> program <> "': " <> e.text)
          (os (E.spawn (process_command plugin_id install_root runtime launch log_path)))
    check_base_url (process_effective_base_url runtime) plugin_id pid
    pure (record {
      plugin_id = plugin_id;
      runtime_kind = "process";
      status = RuntimeStatus.running;
      detail = program;
      pid = pid;
      instance_ref = none;
      route_base_url = process_effective_base_url runtime;
    })

  force_if_failed : ℕ → Result String Unit → Exec E String Unit
  unfolding kill_process_group_force
  force_if_failed pid (ok _) = pure tt
  force_if_failed pid (err _) = do attempt {G = String} (kill_process_group_force pid); pure tt

  unfoldable pub stop_process_runtime : RuntimeHandle → Exec E String Unit
  unfolding kill_process_group force_if_failed
  stop_process_runtime handle = do
    pid ← or_raise handle.pid "process runtime has no pid to stop"
    alive ← observe (E.pid_alive pid)
    raise_if (not alive)
        ("pid " <> show pid <> " does not belong to the expected process or has been reused")
    term_result ← attempt (kill_process_group pid)
    force_if_failed pid term_result
