-- ===== src/Runtime/Process/Quiet.antt =====
-- Starting and stopping a process acts on the machine alone.
use yh_extension_manager_v.Prelude.{ℕ, zero, suc, String, Option, none, some}
use yh_extension_manager_v.Prelude.Outcome.{Result, ok, err}
use yh_extension_manager_v.Manifest.{ProcessRuntimeManifest}
use yh_extension_manager_v.Entities.{RuntimeHandle}
use yh_extension_manager_v.World.{Env, Core, IoError}
use yh_extension_manager_v.World.Keeps.{Keeps, keeps_rules}
use yh_extension_manager_v.Runtime.{Launch}
use yh_extension_manager_v.Runtime.Process.{
  force_sent, term_sent, kill_process_group_force, give_up, wait_for_exit, kill_process_group,
  health_check_failed, health_check, check_base_url, create_log_dir, start_process_runtime,
  force_if_failed, stop_process_runtime, stop_waits, health_check_retries,
}

module _ {E : Env} {P : Core → Type 0} where
  Keeps-force_sent : (pid : ℕ) (o : Option IoError) → Keeps P (force_sent E pid o)
  unfolding force_sent
  Keeps-force_sent pid none = search keeps_rules
  Keeps-force_sent pid (some e) = search keeps_rules

  Keeps-kill_process_group_force : (pid : ℕ) → Keeps P (kill_process_group_force E pid)
  unfolding kill_process_group_force
  Keeps-kill_process_group_force pid = search (keeps_rules, Keeps-force_sent)

  Keeps-give_up : (pid : ℕ) → Keeps P (give_up E pid)
  unfolding give_up
  Keeps-give_up pid = search (keeps_rules, Keeps-kill_process_group_force)

  Keeps-wait_for_exit : (waits pid : ℕ) → Keeps P (wait_for_exit E waits pid)
  unfolding wait_for_exit
  Keeps-wait_for_exit zero pid = search (keeps_rules, Keeps-give_up)
  Keeps-wait_for_exit (suc waits) pid =
      let again : Keeps P (wait_for_exit E waits pid) = Keeps-wait_for_exit waits pid in
      search (keeps_rules, Keeps-give_up) depth 20

  Keeps-term_sent : (pid : ℕ) (o : Option IoError) → Keeps P (term_sent E pid o)
  unfolding term_sent
  Keeps-term_sent pid none = Keeps-wait_for_exit stop_waits pid
  Keeps-term_sent pid (some e) = search keeps_rules

  Keeps-kill_process_group : (pid : ℕ) → Keeps P (kill_process_group E pid)
  unfolding kill_process_group
  Keeps-kill_process_group pid = search (keeps_rules, Keeps-term_sent)

  Keeps-health_check_failed : (q : String) (pid : Option ℕ) → Keeps P (health_check_failed E q pid)
  unfolding health_check_failed
  Keeps-health_check_failed q none = search keeps_rules
  Keeps-health_check_failed q (some pid) = search (keeps_rules, Keeps-kill_process_group)

  Keeps-health_check :
      (left : ℕ) (url q : String) (pid : Option ℕ) → Keeps P (health_check E left url q pid)
  unfolding health_check
  Keeps-health_check zero url q pid = search keeps_rules
  Keeps-health_check (suc zero) url q pid = search (keeps_rules, Keeps-health_check_failed)
  Keeps-health_check (suc (suc left)) url q pid =
      let again : Keeps P (health_check E (suc left) url q pid) =
        Keeps-health_check (suc left) url q pid in
      search keeps_rules depth 20

  Keeps-check_base_url :
      (url : Option String) (q : String) (pid : Option ℕ) → Keeps P (check_base_url E url q pid)
  unfolding check_base_url
  Keeps-check_base_url none q pid = search keeps_rules
  Keeps-check_base_url (some url) q pid = Keeps-health_check health_check_retries _ q pid

  Keeps-create_log_dir : (dir : Option String) → Keeps P (create_log_dir E dir)
  unfolding create_log_dir
  Keeps-create_log_dir none = search keeps_rules
  Keeps-create_log_dir (some dir) = search keeps_rules

  pub Keeps-start_process_runtime :
      (q root : String) (r : ProcessRuntimeManifest) (l : Launch) (logs : String)
      → Keeps P (start_process_runtime E q root r l logs)
  unfolding start_process_runtime
  Keeps-start_process_runtime q root r l logs =
      search (keeps_rules, Keeps-create_log_dir, Keeps-check_base_url) depth 30

  Keeps-force_if_failed : (pid : ℕ) (r : Result String Unit) → Keeps P (force_if_failed E pid r)
  unfolding force_if_failed
  Keeps-force_if_failed pid (ok u) = search keeps_rules
  Keeps-force_if_failed pid (err e) = search (keeps_rules, Keeps-kill_process_group_force)

  pub Keeps-stop_process_runtime : (h : RuntimeHandle) → Keeps P (stop_process_runtime E h)
  unfolding stop_process_runtime
  Keeps-stop_process_runtime h =
      search (keeps_rules, Keeps-kill_process_group, Keeps-force_if_failed) depth 30
