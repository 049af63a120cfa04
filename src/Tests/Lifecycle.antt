-- ===== src/Tests/Lifecycle.antt =====
-- Runs of the lifecycle on the machine of the tests.
use yh_extension_manager_v.Prelude.{
  String, ◌≡◌, refl, Bool, true, false, Option, none, some, List, [], ◌∷◌,
}
use yh_extension_manager_v.Prelude.Outcome.{ok, err, is_ok}
use yh_extension_manager_v.Entities.{RuntimeStatus, RuntimeHandle}
use yh_extension_manager_v.World.{◌>>=◌}
use yh_extension_manager_v.Manager.{handle_of}
use yh_extension_manager_v.Installer.{installed, running}
use yh_extension_manager_v.Registry.State.{state_of}
use yh_extension_manager_v.Registry.Gone.{IsGone}
use yh_extension_manager_v.Handlers.{internal}
use yh_extension_manager_v.Handlers.Lifecycle.{
  start_plugin_runtime, stop_plugin_runtime, stop_runtime,
}
use yh_extension_manager_v.Handlers.Lifecycle.Start.{start_plugin_runtime-refuses, is_not_startable}
use yh_extension_manager_v.Handlers.Lifecycle.Started.{
  start_plugin_runtime-starts, start_plugin_runtime-fails, start_plugin_runtime-rolls_back,
}
use yh_extension_manager_v.Handlers.Lifecycle.Stop.{stop_plugin_runtime-refuses, is_running, taken}
use yh_extension_manager_v.Handlers.Lifecycle.Stopped.{
  stop_plugin_runtime-stops, stop_plugin_runtime-restores, stop_plugin_runtime-stop_plugin_runtime,
  stop_plugin_runtime-start_plugin_runtime,
}
use yh_extension_manager_v.Handlers.Uninstall.{uninstall_plugin}
use yh_extension_manager_v.Handlers.Uninstall.Gone.{uninstall_plugin-IsGone}
use yh_extension_manager_v.Handlers.Uninstall.Orphan.{uninstall_plugin-orphan, without_handle}
use yh_extension_manager_v.Handlers.Frame.{AgreesOn}
use yh_extension_manager_v.Handlers.Frame.Requests.{
  Request, AllOther, handle_all, handle_all-AgreesOn, plugin_of,
}
use yh_extension_manager_v.Tests.{
  machine, machine-Reliable, installed_world, running_world, handle, manager, admin,
}

abbrev not_spawned : String
not_spawned =
    "failed to spawn process runtime '/data/packages/chat/1.0/runtime/server': no such file"

abbrev not_alive : String
not_alive = "pid 7 does not belong to the expected process or has been reused"

abbrev uninstalled : RuntimeHandle
uninstalled = record {
  plugin_id = "chat";
  runtime_kind = "process";
  status = RuntimeStatus.stopped;
  detail = "";
  pid = none;
  instance_ref = none;
  route_base_url = none;
}

starts : (start_plugin_runtime (machine true) admin "chat" (installed_world true)).0 ≡ ok handle
unfolding start_plugin_runtime ◌>>=◌ yh_extension_manager_v.Manager.get_plugin_runtime_manager
    yh_extension_manager_v.Registry.get_registry_by_id
    yh_extension_manager_v.Prelude.Rows.select_one
    yh_extension_manager_v.Registry.get_version_by_plugin_and_version
    yh_extension_manager_v.Installer.Manifest.read_manifest_from_package_dir
    yh_extension_manager_v.Manifest.Validate.validate yh_extension_manager_v.Text.trim
    yh_extension_manager_v.Text.is_whitespace
    yh_extension_manager_v.Manager.ensure_plugin_config_paths
    yh_extension_manager_v.Runtime.Process.start_process_runtime
    yh_extension_manager_v.FilePath.parent yh_extension_manager_v.FilePath.join
    yh_extension_manager_v.Manager.layout_from_root
    yh_extension_manager_v.Manager.set_runtime_handle
starts = refl

does_not_start :
    (start_plugin_runtime (machine false) admin "chat" (installed_world false)).0
    ≡ err (internal not_spawned)
unfolding start_plugin_runtime ◌>>=◌ yh_extension_manager_v.Manager.get_plugin_runtime_manager
    yh_extension_manager_v.Registry.get_registry_by_id
    yh_extension_manager_v.Prelude.Rows.select_one
    yh_extension_manager_v.Registry.get_version_by_plugin_and_version
    yh_extension_manager_v.Installer.Manifest.read_manifest_from_package_dir
    yh_extension_manager_v.Manifest.Validate.validate yh_extension_manager_v.Text.trim
    yh_extension_manager_v.Text.is_whitespace
    yh_extension_manager_v.Manager.ensure_plugin_config_paths
    yh_extension_manager_v.Runtime.Process.start_process_runtime
    yh_extension_manager_v.FilePath.parent yh_extension_manager_v.FilePath.join
    yh_extension_manager_v.Manager.layout_from_root
does_not_start = refl

stops : (stop_plugin_runtime (machine true) admin "chat" (running_world true)).0 ≡ ok handle
unfolding stop_plugin_runtime ◌>>=◌ yh_extension_manager_v.Manager.get_plugin_runtime_manager
    yh_extension_manager_v.Registry.get_registry_by_id
    yh_extension_manager_v.Prelude.Rows.select_one
    yh_extension_manager_v.Manager.remove_runtime_handle yh_extension_manager_v.Prelude.Dict.lookup
    yh_extension_manager_v.Runtime.Process.stop_process_runtime
stops = refl

does_not_stop :
    (stop_plugin_runtime (machine false) admin "chat" (running_world false)).0
    ≡ err (internal not_alive)
unfolding stop_plugin_runtime ◌>>=◌ yh_extension_manager_v.Manager.get_plugin_runtime_manager
    yh_extension_manager_v.Registry.get_registry_by_id
    yh_extension_manager_v.Prelude.Rows.select_one
    yh_extension_manager_v.Manager.remove_runtime_handle yh_extension_manager_v.Prelude.Dict.lookup
    yh_extension_manager_v.Runtime.Process.stop_process_runtime
    yh_extension_manager_v.Manager.set_runtime_handle yh_extension_manager_v.Text.Decimal.show
does_not_stop = refl

uninstalls : (uninstall_plugin (machine true) admin "chat" (running_world true)).0 ≡ ok uninstalled
unfolding uninstall_plugin ◌>>=◌ yh_extension_manager_v.Manager.get_plugin_runtime_manager
    yh_extension_manager_v.Manager.remove_runtime_handle yh_extension_manager_v.Prelude.Dict.lookup
    yh_extension_manager_v.Runtime.Process.stop_process_runtime
    yh_extension_manager_v.Registry.get_registry_by_id
    yh_extension_manager_v.Prelude.Rows.select_one
    yh_extension_manager_v.Registry.get_version_by_plugin_and_version
uninstalls = refl

has_manager :
    (start_plugin_runtime (machine true) admin "chat" (installed_world true)).1.core.manager
    ≡ some (manager (("chat", handle) ∷ []))
unfolding start_plugin_runtime ◌>>=◌ yh_extension_manager_v.Manager.get_plugin_runtime_manager
    yh_extension_manager_v.Registry.get_registry_by_id
    yh_extension_manager_v.Prelude.Rows.select_one
    yh_extension_manager_v.Registry.get_version_by_plugin_and_version
    yh_extension_manager_v.Installer.Manifest.read_manifest_from_package_dir
    yh_extension_manager_v.Manifest.Validate.validate yh_extension_manager_v.Text.trim
    yh_extension_manager_v.Text.is_whitespace
    yh_extension_manager_v.Manager.ensure_plugin_config_paths
    yh_extension_manager_v.Runtime.Process.start_process_runtime
    yh_extension_manager_v.FilePath.parent yh_extension_manager_v.FilePath.join
    yh_extension_manager_v.Manager.layout_from_root
    yh_extension_manager_v.Manager.set_runtime_handle
    yh_extension_manager_v.Registry.append_audit_log
    yh_extension_manager_v.Registry.update_plugin_runtime_state
    yh_extension_manager_v.Prelude.Dict.insert
has_manager = refl

runtime_stays :
    (stop_runtime (machine false) handle "docker" (without_handle "chat" (running_world false))).0
    ≡ err not_alive
unfolding stop_runtime yh_extension_manager_v.Runtime.Process.stop_process_runtime ◌>>=◌
    yh_extension_manager_v.Text.Decimal.show
runtime_stays = refl

has_row : state_of (running_world false).core.db.registry "chat" ≡ some (true, running)
unfolding yh_extension_manager_v.Prelude.Rows.select_one
has_row = refl

has_handle : handle_of (running_world false).core "chat" ≡ some handle
unfolding yh_extension_manager_v.Prelude.Dict.lookup
has_handle = refl

is_started : is_not_startable (state_of (running_world true).core.db.registry "chat") ≡ true
unfolding yh_extension_manager_v.Prelude.Rows.select_one
is_started = refl

is_stopped : is_running (state_of (installed_world true).core.db.registry "chat") ≡ false
unfolding yh_extension_manager_v.Prelude.Rows.select_one
is_stopped = refl

start_plugin_runtime-starts_example :
    (handle_of
        (start_plugin_runtime (machine true) admin "chat" (installed_world true)).1.core
        "chat"
      ≡ some handle)
    × (state_of
          (start_plugin_runtime
            (machine true)
            admin
            "chat"
            (installed_world true)).1.core.db.registry
          "chat"
        ≡ some (true, running))
start_plugin_runtime-starts_example =
    start_plugin_runtime-starts (machine-Reliable true) admin "chat" (installed_world true)
      {h = handle} starts

start_plugin_runtime-rolls_back_example :
    state_of
      (start_plugin_runtime (machine false) admin "chat" (installed_world false)).1.core.db.registry
      "chat"
    ≡ state_of (installed_world false).core.db.registry "chat"
start_plugin_runtime-rolls_back_example =
    start_plugin_runtime-rolls_back (machine-Reliable false) admin "chat" (installed_world false)
      {x = internal not_spawned} does_not_start

start_plugin_runtime-fails_example :
    (start_plugin_runtime (machine false) admin "chat" (installed_world false)).1.core.manager
    ≡ (installed_world false).core.manager
start_plugin_runtime-fails_example =
    start_plugin_runtime-fails admin "chat" (installed_world false) {x = internal not_spawned}
      does_not_start

start_plugin_runtime-refuses_example :
    (is_ok (start_plugin_runtime (machine true) admin "chat" (running_world true)).0 ≡ false)
    × ((start_plugin_runtime (machine true) admin "chat" (running_world true)).1.core
        ≡ (running_world true).core)
start_plugin_runtime-refuses_example =
    start_plugin_runtime-refuses admin "chat" (running_world true) is_started

stop_plugin_runtime-stops_example :
    (handle_of (running_world true).core "chat" ≡ some handle)
    × (handle_of
          (stop_plugin_runtime (machine true) admin "chat" (running_world true)).1.core
          "chat"
        ≡ none)
    × (state_of
          (stop_plugin_runtime (machine true) admin "chat" (running_world true)).1.core.db.registry
          "chat"
        ≡ some (false, installed))
stop_plugin_runtime-stops_example =
    stop_plugin_runtime-stops (machine-Reliable true) admin "chat" (running_world true) {h = handle}
      stops

stop_plugin_runtime-restores_example :
    (handle_of
        (stop_plugin_runtime (machine false) admin "chat" (running_world false)).1.core
        "chat"
      ≡ handle_of (running_world false).core "chat")
    × ((stop_plugin_runtime (machine false) admin "chat" (running_world false)).1.core.db.registry
        ≡ (running_world false).core.db.registry)
stop_plugin_runtime-restores_example =
    stop_plugin_runtime-restores admin "chat" "chat" (running_world false) {x = internal not_alive}
      does_not_stop

stop_plugin_runtime-refuses_example :
    (is_ok (stop_plugin_runtime (machine true) admin "chat" (installed_world true)).0 ≡ false)
    × ((stop_plugin_runtime (machine true) admin "chat" (installed_world true)).1.core
        ≡ (installed_world true).core)
stop_plugin_runtime-refuses_example =
    stop_plugin_runtime-refuses admin "chat" (installed_world true) is_stopped

stop_plugin_runtime-stop_plugin_runtime_example :
    (let w' = (stop_plugin_runtime (machine true) admin "chat" (running_world true)).1 in
      (is_ok (stop_plugin_runtime (machine true) admin "chat" w').0 ≡ false)
      × ((stop_plugin_runtime (machine true) admin "chat" w').1.core ≡ w'.core))
stop_plugin_runtime-stop_plugin_runtime_example =
    stop_plugin_runtime-stop_plugin_runtime (machine-Reliable true) admin "chat"
      (running_world true) {h = handle} stops

stop_plugin_runtime-start_plugin_runtime_example :
    (let w' = (start_plugin_runtime (machine true) admin "chat" (installed_world true)).1 in
      is_ok (stop_plugin_runtime (machine true) admin "chat" w').0
      ≡ is_ok (stop_runtime (machine true) handle "docker" (taken "chat" w')).0)
stop_plugin_runtime-start_plugin_runtime_example =
    stop_plugin_runtime-start_plugin_runtime (machine-Reliable true) admin "chat"
      (installed_world true) {h = handle} (manager (("chat", handle) ∷ [])) starts has_manager

uninstall_plugin-IsGone_example :
    IsGone (uninstall_plugin (machine true) admin "chat" (running_world true)).1.core.db "chat"
    × (handle_of (uninstall_plugin (machine true) admin "chat" (running_world true)).1.core "chat"
        ≡ none)
uninstall_plugin-IsGone_example =
    uninstall_plugin-IsGone (machine-Reliable true) admin "chat" (running_world true)
      {h = uninstalled} uninstalls

uninstall_plugin-orphan_example :
    (let w' = (uninstall_plugin (machine false) admin "chat" (running_world false)).1 in
      ((uninstall_plugin (machine false) admin "chat" (running_world false)).0
        ≡ err (internal not_alive))
      × (w'.core.db ≡ (running_world false).core.db)
      × (is_ok (start_plugin_runtime (machine false) admin "chat" w').0 ≡ false)
      × (is_ok (stop_plugin_runtime (machine false) admin "chat" w').0 ≡ false))
uninstall_plugin-orphan_example =
    uninstall_plugin-orphan admin "chat" not_alive (running_world false)
      (manager (("chat", handle) ∷ [])) handle true refl has_handle has_row runtime_stays

abbrev on_mail : List Request
on_mail =
    Request.start admin "mail" ∷ Request.stop admin "mail" ∷ Request.uninstall admin "mail" ∷ []

on_mail-AllOther : AllOther "chat" on_mail
unfolding plugin_of
on_mail-AllOther =
    AllOther.and_other refl (AllOther.and_other refl (AllOther.and_other refl AllOther.none_left))

handle_all-AgreesOn_example :
    AgreesOn "chat"
      (running_world true).core
      (handle_all (machine true) on_mail (running_world true)).core
handle_all-AgreesOn_example =
    handle_all-AgreesOn "chat" on_mail (running_world true) on_mail-AllOther
