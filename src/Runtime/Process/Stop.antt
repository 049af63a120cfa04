-- ===== src/Runtime/Process/Stop.antt =====
-- When stopping a process succeeds.
use yh_extension_manager_v.Prelude.{ℕ, Bool, false, Option, none, some}
use yh_extension_manager_v.World.{Env, World}

-- Whether the process of a handle is known and alive.
abbrev pub has_live_process : (E : Env) → Option ℕ → E.State → Bool
has_live_process E none s = false
has_live_process E (some pid) s = E.pid_alive pid s
