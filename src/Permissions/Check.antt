-- ===== src/Permissions/Check.antt =====
-- What a permission check decides.

use yh_extension_manager_v.Prelude.{
  String, ◌≡◌, refl, ◌↔◌, ap, Bool, true, false, ◌&&◌, Option, none, some, List, [], ◌∷◌, arith,
  ◌==◌, if◌then◌else◌,
}
use yh_extension_manager_v.Prelude.Outcome.{ok}
use yh_extension_manager_v.Manifest.{PluginPermission, as_key}
use yh_extension_manager_v.Entities.{PluginPermissionGrant}
use yh_extension_manager_v.World.{Env, World, ◌>>=◌}
use yh_extension_manager_v.Permissions.{
  check_plugin_permission, check_plugin_permissions, require_plugin_permission,
}
use yh_extension_manager_v.Permissions.Laws.{decision}

-- A permission holds if its decision is there and is positive.
abbrev pub is_yes : Option Bool → Bool
is_yes none = false
is_yes (some b) = b

abbrev pub holds : List PluginPermissionGrant → String → PluginPermission → Bool
holds rows plugin_id permission = is_yes (decision rows plugin_id (as_key permission))

abbrev pub all_hold : List PluginPermissionGrant → String → List PluginPermission → Bool
all_hold rows plugin_id [] = true
all_hold rows plugin_id (p ∷ ps) = holds rows plugin_id p && all_hold rows plugin_id ps

module _ {E : Env} where
  pub check_plugin_permission-holds :
      (q : String) (p : PluginPermission) (w : World E) {b : Bool}
      → (check_plugin_permission E q p w).0 ≡ ok b
      → b ≡ holds w.core.db.grants q p
  unfolding check_plugin_permission ◌>>=◌
  check_plugin_permission-holds q p w h = ground arith

  pub core-check_plugin_permission :
      (q : String) (p : PluginPermission) (w : World E)
      → (check_plugin_permission E q p w).1.core ≡ w.core
  unfolding check_plugin_permission ◌>>=◌
  core-check_plugin_permission q p w = ground arith

  -- A check of a list of permissions that returns answers whether every one of them is stored as
  -- granted to the plugin; it changes nothing that the program keeps.
  pub check_plugin_permissions-all_hold :
      (q : String) (ps : List PluginPermission) (w : World E) {b : Bool}
      → (check_plugin_permissions E q ps w).0 ≡ ok b
      → (b ≡ all_hold w.core.db.grants q ps) × ((check_plugin_permissions E q ps w).1.core ≡ w.core)
  unfolding check_plugin_permissions ◌>>=◌
  check_plugin_permissions-all_hold q [] w h = ground arith
  check_plugin_permissions-all_hold q (p ∷ ps) w {b} h = ground (
    arith,
    core-check_plugin_permission q p w,
    check_plugin_permissions-all_hold q ps (check_plugin_permission E q p w).1 {b = b},
  )

  pub require_plugin_permission-holds :
      (q : String) (p : PluginPermission) (w : World E)
      → (require_plugin_permission E q p w).0 ≡ ok tt
      → holds w.core.db.grants q p ≡ true
  unfolding require_plugin_permission check_plugin_permission ◌>>=◌
  require_plugin_permission-holds q p w h = ground arith

  -- Where the database answers, a required permission lets the call go on exactly if it is stored
  -- as granted to the plugin.
  pub require_plugin_permission_iff :
      (q : String) (p : PluginPermission) (w : World E)
      → (E.db_fault w.env).0 ≡ none
      → ((require_plugin_permission E q p w).0 ≡ ok tt) ↔ (holds w.core.db.grants q p ≡ true)
  unfolding require_plugin_permission check_plugin_permission ◌>>=◌
  require_plugin_permission_iff q p w h = ground arith

  pub core-require_plugin_permission :
      (q : String) (p : PluginPermission) (w : World E)
      → (require_plugin_permission E q p w).1.core ≡ w.core
  unfolding require_plugin_permission check_plugin_permission ◌>>=◌
  core-require_plugin_permission q p w = ground arith

-- The permission that a key names.
abbrev of_key : String → Option PluginPermission
of_key k =
    if k == "auth-read"
    then some PluginPermission.auth_read
    else if k == "user-lookup"
    then some PluginPermission.user_lookup
    else if k == "user-permission-check"
    then some PluginPermission.user_permission_check
    else if k == "vfs-read"
    then some PluginPermission.vfs_read
    else if k == "vfs-write"
    then some PluginPermission.vfs_write
    else if k == "kv-read"
    then some PluginPermission.kv_read
    else if k == "kv-write"
    then some PluginPermission.kv_write
    else if k == "kv-delete"
    then some PluginPermission.kv_delete
    else if k == "db-shared-read"
    then some PluginPermission.db_shared_read
    else if k == "db-shared-write"
    then some PluginPermission.db_shared_write
    else if k == "db-sqlite"
    then some PluginPermission.db_sqlite
    else if k == "web-api"
    then some PluginPermission.web_api
    else if k == "web-socket"
    then some PluginPermission.web_socket
    else if k == "scheduler"
    then some PluginPermission.scheduler
    else if k == "network"
    then some PluginPermission.network
    else if k == "process-execution"
    then some PluginPermission.process_execution
    else if k == "docker-execution"
    then some PluginPermission.docker_execution
    else none

of_key-as_key : (p : PluginPermission) → of_key (as_key p) ≡ some p
unfolding as_key
of_key-as_key PluginPermission.auth_read = refl
of_key-as_key _ = refl

-- Two permissions with the same key are the same permission.
pub as_key-injective : (p q : PluginPermission) → as_key p ≡ as_key q → p ≡ q
as_key-injective p q h = cc (of_key-as_key p, of_key-as_key q, ap of_key h)
