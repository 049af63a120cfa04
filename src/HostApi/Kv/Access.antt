-- ===== src/HostApi/Kv/Access.antt =====
-- Which requests to the key-value store are let through to the store.
use yh_extension_manager_v.Prelude.{String, ◌≡◌, ◌≢◌, true, Option, none, some, List}
use yh_extension_manager_v.Manifest.{PluginPermission}
use yh_extension_manager_v.Entities.{PluginPermissionGrant}
use yh_extension_manager_v.World.{Env, World, PluginRuntimeManager}
use yh_extension_manager_v.World.Reliable.{Reliable}
use yh_extension_manager_v.Permissions.Check.{holds}
use yh_extension_manager_v.HostApi.{Services, RequestContext, Headers}
use yh_extension_manager_v.HostApi.Auth.Caller.{IsCaller}
use yh_extension_manager_v.HostApi.Kv.{target_plugin_id}

-- A plugin may use a key that is in no namespace, or is in its own while the permission is granted.
abbrev pub IsAllowed :
    List PluginPermissionGrant → PluginPermission → Option String → String → Type 0
IsAllowed grants p none q = Unit {0}
IsAllowed grants p (some t) q = (q ≡ t) × (holds grants t p ≡ true)

module _ {E : Env} (S : Services E) where
  -- The request has a user and comes from a plugin that may use the key.
  pub record MayUse (ctx : RequestContext) (headers : Headers) (p : PluginPermission) (k : String)
      (m : PluginRuntimeManager) (grants : List PluginPermissionGrant) : Type 0 where
    pub user : ctx.user_info ≢ none
    pub caller : String
    pub named : IsCaller S headers m caller
    pub allowed : IsAllowed grants p (target_plugin_id k) caller
