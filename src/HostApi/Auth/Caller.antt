-- ===== src/HostApi/Auth/Caller.antt =====
-- Which plugin makes a request, and the identifiers that the host API accepts.
use mathlib.Core.Option
use yh_extension_manager_v.Prelude.{String, ◌≡◌, refl, true, ◌↔◌, Option, none, some, arith}
use yh_extension_manager_v.Prelude.Int.{ℤ}
use yh_extension_manager_v.Prelude.Outcome.{ok}
use yh_extension_manager_v.Text.Utf8.{bytes}
use yh_extension_manager_v.World.Keeps.{Keeps}
use yh_extension_manager_v.World.{Env, Core, World, PluginRuntimeManager, ◌>>=◌}
use yh_extension_manager_v.Manifest.{PluginPermission}
use yh_extension_manager_v.Manager.{get_plugin_runtime_manager}
use yh_extension_manager_v.Manager.Signature.{sign_user_context, verify_user_context_signature_iff}
use yh_extension_manager_v.Permissions.Check.{
  holds, require_plugin_permission-holds, core-require_plugin_permission,
}
use yh_extension_manager_v.HostApi.{Services, Headers}
use yh_extension_manager_v.HostApi.Auth.{
  header_string, require_authenticated_plugin_id, require_permission,
}

module _ {E : Env} (S : Services E) where
  -- The headers name the plugin `q` and carry the manager's signature over that name.
  abbrev pub IsCaller : Headers → PluginRuntimeManager → String → Type 0
  IsCaller headers m q =
      (header_string headers "X-Plugin-ID" ≡ some q)
      × (Option.map bytes (header_string headers "X-Plugin-ID-Signature")
          ≡ some (bytes (sign_user_context S.hmac_sha256_hex m q "" (ℤ.pos 0))))

  -- The check of a plugin's name has no effect.
  pub world-require_authenticated_plugin_id :
      (headers : Headers) (w : World E) → (require_authenticated_plugin_id S headers w).1 ≡ w
  unfolding require_authenticated_plugin_id get_plugin_runtime_manager ◌>>=◌
  world-require_authenticated_plugin_id headers w = ground arith

  -- A request that is taken to come from a plugin names it.
  pub caller_named :
      (headers : Headers) (w : World E) (q : String)
      → (require_authenticated_plugin_id S headers w).0 ≡ ok q
      → header_string headers "X-Plugin-ID" ≡ some q
  unfolding require_authenticated_plugin_id get_plugin_runtime_manager ◌>>=◌
  caller_named headers w q h = ground arith

  IsCaller-iff :
      (headers : Headers) (w : World E) (m : PluginRuntimeManager) (q : String)
      (id signature : Option String)
      → header_string headers "X-Plugin-ID" ≡ id
      → header_string headers "X-Plugin-ID-Signature" ≡ signature
      → w.core.manager ≡ some m
      → ((require_authenticated_plugin_id S headers w).0 ≡ ok q) ↔ IsCaller headers m q
  unfolding require_authenticated_plugin_id get_plugin_runtime_manager ◌>>=◌
  IsCaller-iff headers w m q none signature ei es em = (λ h. ground arith, λ h. ground arith)
  IsCaller-iff headers w m q (some id) none ei es em = (λ h. ground arith, λ h. ground arith)
  IsCaller-iff headers w m q (some id) (some s) ei es em = (
    λ h. ground (arith, verify_user_context_signature_iff S.hmac_sha256_hex m id "" (ℤ.pos 0) s),
    λ h. ground (arith, verify_user_context_signature_iff S.hmac_sha256_hex m id "" (ℤ.pos 0) s),
  )

  -- Where the manager is there, a request is taken to come from a plugin exactly if its headers
  -- name the plugin and carry the manager's signature over that name.
  pub require_authenticated_plugin_id-iff-IsCaller :
      (headers : Headers) (w : World E) (m : PluginRuntimeManager) (q : String)
      → w.core.manager ≡ some m
      → ((require_authenticated_plugin_id S headers w).0 ≡ ok q) ↔ IsCaller headers m q
  unfolding require_authenticated_plugin_id get_plugin_runtime_manager ◌>>=◌
  require_authenticated_plugin_id-iff-IsCaller headers w m q e =
      IsCaller-iff headers w m q _ _ refl refl e

module _ {E : Env} where
  pub core-require_permission :
      (q : String) (p : PluginPermission) (w : World E)
      → (require_permission E q p w).1.core ≡ w.core
  unfolding require_permission ◌>>=◌
  core-require_permission q p w = core-require_plugin_permission q p w

  pub require_permission-holds :
      (q : String) (p : PluginPermission) (w : World E)
      → (require_permission E q p w).0 ≡ ok tt
      → holds w.core.db.grants q p ≡ true
  unfolding require_permission ◌>>=◌
  require_permission-holds q p w h = ground (arith, require_plugin_permission-holds q p w)

  -- A permission check keeps what the program keeps.
  pub Keeps-require_permission :
      {P : Core → Type 0} (q : String) (p : PluginPermission) → Keeps P (require_permission E q p)
  Keeps-require_permission q p = record { at = λ w h. rw (core-require_permission q p w) h }
