-- ===== src/HostApi/Kv/Isolation.antt =====
-- What a plugin's requests to the key-value store leave alone.
use yh_extension_manager_v.Prelude.{String, ◌≡◌, refl, true, Option, none, some, eq_iff, arith}
use yh_extension_manager_v.Prelude.Outcome.{Result, ok, err}
use yh_extension_manager_v.Manifest.{PluginPermission}
use yh_extension_manager_v.World.{Env, World, ◌>>=◌}
use mathlib.Core.Path.{subst⁻¹}
use yh_extension_manager_v.Permissions.{require_plugin_permission, check_plugin_permission}
use yh_extension_manager_v.Permissions.Check.{holds}
use yh_extension_manager_v.Handlers.{AppError}
use yh_extension_manager_v.HostApi.{Services, RequestContext, Headers}
use yh_extension_manager_v.HostApi.Auth.{
  require_user, require_authenticated_plugin_id, require_permission,
}
use yh_extension_manager_v.HostApi.Auth.Caller.{
  world-require_authenticated_plugin_id, require_permission-holds,
}
use yh_extension_manager_v.HostApi.Kv.{target_plugin_id, check_namespace, authorize_key}
use yh_extension_manager_v.HostApi.Kv.Store.{
  KvLaws, Persists, Persists-refl, Persists-bind, Persists-pure, Persists-lift, Persists-raise_if,
}

abbrev unwrap_ok : Result AppError String → String
unwrap_ok (ok q) = q
unwrap_ok (err e) = ""

module _ {E : Env} (S : Services E) (L : KvLaws S) (j : String) where
  env-require_permission :
      (q : String) (p : PluginPermission) (w : World E)
      → (require_permission E q p w).1.env ≡ (E.db_fault w.env).1
  unfolding require_permission require_plugin_permission check_plugin_permission ◌>>=◌
  env-require_permission q p w = ground arith

  check_namespace-Persists :
      (q : String) (p : PluginPermission) (target : Option String) (w : World E)
      → Persists L.entry L.time j w.env (check_namespace E q p target w).1.env
  unfolding check_namespace
  check_namespace-Persists q p none w = Persists-pure w _ tt refl
  check_namespace-Persists q p (some t) w =
      Persists-bind _ (λ u. require_permission E q p) w (Persists-raise_if w _ _)
        (λ u w' e. rw (env-require_permission q p w') (L.db_fault w'.env j))

  -- The check of a request on a key lets entries be.
  pub authorize_key-Persists :
      (ctx : RequestContext) (headers : Headers) (p : PluginPermission) (k : String) (w : World E)
      → Persists L.entry L.time j w.env (authorize_key S ctx headers p k w).1.env
  unfolding authorize_key
  authorize_key-Persists ctx headers p k w =
      Persists-bind _ _ w (Persists-lift w (require_user ctx)) (λ u w1 e.
        Persists-bind _ _ w1
          (subst⁻¹ (λ (v : World E). Persists L.entry L.time j w1.env v.env)
            (world-require_authenticated_plugin_id S headers w1) (Persists-refl w1.env))
          (λ q w2 e2. check_namespace-Persists q p (target_plugin_id k) w2))

module _ {E : Env} (S : Services E) where
  -- A key of a namespace passes only for the plugin of that namespace, and with the permission.
  pub authorize_key-caller :
      (ctx : RequestContext) (headers : Headers) (p : PluginPermission) (k : String) (w : World E)
      (t : String)
      → target_plugin_id k ≡ some t
      → (authorize_key S ctx headers p k w).0 ≡ ok tt
      → ((require_authenticated_plugin_id S headers w).0 ≡ ok t)
        × (holds w.core.db.grants t p ≡ true)
  unfolding authorize_key check_namespace ◌>>=◌
  authorize_key-caller ctx headers p k w t e h = ground (
    arith,
    world-require_authenticated_plugin_id S headers w,
    require_permission-holds (unwrap_ok (require_authenticated_plugin_id S headers w).0) p w,
    eq_iff (unwrap_ok (require_authenticated_plugin_id S headers w).0) t,
  )
