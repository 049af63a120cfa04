-- ===== src/HostApi/Kv/Requests.antt =====
-- Sequences of requests to the key-value store.

use yh_extension_manager_v.Prelude.{
  String, ◌≡◌, ◌≢◌, refl, ap, ◌∙◌, some, List, [], ◌∷◌, All, false, Bool-cases, inl, inr, ◌==◌,
  eq_iff,
}
use yh_extension_manager_v.Prelude.Outcome.{ok}
use yh_extension_manager_v.Text.Utf8.{bytes}
use yh_extension_manager_v.Manifest.{PluginPermission}
use yh_extension_manager_v.World.{Env, World, Exec, ◌>>=◌}
use yh_extension_manager_v.HostApi.{Services, RequestContext, Headers}
use yh_extension_manager_v.HostApi.Auth.{require_authenticated_plugin_id}
use yh_extension_manager_v.HostApi.Kv.{
  HostKvSetRequest, target_plugin_id, authorize_key, set_kv, get_kv, delete_kv,
}
use yh_extension_manager_v.HostApi.Kv.Store.{
  KvLaws, Persists, Persists-refl, Persists-trans, Persists-bind, Persists-pure, Persists-os,
}
use yh_extension_manager_v.HostApi.Kv.Isolation.{authorize_key-Persists, authorize_key-caller}
use yh_extension_manager_v.Handlers.{AppError}

pub data KvAction : Type 0 where
  set : HostKvSetRequest → KvAction
  get delete : String → KvAction

-- A request with the context and the headers that it comes with.
pub record KvRequest : Type 0 where
  pub ctx : RequestContext
  pub headers : Headers
  pub action : KvAction

abbrev key_of : KvAction → String
key_of (KvAction.set payload) = payload.key
key_of (KvAction.get key) = key
key_of (KvAction.delete key) = key

module _ {E : Env} (S : Services E) where
  -- The world after a request, whose response is not looked at.
  unfoldable pub handle_action : RequestContext → Headers → KvAction → World E → World E
  handle_action ctx headers (KvAction.set payload) w = (set_kv S ctx headers payload w).1
  handle_action ctx headers (KvAction.get key) w = (get_kv S ctx headers key w).1
  handle_action ctx headers (KvAction.delete key) w = (delete_kv S ctx headers key w).1

  unfoldable pub handle_kv : List KvRequest → World E → World E
  unfolding handle_action
  handle_kv [] w = w
  handle_kv (r ∷ rs) w = handle_kv rs (handle_action r.ctx r.headers r.action w)

  -- A request that does not come from the plugin `t`, at any time.
  abbrev pub NotFrom : String → KvRequest → Type 0
  NotFrom t r = (w : World E) → (require_authenticated_plugin_id S r.headers w).0 ≢ ok t

module _ {E : Env} (S : Services E) (L : KvLaws S) (t : String) (j : String)
    (owned : target_plugin_id j ≡ some t) where
  -- the request's key is another one, or it is refused
  refused :
      (ctx : RequestContext) (headers : Headers) (p : PluginPermission) (k : String) (w : World E)
      → (require_authenticated_plugin_id S headers w).0 ≢ ok t
      → k ≡ j
      → (authorize_key S ctx headers p k w).0 ≢ ok tt
  refused ctx headers p k w apart e h =
      apart (authorize_key-caller S ctx headers p k w t (ap target_plugin_id e ∙ owned) h).0

  -- An action that the check lets through, as long as its key is not `j`.
  keyed_Persists :
      {A : Type 0} (ctx : RequestContext) (headers : Headers) (p : PluginPermission) (k : String)
      (f : Unit {0} → Exec E AppError A) (w : World E)
      → (require_authenticated_plugin_id S headers w).0 ≢ ok t
      → ((k == j) ≡ false → (w' : World E) → Persists L.entry L.time j w'.env (f tt w').1.env)
      → Persists L.entry L.time j w.env ((authorize_key S ctx headers p k >>= f) w).1.env
  keyed_Persists ctx headers p k f w apart h =
      Persists-bind _ f w (authorize_key-Persists S L j ctx headers p k w) (λ u w' e.
        elim (Bool-cases (k == j)) [
          | inl same ↦
              absurd (refused ctx headers p k w apart ((eq_iff k j).0 same) (ap (λ x. x.0) e))
          | inr other ↦ h other w'
        ])

  action_isolated :
      (ctx : RequestContext) (headers : Headers) (a : KvAction) (w : World E)
      → (require_authenticated_plugin_id S headers w).0 ≢ ok t
      → Persists L.entry L.time j w.env (handle_action S ctx headers a w).env
  unfolding handle_action set_kv get_kv delete_kv
  action_isolated ctx headers (KvAction.set payload) w apart =
      keyed_Persists ctx headers PluginPermission.kv_write payload.key _ w apart (λ other w'.
        Persists-os w' _ _
          (L.set_other payload.key j (bytes payload.value) payload.ttl_secs w'.env other))
  action_isolated ctx headers (KvAction.get k) w apart =
      keyed_Persists ctx headers PluginPermission.kv_read k _ w apart (λ other w'.
        Persists-bind _ _ w' (Persists-os w' _ _ (L.get_keeps k j w'.env))
          (λ v w2 e. Persists-pure w2 _ _ refl))
  action_isolated ctx headers (KvAction.delete k) w apart =
      keyed_Persists ctx headers PluginPermission.kv_delete k _ w apart (λ other w'.
        Persists-bind _ _ w' (Persists-os w' _ _ (L.del_other k j w'.env other))
          (λ v w2 e. Persists-pure w2 _ _ refl))

  -- On a store that meets `KvLaws`, whatever requests to the key-value store are made, in whatever
  -- order, none of which comes from the plugin in whose namespace the key is: what is stored under
  -- the key is unchanged, or it was set with a time to live that is over and nothing is stored
  -- there.
  pub handle_kv-isolated :
      (rs : List KvRequest) (w : World E)
      → All (NotFrom S t) rs
      → Persists L.entry L.time j w.env (handle_kv S rs w).env
  unfolding handle_kv
  handle_kv-isolated [] w h = Persists-refl w.env
  handle_kv-isolated (r ∷ rs) w (apart, h) =
      let w' = handle_action S r.ctx r.headers r.action w in
      Persists-trans w.env w'.env (handle_kv S rs w').env
        (action_isolated r.ctx r.headers r.action w (apart w)) (handle_kv-isolated rs w' h)
