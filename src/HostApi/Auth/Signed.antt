-- ===== src/HostApi/Auth/Signed.antt =====
-- Whom the host API takes a request to come from.
use mathlib.Core.Option
use yh_extension_manager_v.Prelude.{
  ℕ, List, String, ◌≡◌, refl, sym, ap, ◌⊎◌, inl, inr, Option, none, some, eq_iff, arith, unwrap_or,
}
use yh_extension_manager_v.Prelude.Int.{ℤ}
use yh_extension_manager_v.Text.Utf8.{bytes}
use yh_extension_manager_v.World.{Env, World, Exec, PluginRuntimeManager, ◌>>=◌}
use yh_extension_manager_v.Manager.{get_plugin_runtime_manager}
use yh_extension_manager_v.Manager.Signature.{sign_user_context, verify_user_context_signature_iff}
use yh_extension_manager_v.HostApi.{Services, UserInfo, RequestContext, Headers}
use yh_extension_manager_v.HostApi.Auth.{
  plugin_runtime_client_id, header_string, forwarded_user, forwarded_user_from_headers,
  as_plugin_runtime, authenticated, run_next, bearer_token, plugin_host_auth_middleware,
  parsed_role,
}

module _ {E : Env} (S : Services E) where
  -- The bytes of the signature that the manager makes for a user.
  abbrev pub user_signature : PluginRuntimeManager → UserInfo → List ℕ
  user_signature m u =
      bytes (sign_user_context S.hmac_sha256_hex m u.user_id (unwrap_or u.username "") u.role_id)

  -- The user is the one of the headers, which carry the manager's signature over it.
  abbrev pub IsSigned : Headers → PluginRuntimeManager → UserInfo → Type 0
  IsSigned headers m u =
      (header_string headers "X-Plugin-User-ID" ≡ some u.user_id)
      × (Option.map bytes (header_string headers "X-Plugin-User-Signature")
          ≡ some (user_signature m u))

  forwarded_user-signed :
      (id : Option String) (role : Option ℤ) (name sig : Option String) (m : PluginRuntimeManager)
      (u : UserInfo)
      → forwarded_user S id role name sig (some m) ≡ some u
      → (id ≡ some u.user_id) × (Option.map bytes sig ≡ some (user_signature m u))
  unfolding forwarded_user
  forwarded_user-signed (some id) (some role) name (some sig) m u h =
      ground (
        arith,
        verify_user_context_signature_iff S.hmac_sha256_hex m id (unwrap_or name "") role sig,
      )
  forwarded_user-signed none _ name sig m u h = ground arith
  forwarded_user-signed (some id) none name sig m u h = ground arith
  forwarded_user-signed (some id) (some role) name none m u h = ground arith

  -- A context that the host API makes for a plugin runtime: it carries the manager's secret, and
  -- a user only with the manager's signature over it.
  pub record IsTrusted (headers : Headers) (m : PluginRuntimeManager) (ctx : RequestContext)
      : Type 0 where
    pub client : ctx.client_id ≡ some plugin_runtime_client_id
    pub token : ctx.token ≡ some m.host_api_secret
    pub same_user : ctx.user_id ≡ Option.map (λ u. u.user_id) ctx.user_info
    pub signed : (u : UserInfo) → ctx.user_info ≡ some u → IsSigned headers m u

  authenticated-IsTrusted :
      (headers : Headers) (ctx : RequestContext) (token : String) (m : PluginRuntimeManager)
      (ctx' : RequestContext)
      → authenticated S headers ctx (some token) (some m) ≡ some ctx'
      → IsTrusted headers m ctx'
  unfolding authenticated as_plugin_runtime forwarded_user_from_headers
  authenticated-IsTrusted headers ctx token m ctx' h = record {
    client = ground arith;
    token = ground (arith, eq_iff token m.host_api_secret);
    same_user = ground arith;
    signed = λ u e.
        forwarded_user-signed (header_string headers "X-Plugin-User-ID")
          (parsed_role S (header_string headers "X-Plugin-User-Role"))
          (header_string headers "X-Plugin-User-Name")
          (header_string headers "X-Plugin-User-Signature") m u (ground arith);
  }

  module _ {F A : Type 0} (headers : Headers) (ctx : RequestContext)
      (next : RequestContext → Exec E F A) (jwt : Exec E F A) (w : World E)
      (m : PluginRuntimeManager) where
    passed_on :
        (token : Option String) (o : Option RequestContext)
        → authenticated S headers ctx token (some m) ≡ o
        → (run_next S next jwt o w ≡ jwt w)
          ⊎ ((ctx' : RequestContext) × (run_next S next jwt o w ≡ next ctx' w)
              × IsTrusted headers m ctx')
    unfolding authenticated
    passed_on token none e = inl refl
    passed_on (some token) (some ctx') e =
        inr (ctx', refl, authenticated-IsTrusted headers ctx token m ctx' e)
    passed_on none (some ctx') e = inl (ground arith)

    -- Where the manager is there, a request goes on in one of two ways: through the user's own
    -- authentication, as it came, or in a context that carries the manager's secret as its token,
    -- has the name of a plugin runtime as its client, and keeps no user but one over which the
    -- headers carry the manager's signature.
    pub plugin_host_auth_middleware-IsTrusted :
        w.core.manager ≡ some m
        → (plugin_host_auth_middleware S headers ctx next jwt w ≡ jwt w)
          ⊎ ((ctx' : RequestContext) × (plugin_host_auth_middleware S headers ctx next jwt w
                ≡ next ctx' w)
              × IsTrusted headers m ctx')
    unfolding plugin_host_auth_middleware get_plugin_runtime_manager ◌>>=◌
    plugin_host_auth_middleware-IsTrusted e =
        passed_on (bearer_token S headers)
          (authenticated S headers ctx (bearer_token S headers) w.core.manager)
          (ap (authenticated S headers ctx (bearer_token S headers)) (sym e))
