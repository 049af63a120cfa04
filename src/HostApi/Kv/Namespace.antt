-- ===== src/HostApi/Kv/Namespace.antt =====
-- The keys that the host makes for a plugin's namespace, and the identifiers that it accepts.
use yh_extension_manager_v.Prelude.{
  ℕ, String, ◌<>◌, ◌≡◌, refl, ap, ◌∙◌, true, false, not, ◌↔◌, some, arith, nat_eq,
}
use yh_extension_manager_v.Prelude.Outcome.{ok}
use yh_extension_manager_v.Text.{chars_all, is_ascii_alphanumeric, is_whitespace, str_is_empty}
use yh_extension_manager_v.Text.Prefix.{strip_prefix-append, before-append, chars_all-weaken}
use yh_extension_manager_v.Text.Trim.{is_blank-eq}
use yh_extension_manager_v.Manager.{is_safe_char, sanitize_component}
use yh_extension_manager_v.Manager.Sanitize.{sanitize_component-sanitize_component}
use yh_extension_manager_v.World.{Env, World, ◌>>=◌}
use yh_extension_manager_v.HostApi.{RequestContext}
use yh_extension_manager_v.HostApi.Auth.{sanitize_sqlite_component, validate_host_plugin_identifier}
use yh_extension_manager_v.HostApi.Kv.{
  HostKvNamespaceRequest, HostKvNamespaceResponse, kv_namespaced_key, before_colon,
  target_plugin_id, build_kv_namespace,
}

safe_is_no_colon : (d : ℕ) → is_safe_char d ≡ true → not (nat_eq d b':') ≡ true
unfolding is_ascii_alphanumeric
safe_is_no_colon d h = ground arith

-- The key that the host makes is in the namespace of the plugin, whatever the key is.
pub target_plugin_id-kv_namespaced_key :
    (id key : String)
    → chars_all is_safe_char id ≡ true
    → target_plugin_id (kv_namespaced_key id key) ≡ some id
unfolding target_plugin_id kv_namespaced_key
target_plugin_id-kv_namespaced_key id key h =
    ap before_colon (strip_prefix-append "plugin:" (id <> ":" <> key))
    ∙ before-append ":" id key (chars_all-weaken _ _ safe_is_no_colon id h)

module _ {E : Env} where
  -- The key that is built for a plugin and a key, whatever these are, is in the namespace of the
  -- plugin's identifier with its unsafe characters replaced.
  pub target_plugin_id-build_kv_namespace :
      (ctx : RequestContext) (payload : HostKvNamespaceRequest) (w : World E)
      (r : HostKvNamespaceResponse)
      → (build_kv_namespace E ctx payload w).0 ≡ ok r
      → target_plugin_id r.namespaced_key ≡ some (sanitize_sqlite_component payload.plugin_id)
  unfolding build_kv_namespace validate_host_plugin_identifier sanitize_sqlite_component ◌>>=◌
  target_plugin_id-build_kv_namespace ctx payload w r h = ground (
    arith,
    target_plugin_id-kv_namespaced_key (sanitize_component payload.plugin_id) payload.key
        (sanitize_component-sanitize_component payload.plugin_id).0,
  )

not_whitespace :
    (s : String) → chars_all is_safe_char s ≡ true → chars_all is_whitespace s ≡ str_is_empty s
unfolding is_ascii_alphanumeric is_whitespace
not_whitespace String.[] h = refl
not_whitespace (String.◌∷◌ c s) h = ground arith

sanitized_is_empty : (s : String) → str_is_empty (sanitize_component s) ≡ str_is_empty s
unfolding sanitize_component
sanitized_is_empty String.[] = refl
sanitized_is_empty (String.◌∷◌ c s) = refl

-- An identifier is accepted, in its sanitized form, exactly if it is not empty: what sanitizing
-- leaves is never white space.
pub validate_host_plugin_identifier_iff :
    (value field : String)
    → (validate_host_plugin_identifier value field ≡ ok (sanitize_sqlite_component value))
      ↔ (str_is_empty value ≡ false)
unfolding validate_host_plugin_identifier sanitize_sqlite_component
validate_host_plugin_identifier_iff value field =
    let blank =
      is_blank-eq (sanitize_component value)
      ∙ not_whitespace (sanitize_component value) (sanitize_component-sanitize_component value).0
      ∙ sanitized_is_empty value in
    (λ h. ground (arith, blank), λ h. ground (arith, blank))
