-- ===== src/Tests/Kv.antt =====
-- The theorems on the key-value endpoints at a store whose entries expire.
use yh_extension_manager_v.Prelude.{
  ℕ, suc, String, ◌<>◌, ◌≡◌, ◌≢◌, ◌⊎◌, refl, sym, ◌∙◌, ◌+◌, ap, inl, Bool, true, false, Option,
  none, some, List, [], ◌∷◌, ◌==◌, eq_iff, arith, if◌then◌else◌,
}
use yh_extension_manager_v.Prelude.Dict
use yh_extension_manager_v.Prelude.Dict.{Dict, lookup-insert, lookup-remove}
use yh_extension_manager_v.Prelude.Outcome.{Result, ok}
use yh_extension_manager_v.World.{
  Env, World, Core, Bytes, PluginRuntimeManager, pure, os, map_error,
}
use yh_extension_manager_v.HostApi.{Services, UserInfo, RequestContext, Headers}
use yh_extension_manager_v.HostApi.Kv.{HostKvSetRequest, HostKvNamespaceRequest, target_plugin_id}
use yh_extension_manager_v.HostApi.Kv.Store.{KvEntry, KvLaws, Persists, Persists-refl, live}
use yh_extension_manager_v.HostApi.Kv.{set_kv, get_kv, build_kv_namespace}
use yh_extension_manager_v.HostApi.Kv.Requests.{KvAction, KvRequest, handle_kv, handle_kv-isolated}
use yh_extension_manager_v.HostApi.Kv.RoundTrip.{IsReadOf, get_kv-set_kv}
use yh_extension_manager_v.World.Reliable.{Reliable}
use yh_extension_manager_v.HostApi.Kv.{authorize_key}
use yh_extension_manager_v.HostApi.Kv.Namespace.{target_plugin_id-build_kv_namespace}
use yh_extension_manager_v.HostApi.Auth.{
  header_string, plugin_host_auth_middleware, require_authenticated_plugin_id,
  sanitize_sqlite_component, validate_host_plugin_identifier,
}
use yh_extension_manager_v.Manager.Signature.{
  sign_user_context, verify_user_context_signature, verify_user_context_signature_iff,
}
use yh_extension_manager_v.Text.{str_is_empty}
use yh_extension_manager_v.Text.Utf8.{bytes}
use yh_extension_manager_v.Tests.HostApi.{
  Store, store_machine, services, deadline, host_world, ctx, chat_headers, evil_headers,
  evil_is_not_chat,
}

stores : (k : String) (v : KvEntry) (d : Dict KvEntry) → Dict.lookup k (Dict.insert k v d) ≡ some v
stores k v d = ground (arith, lookup-insert k k v d, eq_iff k k)

set_apart :
    (k j : String) (v : KvEntry) (d : Dict KvEntry)
    → (k == j) ≡ false
    → Dict.lookup j (Dict.insert k v d) ≡ Dict.lookup j d
set_apart k j v d e = ground (arith, lookup-insert k j v d)

remove_apart :
    (k j : String) (d : Dict KvEntry)
    → (k == j) ≡ false
    → Dict.lookup j (Dict.remove k d) ≡ Dict.lookup j d
remove_apart k j d e = ground (arith, lookup-remove k j d)

read_back : (a v : Option Bytes) → ◌≡◌ {A = Result String (Option Bytes)} (ok a) (ok v) → v ≡ a
read_back a v h = ground arith

abbrev entry : Store → String → Option KvEntry
entry s j = Dict.lookup j s.1

abbrev time : Store → ℕ
time s = s.0

abbrev set_entry : Bytes → Option ℕ → ℕ → KvEntry
set_entry v ttl now = record { value = v; expires_at = deadline ttl now }

at_once : (j : String) (s t : Store) → t.0 ≡ s.0 → entry t j ≡ entry s j → Persists entry time j s t
at_once j s t h e = record { later = omega (arith, h); kept = inl e }

store_laws : KvLaws services
store_laws = record {
  entry = entry;
  time = time;
  db_fault = λ s j. Persists-refl s;
  set_stores = λ k v ttl s h. (
    set_entry v ttl s.0,
    stores k (set_entry v ttl s.0) s.1,
    refl,
    λ n. ap (λ o. deadline o s.0) n,
  );
  set_other = λ k j v ttl s e. at_once j s _ refl (set_apart k j (set_entry v ttl s.0) s.1 e);
  get_reads = λ k s v h. read_back (live (Dict.lookup k s.1) s.0) v h;
  get_keeps = λ k j s. Persists-refl s;
  del_other = λ k j s e. at_once j s _ refl (remove_apart k j s.1 e);
}

abbrev key : String
key = "plugin:chat:setting"

abbrev set_request : HostKvSetRequest
set_request = record { key = key; value = "on"; ttl_secs = some 60 }

abbrev evil_request : KvRequest
evil_request = record { ctx = ctx; headers = evil_headers; action = KvAction.set set_request }

key_of_chat : target_plugin_id key ≡ some "chat"
unfolding target_plugin_id yh_extension_manager_v.Text.strip_prefix
    yh_extension_manager_v.Text.before
key_of_chat = refl

handle_kv-isolated_example :
    Persists entry time key host_world.env (handle_kv services (evil_request ∷ []) host_world).env
unfolding store_laws
handle_kv-isolated_example =
    handle_kv-isolated services store_laws "chat" key key_of_chat (evil_request ∷ []) host_world
      (evil_is_not_chat, tt)

set_works : (set_kv services ctx chat_headers set_request host_world).0 ≡ ok tt
unfolding set_kv get_kv yh_extension_manager_v.World.◌>>=◌
    yh_extension_manager_v.HostApi.Auth.require_user require_authenticated_plugin_id header_string
    Dict.lookup Dict.insert yh_extension_manager_v.Text.trim yh_extension_manager_v.Text.trim_end
    yh_extension_manager_v.Text.trim_start yh_extension_manager_v.Text.is_whitespace
    yh_extension_manager_v.Manager.get_plugin_runtime_manager verify_user_context_signature
    sign_user_context bytes yh_extension_manager_v.Text.Utf8.encode_utf8
    yh_extension_manager_v.Text.Decimal.show yh_extension_manager_v.Text.strip_prefix
    yh_extension_manager_v.Text.before yh_extension_manager_v.HostApi.Auth.require_permission
    yh_extension_manager_v.Permissions.require_plugin_permission
    yh_extension_manager_v.Permissions.check_plugin_permission
    yh_extension_manager_v.HostApi.Kv.authorize_key
    yh_extension_manager_v.HostApi.Kv.check_namespace target_plugin_id
    yh_extension_manager_v.Manager.Signature.bit_or yh_extension_manager_v.Manager.Signature.xor
    yh_extension_manager_v.Manager.Signature.fold_difference yh_extension_manager_v.Manifest.as_key
    yh_extension_manager_v.Prelude.Rows.select_one
set_works = refl

get_works :
    (get_kv services ctx chat_headers key (
      handle_kv services
        (evil_request ∷ [])
        (set_kv services ctx chat_headers set_request host_world).1)).0
    ≡ ok (record { key = key; value = some "on" })
unfolding set_kv get_kv handle_kv yh_extension_manager_v.Text.Lossy.from_utf8_lossy
    yh_extension_manager_v.World.◌>>=◌ yh_extension_manager_v.HostApi.Auth.require_user
    require_authenticated_plugin_id header_string Dict.lookup Dict.insert
    yh_extension_manager_v.Text.trim yh_extension_manager_v.Text.trim_end
    yh_extension_manager_v.Text.trim_start yh_extension_manager_v.Text.is_whitespace
    yh_extension_manager_v.Manager.get_plugin_runtime_manager verify_user_context_signature
    sign_user_context bytes yh_extension_manager_v.Text.Utf8.encode_utf8
    yh_extension_manager_v.Text.Decimal.show yh_extension_manager_v.Text.strip_prefix
    yh_extension_manager_v.Text.before yh_extension_manager_v.HostApi.Auth.require_permission
    yh_extension_manager_v.Permissions.require_plugin_permission
    yh_extension_manager_v.Permissions.check_plugin_permission
    yh_extension_manager_v.HostApi.Kv.authorize_key
    yh_extension_manager_v.HostApi.Kv.check_namespace target_plugin_id
    yh_extension_manager_v.Manager.Signature.bit_or yh_extension_manager_v.Manager.Signature.xor
    yh_extension_manager_v.Manager.Signature.fold_difference yh_extension_manager_v.Manifest.as_key
    yh_extension_manager_v.Prelude.Rows.select_one
get_works = refl

get_kv-set_kv_example : IsReadOf set_request (some "on")
get_kv-set_kv_example =
    get_kv-set_kv services store_laws "chat" ctx ctx chat_headers chat_headers set_request
      (evil_request ∷ []) host_world (record { key = key; value = some "on" }) key_of_chat set_works
      (evil_is_not_chat, tt) get_works

namespace_works :
    (build_kv_namespace store_machine ctx (record { plugin_id = "a:b"; key = "k" }) host_world).0
    ≡ ok (record { namespaced_key = "plugin:a_b:k" })
unfolding build_kv_namespace yh_extension_manager_v.World.◌>>=◌
    yh_extension_manager_v.HostApi.Auth.require_user validate_host_plugin_identifier
    yh_extension_manager_v.Text.trim yh_extension_manager_v.Text.is_whitespace
    yh_extension_manager_v.Text.is_ascii_alphanumeric
namespace_works = refl

target_plugin_id-build_kv_namespace_example :
    target_plugin_id "plugin:a_b:k" ≡ some (sanitize_sqlite_component "a:b")
target_plugin_id-build_kv_namespace_example =
    target_plugin_id-build_kv_namespace ctx (record { plugin_id = "a:b"; key = "k" }) host_world
      (record { namespaced_key = "plugin:a_b:k" }) namespace_works
