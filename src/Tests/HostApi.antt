-- ===== src/Tests/HostApi.antt =====
-- The theorems on the host API and the installation at a small machine with a key-value store.
use yh_extension_manager_v.Prelude.{
  ℕ, suc, String, ◌<>◌, ◌≡◌, ◌≢◌, ◌↔◌, ◌⊎◌, refl, sym, ◌∙◌, ◌+◌, true, false, Option, none, some,
  [], ◌∷◌, eq_iff, arith,
}
use yh_extension_manager_v.Prelude.Dict
use yh_extension_manager_v.Prelude.Dict.{Dict, lookup-insert, lookup-remove}
use yh_extension_manager_v.Prelude.Int.{ℤ}
use yh_extension_manager_v.Prelude.Outcome.{ok}
use Prim.Native.Nat.{compare}
use yh_extension_manager_v.World.{
  Env, World, Core, Bytes, PluginRuntimeManager, pure, os, map_error,
}
use yh_extension_manager_v.Handlers.{AppError}
use yh_extension_manager_v.HostApi.{Services, UserInfo, RequestContext, Headers}
use yh_extension_manager_v.HostApi.Kv.Store.{KvEntry, live}
use yh_extension_manager_v.HostApi.Kv.Namespace.{validate_host_plugin_identifier_iff}
use yh_extension_manager_v.HostApi.Auth.{
  header_string, plugin_host_auth_middleware, require_authenticated_plugin_id,
  sanitize_sqlite_component, validate_host_plugin_identifier,
}
use yh_extension_manager_v.HostApi.Auth.Signed.{IsTrusted, plugin_host_auth_middleware-IsTrusted}
use yh_extension_manager_v.HostApi.Auth.Caller.{
  IsCaller, caller_named, require_authenticated_plugin_id-iff-IsCaller,
}
use yh_extension_manager_v.Manager.Signature.{
  sign_user_context, verify_user_context_signature, verify_user_context_signature_iff,
}
use yh_extension_manager_v.Text.{str_is_empty}
use yh_extension_manager_v.Text.Utf8.{bytes}
use yh_extension_manager_v.Entities.{PluginPermissionGrant}
use yh_extension_manager_v.Tests.{machine_on, core, handle, manager}

-- A clock and a key-value store whose entries expire.
abbrev pub Store : Type 0
Store = ℕ × Dict KvEntry

abbrev pub store_machine : Env
store_machine = machine_on Store (λ s. s.0) (λ s. (suc s.0, s.1)) true

abbrev pub deadline : Option ℕ → ℕ → Option ℕ
deadline none now = none
deadline (some ttl) now = some (now + ttl)

-- The signature is the text that is signed, with the secret in front.
abbrev pub services : Services store_machine
services = record {
  hmac_sha256_hex = λ secret t. secret <> "|" <> t;
  base64_decode = λ t. ok [];
  kv_set = λ k v ttl s.
      (ok tt, (s.0, Dict.insert k (record { value = v; expires_at = deadline ttl s.0 }) s.1));
  kv_get = λ k s. (ok (live (Dict.lookup k s.1) s.0), s);
  kv_del = λ k s. (ok true, (s.0, Dict.remove k s.1));
  Storage = String;
  hub_ready = λ s. true;
  create_user_storage = λ u r s. (ok u, s);
  vfs_read = λ d p s. (ok [], s);
  vfs_write = λ d p b s. (ok tt, s);
  UserId = ℕ;
  user_compare = compare;
  parse_user_id = λ t. ok 1;
  get_user_by_id = λ u s. (ok none, s);
  has_permission = λ u r p s. (ok true, s);
  send_notification = λ n s. (ok "n", s);
  execute = λ sql db. record db { migration_states = [] };
  applied_json = λ d t n. "{}";
}

abbrev pub granted : String → PluginPermissionGrant
granted key = record {
  id = key;
  plugin_id = "chat";
  permission_key = key;
  granted = true;
  created_at = 1;
  updated_at = 1;
}

abbrev pub host_core : Core
host_core =
    let c = core true "running" (("chat", handle) ∷ []) in
    record c {
      db = record c.db {
        grants =
            granted "kv-write"
            ∷ granted "kv-read"
            ∷ granted "db-shared-write"
            ∷ granted "db-shared-read"
            ∷ granted "db-sqlite"
            ∷ [];
      };
    }

abbrev pub host_world : World store_machine
host_world = record { core = host_core; env = (5, []) }

abbrev pub secret_manager : PluginRuntimeManager
secret_manager = manager (("chat", handle) ∷ [])

abbrev pub alice : UserInfo
alice = record { user_id = "alice"; username = some "Alice"; role_id = ℤ.pos 2 }

abbrev pub ctx : RequestContext
ctx = record {
  client_id = some "plugin-runtime";
  token = some "secret";
  user_id = some "alice";
  user_info = some alice;
}

abbrev pub chat_headers : Headers
chat_headers =
    ("Authorization", some "Bearer secret")
    ∷ ("X-Plugin-ID", some "chat")
    ∷ ("X-Plugin-ID-Signature", some "secret|chat::0")
    ∷ []

abbrev pub evil_headers : Headers
evil_headers = ("X-Plugin-ID", some "evil") ∷ ("X-Plugin-ID-Signature", some "secret|evil::0") ∷ []

verify_user_context_signature_iff_example :
    (verify_user_context_signature services.hmac_sha256_hex secret_manager "chat" ""
        (ℤ.pos 0)
        "secret|chat::0"
      ≡ true)
    ↔ (bytes (sign_user_context services.hmac_sha256_hex secret_manager "chat" "" (ℤ.pos 0))
        ≡ bytes "secret|chat::0")
verify_user_context_signature_iff_example =
    verify_user_context_signature_iff services.hmac_sha256_hex secret_manager "chat" "" (ℤ.pos 0)
      "secret|chat::0"

-- it is a signature that is accepted
accepted :
    verify_user_context_signature services.hmac_sha256_hex secret_manager "chat" ""
      (ℤ.pos 0)
      "secret|chat::0"
    ≡ true
unfolding verify_user_context_signature bytes yh_extension_manager_v.Text.Decimal.show
accepted = refl

plugin_host_auth_middleware-IsTrusted_example :
    (plugin_host_auth_middleware services {F = AppError} chat_headers ctx
        (λ c. pure c.token)
        (pure none)
        host_world
      ≡ pure none host_world)
    ⊎ ((ctx' : RequestContext) × (plugin_host_auth_middleware services {F = AppError} chat_headers
            ctx
            (λ c. pure c.token)
            (pure none)
            host_world
          ≡ pure ctx'.token host_world)
        × IsTrusted services chat_headers secret_manager ctx')
plugin_host_auth_middleware-IsTrusted_example =
    plugin_host_auth_middleware-IsTrusted services chat_headers ctx (λ c. pure c.token) (pure none)
      host_world secret_manager refl

require_authenticated_plugin_id-iff-IsCaller_example :
    ((require_authenticated_plugin_id services chat_headers host_world).0 ≡ ok "chat")
    ↔ IsCaller services chat_headers secret_manager "chat"
require_authenticated_plugin_id-iff-IsCaller_example =
    require_authenticated_plugin_id-iff-IsCaller services chat_headers host_world secret_manager
      "chat" refl

is_chat : (require_authenticated_plugin_id services chat_headers host_world).0 ≡ ok "chat"
unfolding require_authenticated_plugin_id yh_extension_manager_v.World.◌>>=◌ header_string
    Dict.lookup yh_extension_manager_v.Text.trim yh_extension_manager_v.Text.is_whitespace
    yh_extension_manager_v.Manager.get_plugin_runtime_manager verify_user_context_signature bytes
    yh_extension_manager_v.Text.Decimal.show
is_chat = refl

evil_header : header_string evil_headers "X-Plugin-ID" ≡ some "evil"
unfolding header_string Dict.lookup yh_extension_manager_v.Text.trim
    yh_extension_manager_v.Text.is_whitespace
evil_header = refl

not_chat : ◌≡◌ {A = Option String} (some "evil") (some "chat") → ⊥
not_chat h = ground (arith, eq_iff "evil" "chat")

pub evil_is_not_chat :
    (w : World store_machine)
    → (require_authenticated_plugin_id services evil_headers w).0 ≢ ok "chat"
evil_is_not_chat w h = not_chat (sym evil_header ∙ caller_named services evil_headers w "chat" h)

validate_host_plugin_identifier_iff_example :
    (validate_host_plugin_identifier "a b" "plugin_id" ≡ ok (sanitize_sqlite_component "a b"))
    ↔ (str_is_empty "a b" ≡ false)
validate_host_plugin_identifier_iff_example = validate_host_plugin_identifier_iff "a b" "plugin_id"
