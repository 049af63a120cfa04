-- ===== src/Permissions.antt =====
-- src/permissions.rs: the permissions that an administrator has granted to a plugin.
pub mod Laws
pub mod Keeps
pub mod Check
use yh_extension_manager_v.Prelude.{
  ℕ, String, ◌<>◌, Bool, true, false, not, ◌&&◌, ◌||◌, Option, none, some, List, [], ◌∷◌, ◌++◌, map,
  ◌==◌, if◌then◌else◌,
}
use yh_extension_manager_v.Prelude.Rows.{select, select_one, update_one, delete_many, count}
use yh_extension_manager_v.Manifest.{PluginPermission, as_key}
use yh_extension_manager_v.Entities.{PluginPermissionGrant, Db}
use yh_extension_manager_v.World.{
  Env, Exec, pure, raise, map_error, query, statement, step, ◌>>=◌, ◌>>◌,
}

pub record PluginPermissionGrantItem : Type 0 where
  pub permission_key : String
  pub granted : Bool

-- `granted_keys.iter().any(|value| value == &key)`
unfoldable pub any_key : String → List String → Bool
any_key key [] = false
any_key key (value ∷ rest) = value == key || any_key key rest

unfoldable pub permission_keys_to_items :
    List PluginPermission → List String → List PluginPermissionGrantItem
unfolding any_key as_key
permission_keys_to_items permissions granted_keys =
    map
      (λ permission. record {
        permission_key = as_key permission;
        granted = any_key (as_key permission) granted_keys;
      })
      permissions

abbrev pub of_plugin : String → PluginPermissionGrant → Bool
of_plugin plugin_id g = g.plugin_id == plugin_id

abbrev pub is_grant : String → String → PluginPermissionGrant → Bool
is_grant plugin_id key g = g.plugin_id == plugin_id && g.permission_key == key

-- `grant.map(|g| g.granted).unwrap_or(false)`
abbrev pub is_granted : Option PluginPermissionGrant → Bool
is_granted none = false
is_granted (some g) = g.granted

keys_of : List PluginPermissionGrant → List String
keys_of rows = map (λ g. g.permission_key) (select (λ g. g.granted) rows)

module _ (E : Env) where
  pub list_plugin_permission_grants : String → Exec E String (List PluginPermissionGrant)
  list_plugin_permission_grants plugin_id = query (λ db. select (of_plugin plugin_id) db.grants)

  -- one round of the loop: the row that is there is updated, or a new one is inserted
  pub save_grant :
      ℕ → String → PluginPermissionGrantItem → Option PluginPermissionGrant → Exec E String Unit
  save_grant now plugin_id grant (some existing) = statement (λ db. (
    tt,
    record db {
      grants =
          update_one (is_grant plugin_id grant.permission_key)
            (λ g. record g { granted = grant.granted; updated_at = now }) db.grants;
    },
  ))
  save_grant now plugin_id grant none = do
    id ← step E.uuid_v7
    statement (λ db. (
      tt,
      record db {
        grants =
            db.grants
            ++ (record {
              id = id;
              plugin_id = plugin_id;
              permission_key = grant.permission_key;
              granted = grant.granted;
              created_at = now;
              updated_at = now;
            }
                ∷ []);
      },
    ))

  pub replace_grant : ℕ → String → PluginPermissionGrantItem → Exec E String Unit
  unfolding save_grant
  replace_grant now plugin_id grant = do
    existing ← query (λ db. select_one (is_grant plugin_id grant.permission_key) db.grants)
    save_grant now plugin_id grant existing

  pub replace_grants : ℕ → String → List PluginPermissionGrantItem → Exec E String Unit
  unfolding replace_grant
  replace_grants now plugin_id [] = pure tt
  replace_grants now plugin_id (grant ∷ grants) = do
    replace_grant now plugin_id grant
    replace_grants now plugin_id grants

  unfoldable pub replace_plugin_permission_grants :
      String → List PluginPermissionGrantItem → Exec E String Unit
  unfolding replace_grants
  replace_plugin_permission_grants plugin_id grants = do
    now ← step E.now
    replace_grants now plugin_id grants

  pub granted_permission_keys : String → Exec E String (List String)
  unfolding list_plugin_permission_grants keys_of
  granted_permission_keys plugin_id = do
    grants ← list_plugin_permission_grants plugin_id
    pure (keys_of grants)

  pub delete_plugin_permission_grants : String → Exec E String ℕ
  delete_plugin_permission_grants plugin_id = statement (λ db. (
    count (of_plugin plugin_id) db.grants,
    record db { grants = delete_many (of_plugin plugin_id) db.grants },
  ))

  unfoldable pub check_plugin_permission : String → PluginPermission → Exec E String Bool
  unfolding as_key
  check_plugin_permission plugin_id required_permission = do
    grant ←
        map_error (λ e. "failed to check plugin permission: " <> e)
          (query (λ db. select_one (is_grant plugin_id (as_key required_permission)) db.grants))
    pure (is_granted grant)

  unfoldable pub check_plugin_permissions : String → List PluginPermission → Exec E String Bool
  unfolding check_plugin_permission
  check_plugin_permissions plugin_id [] = pure true
  check_plugin_permissions plugin_id (permission ∷ rest) = do
    allowed ← check_plugin_permission plugin_id permission
    if not allowed then pure false else check_plugin_permissions plugin_id rest

  unfoldable pub require_plugin_permission : String → PluginPermission → Exec E String Unit
  unfolding check_plugin_permission as_key
  require_plugin_permission plugin_id required_permission = do
    allowed ← check_plugin_permission plugin_id required_permission
    if not allowed
        then raise (
            "plugin '"
            <> plugin_id
            <> "' does not have permission '"
            <> as_key required_permission
            <> "'")
        else pure tt
