-- ===== src/HostApi/Nav.antt =====
-- src/host_api.rs: the navigation items of a plugin.
use yh_extension_manager_v.Prelude.{
  ℕ, String, ◌<>◌, ◌&&◌, Bool, true, Option, none, some, List, [], ◌∷◌, ◌++◌, map, ◌==◌,
}
use yh_extension_manager_v.Prelude.Int.{ℤ}
use yh_extension_manager_v.Prelude.Rows.{select, select_one, update_one}
use yh_extension_manager_v.Manifest.{PluginPermission}
use yh_extension_manager_v.Entities.{PluginNavItem}
use yh_extension_manager_v.World.{
  Env, Exec, pure, lift, step, query, statement, map_error, ◌>>=◌, ◌>>◌,
}
use yh_extension_manager_v.Handlers.{AppError, internal}
use yh_extension_manager_v.HostApi.{RequestContext}
use yh_extension_manager_v.HostApi.Auth.{
  require_plugin_or_user, require_permission, validate_host_plugin_identifier,
}

pub record HostNavItemUpsertRequest : Type 0 where
  pub plugin_id : String
  pub item_key : String
  pub label : String
  pub route : String
  pub icon : String
  pub visibility : String
  pub group_key : Option String
  pub position : Option String
  pub required_permission : Option String
  pub sort_order : ℤ

pub record HostNavItemResponse : Type 0 where
  pub plugin_id : String
  pub item_key : String
  pub label : String
  pub route : String
  pub icon : String
  pub visibility : String
  pub group_key : Option String
  pub position : Option String
  pub required_permission : Option String
  pub sort_order : ℤ

pub record HostNavItemListQuery : Type 0 where
  pub plugin_id : Option String

pub record HostNavItemListResponse : Type 0 where
  pub items : List HostNavItemResponse

abbrev pub is_nav_item : String → String → PluginNavItem → Bool
is_nav_item plugin_id item_key n = n.plugin_id == plugin_id && n.item_key == item_key

unfoldable pub nav_item_response : PluginNavItem → HostNavItemResponse
nav_item_response model = record {
  plugin_id = model.plugin_id;
  item_key = model.item_key;
  label = model.label;
  route = model.route;
  icon = model.icon;
  visibility = model.visibility;
  group_key = model.group_key;
  position = model.position;
  required_permission = model.required_permission;
  sort_order = model.sort_order;
}

abbrev pub set_nav : ℕ → HostNavItemUpsertRequest → PluginNavItem → PluginNavItem
set_nav now payload n = record n {
  label = payload.label;
  route = payload.route;
  icon = payload.icon;
  visibility = payload.visibility;
  group_key = payload.group_key;
  position = payload.position;
  required_permission = payload.required_permission;
  sort_order = payload.sort_order;
  updated_at = now;
}

abbrev pub new_nav : String → String → HostNavItemUpsertRequest → ℕ → String → PluginNavItem
new_nav plugin_id item_key payload now uuid = record {
  id = uuid;
  plugin_id = plugin_id;
  item_key = item_key;
  label = payload.label;
  route = payload.route;
  icon = payload.icon;
  visibility = payload.visibility;
  group_key = payload.group_key;
  position = payload.position;
  required_permission = payload.required_permission;
  sort_order = payload.sort_order;
  created_at = now;
  updated_at = now;
}

module _ (E : Env) where
  unfoldable pub save_nav_item :
      String
      → String
      → HostNavItemUpsertRequest
      → ℕ
      → Option PluginNavItem
      → Exec E AppError PluginNavItem
  save_nav_item plugin_id item_key payload now (some existing) =
      map_error (λ e. internal ("failed to update nav item: " <> e))
        (statement (λ db. (
          set_nav now payload existing,
          record db {
            nav_items =
                update_one (is_nav_item plugin_id item_key) (set_nav now payload) db.nav_items;
          },
        )))
  save_nav_item plugin_id item_key payload now none = do
    uuid ← step E.uuid_v7
    map_error (λ e. internal ("failed to insert nav item: " <> e))
        (statement (λ db. (
          new_nav plugin_id item_key payload now uuid,
          record db {
            nav_items = db.nav_items ++ new_nav plugin_id item_key payload now uuid ∷ [];
          },
        )))

  -- `host_api::upsert_nav_item`
  unfoldable pub upsert_nav_item :
      RequestContext → HostNavItemUpsertRequest → Exec E AppError HostNavItemResponse
  unfolding save_nav_item nav_item_response
  upsert_nav_item ctx payload = do
    lift (require_plugin_or_user ctx)
    plugin_id ← lift (validate_host_plugin_identifier payload.plugin_id "plugin_id")
    item_key ← lift (validate_host_plugin_identifier payload.item_key "item_key")
    require_permission E plugin_id PluginPermission.web_api
    existing ←
        map_error (λ e. internal ("failed to query nav item: " <> e))
          (query (λ db. select_one (is_nav_item plugin_id item_key) db.nav_items))
    now ← step E.now
    model ← save_nav_item plugin_id item_key payload now existing
    pure (nav_item_response model)

  -- The rows that a listing asks for; without a plugin it asks for all, with no permission.
  unfoldable pub nav_filter : Option String → Exec E AppError (PluginNavItem → Bool)
  nav_filter none = pure (λ n. true)
  nav_filter (some plugin_id) = do
    plugin_id ← lift (validate_host_plugin_identifier plugin_id "plugin_id")
    require_permission E plugin_id PluginPermission.web_api
    pure (λ n. n.plugin_id == plugin_id)

  unfoldable pub list_nav_items :
      RequestContext → HostNavItemListQuery → Exec E AppError HostNavItemListResponse
  unfolding nav_filter nav_item_response
  list_nav_items ctx request = do
    lift (require_plugin_or_user ctx)
    filter ← nav_filter request.plugin_id
    rows ←
        map_error (λ e. internal ("failed to list nav items: " <> e))
          (query (λ db. select filter db.nav_items))
    pure (record { items = map nav_item_response rows })
