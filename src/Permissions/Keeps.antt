-- ===== src/Permissions/Keeps.antt =====
-- What saving grants leaves alone.
use yh_extension_manager_v.Prelude.{ℕ, String, Option, none, some, List, [], ◌∷◌}
use yh_extension_manager_v.Entities.{PluginPermissionGrant}
use yh_extension_manager_v.World.{Env, Core}
use yh_extension_manager_v.World.Keeps
use yh_extension_manager_v.World.Keeps.{Keeps}
use yh_extension_manager_v.Permissions.{
  PluginPermissionGrantItem, save_grant, replace_grant, replace_grants,
  replace_plugin_permission_grants,
}

abbrev pub with_grants : Core → List PluginPermissionGrant → Core
with_grants c rows = record c { db = record c.db { grants = rows } }

module _ {E : Env} {P : Core → Type 0}
    (k : (c : Core) (rows : List PluginPermissionGrant) → P c → P (with_grants c rows)) where
  Keeps-save_grant :
      (now : ℕ) (q : String) (g : PluginPermissionGrantItem) (r : Option PluginPermissionGrant)
      → Keeps P (save_grant E now q g r)
  unfolding save_grant
  Keeps-save_grant now q g none =
      Keeps.Keeps-bind _ _ (Keeps.Keeps-step _) (λ id. Keeps.Keeps-statement _ (λ c. k c _))
  Keeps-save_grant now q g (some r) = Keeps.Keeps-statement _ (λ c. k c _)

  Keeps-replace_grant :
      (now : ℕ) (q : String) (g : PluginPermissionGrantItem) → Keeps P (replace_grant E now q g)
  unfolding replace_grant
  Keeps-replace_grant now q g =
      Keeps.Keeps-bind _ _ (Keeps.Keeps-query _) (λ r. Keeps-save_grant now q g r)

  Keeps-replace_grants :
      (now : ℕ) (q : String) (gs : List PluginPermissionGrantItem)
      → Keeps P (replace_grants E now q gs)
  unfolding replace_grants
  Keeps-replace_grants now q [] = Keeps.Keeps-pure _
  Keeps-replace_grants now q (g ∷ gs) =
      Keeps.Keeps-bind _ _ (Keeps-replace_grant now q g) (λ u. Keeps-replace_grants now q gs)

  -- Saving grants keeps what a change of their table keeps.
  pub Keeps-replace_plugin_permission_grants :
      (q : String) (gs : List PluginPermissionGrantItem)
      → Keeps P (replace_plugin_permission_grants E q gs)
  unfolding replace_plugin_permission_grants
  Keeps-replace_plugin_permission_grants q gs =
      Keeps.Keeps-bind _ _ (Keeps.Keeps-step _) (λ now. Keeps-replace_grants now q gs)
