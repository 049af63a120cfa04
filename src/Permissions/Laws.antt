-- ===== src/Permissions/Laws.antt =====
-- The grants as a map from a plugin and a permission key to a decision, and how the program
-- changes that map.
use mathlib.Core.Option
use yh_extension_manager_v.Prelude.{
  ℕ, String, ◌≡◌, refl, Bool, ◌&&◌, Option, none, some, List, [], ◌∷◌, ◌++◌, arith, ◌==◌, eq_iff,
  or_else, if◌then◌else◌,
}
use yh_extension_manager_v.Prelude.Outcome.{ok}
use yh_extension_manager_v.Prelude.Rows.{select_one, update_one, select_one-insert}
use yh_extension_manager_v.Entities.{PluginPermissionGrant}
use yh_extension_manager_v.World.{Env, World, ◌>>=◌}
use yh_extension_manager_v.Permissions.{
  PluginPermissionGrantItem, is_grant, save_grant, replace_grant, replace_grants,
  replace_plugin_permission_grants,
}

-- The decision for a permission of a plugin, if one is stored.
abbrev pub decision : List PluginPermissionGrant → String → String → Option Bool
decision rows q j = Option.map (λ g. g.granted) (select_one (is_grant q j) rows)

decision-update :
    (rows : List PluginPermissionGrant) (p k q j : String) (b : Bool) (now : ℕ)
    (r : PluginPermissionGrant)
    → select_one (is_grant p k) rows ≡ some r
    → decision
        (update_one (is_grant p k) (λ g. record g { granted = b; updated_at = now }) rows)
        q
        j
      ≡ (if p == q && k == j then some b else decision rows q j)
unfolding select_one update_one
decision-update [] p k q j b now r found = cc
decision-update (x ∷ rows) p k q j b now r found = ground (
  arith,
  eq_iff p q,
  eq_iff k j,
  eq_iff x.plugin_id p,
  eq_iff x.plugin_id q,
  eq_iff x.permission_key k,
  eq_iff x.permission_key j,
  decision-update rows p k q j b now r,
)

decision-insert :
    (rows : List PluginPermissionGrant) (p k q j : String) (r : PluginPermissionGrant)
    → select_one (is_grant p k) rows ≡ none
    → r.plugin_id ≡ p
    → r.permission_key ≡ k
    → decision (rows ++ r ∷ []) q j
      ≡ (if p == q && k == j then some r.granted else decision rows q j)
decision-insert rows p k q j r absent ep ek =
    rw select_one-insert
      (ground (arith, eq_iff p q, eq_iff k j, eq_iff r.plugin_id q, eq_iff r.permission_key j))

module _ {E : Env} where
  save_grant-decision :
      (now : ℕ) (p : String) (g : PluginPermissionGrantItem)
      (existing : Option PluginPermissionGrant) (w : World E) (q j : String)
      → select_one (is_grant p g.permission_key) w.core.db.grants ≡ existing
      → (save_grant E now p g existing w).0 ≡ ok tt
      → decision (save_grant E now p g existing w).1.core.db.grants q j ≡ (
          if p == q && g.permission_key == j then some g.granted else decision w.core.db.grants q j)
  unfolding save_grant ◌>>=◌
  save_grant-decision now p g (some r) w q j found h =
      ground (arith, decision-update w.core.db.grants p g.permission_key q j g.granted now r found)
  save_grant-decision now p g none w q j absent h = ground (
    arith,
    decision-insert w.core.db.grants p g.permission_key q j
        (record {
          id = (E.uuid_v7 w.env).0;
          plugin_id = p;
          permission_key = g.permission_key;
          granted = g.granted;
          created_at = now;
          updated_at = now;
        })
        absent refl refl,
  )

  -- A loop round that succeeds stores the decision of its item and no other.
  replace_grant-decision :
      (now : ℕ) (p : String) (g : PluginPermissionGrantItem) (w : World E) (q j : String)
      → (replace_grant E now p g w).0 ≡ ok tt
      → decision (replace_grant E now p g w).1.core.db.grants q j ≡ (
          if p == q && g.permission_key == j then some g.granted else decision w.core.db.grants q j)
  unfolding replace_grant ◌>>=◌
  replace_grant-decision now p g w q j h = ground (
    arith,
    save_grant-decision now p g (select_one (is_grant p g.permission_key) w.core.db.grants)
        (record w { env = (E.db_fault w.env).1 }) q j refl,
  )

-- The last decision that a list of items makes on a key.
abbrev pub last_decision : String → List PluginPermissionGrantItem → Option Bool
last_decision j [] = none
last_decision j (g ∷ gs) =
    or_else (last_decision j gs) (if g.permission_key == j then some g.granted else none)

module _ {E : Env} where
  replace_grants-decision :
      (now : ℕ) (p : String) (gs : List PluginPermissionGrantItem) (w : World E) (q j : String)
      → (replace_grants E now p gs w).0 ≡ ok tt
      → decision (replace_grants E now p gs w).1.core.db.grants q j ≡ (
          if p == q
          then or_else (last_decision j gs) (decision w.core.db.grants q j)
          else decision w.core.db.grants q j)
  unfolding replace_grants ◌>>=◌
  replace_grants-decision now p [] w q j h = ground arith
  replace_grants-decision now p (g ∷ gs) w q j h = ground (
    arith,
    replace_grant-decision now p g w q j,
    replace_grants-decision now p gs (replace_grant E now p g w).1 q j,
  )

  -- A replacement that succeeds decides each listed key of its plugin as the last item for the key
  -- says. The keys that are not listed, and all other plugins, keep their decisions.
  pub replace_plugin_permission_grants-decision :
      (p : String) (gs : List PluginPermissionGrantItem) (w : World E) (q j : String)
      → (replace_plugin_permission_grants E p gs w).0 ≡ ok tt
      → decision (replace_plugin_permission_grants E p gs w).1.core.db.grants q j ≡ (
          if p == q
          then or_else (last_decision j gs) (decision w.core.db.grants q j)
          else decision w.core.db.grants q j)
  unfolding replace_plugin_permission_grants ◌>>=◌
  replace_plugin_permission_grants-decision p gs w q j h =
      replace_grants-decision (E.now w.env).0 p gs (record w { env = (E.now w.env).1 }) q j h
