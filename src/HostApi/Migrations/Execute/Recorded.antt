-- ===== src/HostApi/Migrations/Execute/Recorded.antt =====
-- What is recorded of a migration.
use yh_extension_manager_v.Prelude.{
  ℕ, String, ◌≡◌, refl, ap, Bool, true, ◌&&◌, Option, none, some, List, [], ◌∷◌, ◌++◌, ◌==◌, eq_iff,
  eq_refl, arith,
}
use yh_extension_manager_v.Prelude.Outcome.{ok}
use yh_extension_manager_v.Prelude.Rows.{select_one, update_one}
use yh_extension_manager_v.Prelude.Rows.Keyed.{Keys, select_one-update, select_one-insert_new}
use yh_extension_manager_v.Entities.{PluginMigrationState}
use yh_extension_manager_v.World.{Env, Core, World, ◌>>=◌}
use yh_extension_manager_v.World.Keeps.{
  Keeps, keeps_rules, Keeps-bind, Keeps-step, Keeps-map_error, Keeps-statement,
}
use yh_extension_manager_v.HostApi.{Services}
use yh_extension_manager_v.HostApi.Quiet.{Keeps-find_migration}
use yh_extension_manager_v.HostApi.Migrations.{
  MigrationId, is_migration, set_state, find_migration, update_migration, insert_migration,
}
use yh_extension_manager_v.HostApi.Migrations.Execute.{store_migration, record_migration}

abbrev same_migration : MigrationId → MigrationId → Bool
same_migration i j =
    i.plugin_id == j.plugin_id && i.scope == j.scope && i.migration_key == j.migration_key

same_migration_sym : (i j : MigrationId) → same_migration i j ≡ same_migration j i
same_migration_sym i j = ground (
  arith,
  eq_iff i.plugin_id j.plugin_id,
  eq_iff j.plugin_id i.plugin_id,
  eq_iff i.scope j.scope,
  eq_iff j.scope i.scope,
  eq_iff i.migration_key j.migration_key,
  eq_iff j.migration_key i.migration_key,
)

is_migration_same :
    (i j : MigrationId) (x : PluginMigrationState)
    → is_migration i x ≡ true
    → is_migration j x ≡ same_migration i j
is_migration_same i j x h = ground (
  arith,
  eq_iff x.plugin_id i.plugin_id,
  eq_iff x.scope i.scope,
  eq_iff x.migration_key i.migration_key,
)

abbrev migration_keys : Keys PluginMigrationState MigrationId
migration_keys = record {
  fits = is_migration;
  same = same_migration;
  same_sym = same_migration_sym;
  fits_same = is_migration_same;
}

same_self : (i : MigrationId) → same_migration i i ≡ true
same_self i = ground (arith, eq_refl i.plugin_id, eq_refl i.scope, eq_refl i.migration_key)

module _ {E : Env} (S : Services E) where
  stored_state :
      (id : MigrationId) (state_json : String) (model : PluginMigrationState)
      (existing : Option PluginMigrationState) (w : World E) (m : PluginMigrationState)
      → is_migration id model ≡ true
      → select_one (is_migration id) w.core.db.migration_states ≡ existing
      → (store_migration S id state_json model existing w).0 ≡ ok m
      → select_one
          (is_migration id)
          (store_migration S id state_json model existing w).1.core.db.migration_states
        ≡ some m
  unfolding store_migration update_migration insert_migration ◌>>=◌
  stored_state id state_json model (some x) w m fit e h = ground (
    arith,
    same_self id,
    select_one-update migration_keys id id (set_state (E.now w.env).0 state_json)
        w.core.db.migration_states x (λ x. refl) e,
  )
  stored_state id state_json model none w m fit e h = ground (
    arith,
    same_self id,
    select_one-insert_new migration_keys id id w.core.db.migration_states model fit e,
  )

  pub recorded_state :
      (id : MigrationId) (description : Option String) (n : ℕ) (w : World E)
      (m : PluginMigrationState)
      → (record_migration S id description n w).0 ≡ ok m
      → select_one
          (is_migration id)
          (record_migration S id description n w).1.core.db.migration_states
        ≡ some m
  unfolding record_migration find_migration ◌>>=◌
  recorded_state id description n w m h =
      let s1 = (E.now w.env).1 in
      let s2 = (E.uuid_v7 s1).1 in
      let s3 = (E.now s2).1 in
      let s4 = (E.now s3).1 in
      let state_json = S.applied_json description (E.now w.env).0 n in
      let model : PluginMigrationState = record {
        id = (E.uuid_v7 s1).0;
        plugin_id = id.plugin_id;
        scope = id.scope;
        migration_key = id.migration_key;
        state_json = state_json;
        created_at = (E.now s2).0;
        updated_at = (E.now s3).0;
      } in
      ground (
        arith,
        stored_state id state_json model (select_one (is_migration id) w.core.db.migration_states)
            (record w { env = (E.db_fault s4).1 }) m (same_self id) refl,
      )

  -- All that the program keeps is as in `d` but for the states of migrations.
  abbrev pub IsSameButStates : Core → Core → Type 0
  IsSameButStates d c =
      c ≡ record d { db = record d.db { migration_states = c.db.migration_states } }

  with_states :
      (d c : Core) (rows : List PluginMigrationState)
      → IsSameButStates d c
      → IsSameButStates d (record c { db = record c.db { migration_states = rows } })
  with_states d c rows h =
      ap {A = Core} (λ e. record e { db = record e.db { migration_states = rows } }) h

  Keeps-store_migration :
      (d : Core) (id : MigrationId) (s : String) (model : PluginMigrationState)
      (existing : Option PluginMigrationState)
      → Keeps (IsSameButStates d) (store_migration S id s model existing)
  unfolding store_migration update_migration insert_migration
  Keeps-store_migration d id s model none = Keeps-map_error _ _ (
      Keeps-statement {P = IsSameButStates d} _
        (λ c h. with_states d c (c.db.migration_states ++ model ∷ []) h))
  Keeps-store_migration d id s model (some x) = Keeps-bind _ _ (Keeps-step _) (λ now.
      Keeps-map_error _ _ (
        Keeps-statement {P = IsSameButStates d} _ (λ c h.
          with_states d c (update_one (is_migration id) (set_state now s) c.db.migration_states)
            h)))

  pub Keeps-record_migration :
      (d : Core) (id : MigrationId) (description : Option String) (n : ℕ)
      → Keeps (IsSameButStates d) (record_migration S id description n)
  unfolding record_migration
  Keeps-record_migration d id description n =
      search (keeps_rules, Keeps-find_migration, Keeps-store_migration) depth 30
