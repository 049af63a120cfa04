-- ===== src/HostApi/Migrations/Execute/Loaded.antt =====
-- Which file the SQL of a migration is read from.
use yh_extension_manager_v.Prelude.{String, ◌<>◌, ◌≡◌, sym, ap, ◌∙◌, Option, some, arith}
use yh_extension_manager_v.Prelude.Outcome.{Result, ok}
use yh_extension_manager_v.Prelude.Rows.{select_one}
use yh_extension_manager_v.FilePath.{join}
use yh_extension_manager_v.Entities.{Db, PluginRegistry, PluginVersion}
use yh_extension_manager_v.World.{Env, World, query, or_raise, os, map_error, ◌>>=◌}
use yh_extension_manager_v.World.Bind.{bind-known}
use yh_extension_manager_v.World.Keeps.{Keeps, keeps_rules}
use yh_extension_manager_v.World.{Core}
use yh_extension_manager_v.Registry.{
  by_id, by_version, get_registry_by_id, get_version_by_plugin_and_version,
}
use yh_extension_manager_v.HostApi.Migrations.{MigrationId}
use yh_extension_manager_v.HostApi.Migrations.Execute.{load_installed_migration_sql}

-- where a version of a plugin has the file of a migration
abbrev pub migration_file : MigrationId → PluginVersion → String
migration_file id version =
    join (join (join version.package_path "migrations") id.scope) (id.migration_key <> ".sql")

module _ (E : Env) where
  -- The text is what a read of the migration's file returned: the file is named by the
  -- migration's scope and key, in the package of the version that is the plugin's current one.
  pub record IsFileOf (id : MigrationId) (db : Db) (sql : String) : Type 0 where
    pub plugin : PluginRegistry
    pub current_version : String
    pub version : PluginVersion
    pub state : E.State
    pub registered : select_one (by_id id.plugin_id) db.registry ≡ some plugin
    pub current : plugin.current_version ≡ some current_version
    pub installed : select_one (by_version id.plugin_id current_version) db.versions ≡ some version
    pub content : (E.read_to_string (migration_file id version) state).0 ≡ ok sql

module _ {E : Env} where
  pub Keeps-load_installed_migration_sql :
      {P : Core → Type 0} (id : MigrationId) → Keeps P (load_installed_migration_sql E id)
  unfolding load_installed_migration_sql get_registry_by_id get_version_by_plugin_and_version
  Keeps-load_installed_migration_sql id = search keeps_rules depth 60

  answered :
      {A : Type 0} (f : Db → A) (g : String → String) (w w' : World E) (a : A)
      → map_error g (query f) w ≡ (ok a, w')
      → (f w.core.db ≡ a) × (w'.core ≡ w.core)
  unfolding ◌>>=◌
  answered f g w w' a h = (ground arith, ground arith)

  there_is :
      {A : Type 0} (o : Option A) (e : String) (w w' : World E) (a : A)
      → or_raise o e w ≡ (ok a, w')
      → (o ≡ some a) × (w'.core ≡ w.core)
  unfolding ◌>>=◌
  there_is o e w w' a h = (ground arith, ground arith)

  returned :
      {A : Type 0} (f : E.State → Result String A × E.State) (g : String → String) (w : World E)
      (a : A)
      → (map_error g (os f) w).0 ≡ ok a
      → (f w.env).0 ≡ ok a
  unfolding ◌>>=◌
  returned f g w a h = ground arith

  file_of :
      (id : MigrationId) (w w1 w2 w3 w4 w5 : World E) (sql : String) (found : Option PluginRegistry)
      (plugin : PluginRegistry) (current : String) (stored : Option PluginVersion)
      (version : PluginVersion)
      → (select_one (by_id id.plugin_id) w.core.db.registry ≡ found) × (w1.core ≡ w.core)
      → (found ≡ some plugin) × (w2.core ≡ w1.core)
      → (plugin.current_version ≡ some current) × (w3.core ≡ w2.core)
      → (select_one (by_version id.plugin_id current) w3.core.db.versions ≡ stored)
        × (w4.core ≡ w3.core)
      → (stored ≡ some version) × (w5.core ≡ w4.core)
      → (E.read_to_string (migration_file id version) w5.env).0 ≡ ok sql
      → IsFileOf E id w.core.db sql
  file_of id w w1 w2 w3 w4 w5 sql found plugin current stored version a b c d e content = record {
    plugin = plugin;
    current_version = current;
    version = version;
    state = w5.env;
    registered = a.0 ∙ b.0;
    current = c.0;
    installed =
        ap (λ (k : Core). select_one (by_version id.plugin_id current) k.db.versions)
          (sym (c.1 ∙ b.1 ∙ a.1))
        ∙ d.0
        ∙ e.0;
    content = content;
  }

  -- The text that is loaded is the content of the migration's file.
  pub load_installed_migration_sql-IsFileOf :
      (id : MigrationId) (w : World E) (sql : String)
      → (load_installed_migration_sql E id w).0 ≡ ok sql
      → IsFileOf E id w.core.db sql
  unfolding load_installed_migration_sql get_registry_by_id get_version_by_plugin_and_version
  load_installed_migration_sql-IsFileOf id w sql h = bind-known _ _ w sql h (λ found w1 e1 h1.
      bind-known _ _ w1 sql h1 (λ plugin w2 e2 h2. bind-known _ _ w2 sql h2 (λ current w3 e3 h3.
        bind-known _ _ w3 sql h3 (λ stored w4 e4 h4. bind-known _ _ w4 sql h4 (λ version w5 e5 h5.
          file_of id w w1 w2 w3 w4 w5 sql found plugin current stored version
            (answered (λ db. select_one (by_id id.plugin_id) db.registry) _ w w1 found e1)
            (there_is found _ w1 w2 plugin e2) (there_is plugin.current_version _ w2 w3 current e3)
            (answered (λ db. select_one (by_version id.plugin_id current) db.versions) _ w3 w4
              stored e4)
            (there_is stored _ w4 w5 version e5) (returned _ _ w5 sql h5))))))
