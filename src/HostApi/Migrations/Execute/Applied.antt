-- ===== src/HostApi/Migrations/Execute/Applied.antt =====
-- What the execution of a migration leaves behind.
use mathlib.Core.Path.{subst, subst⁻¹}
use mathlib.Core.Option
use yh_extension_manager_v.Prelude.{
  ℕ, String, ◌≡◌, refl, sym, ap, ◌∙◌, Option, some, List, [], ◌∷◌, length, arith,
}
use yh_extension_manager_v.Prelude.Outcome.{ok}
use yh_extension_manager_v.Prelude.Rows.{select_one}
use yh_extension_manager_v.Entities.{Db, PluginMigrationState}
use yh_extension_manager_v.World.{
  Env, Core, World, Exec, PluginRuntimeManager, pure, map_error, ◌>>=◌,
}
use yh_extension_manager_v.World.Bind.{Passed, bind-Passed}
use yh_extension_manager_v.World.Keeps.{
  Keeps, Keeps-pure, Keeps-bind, Keeps-map_error, Keeps-statement, Keeps-raise_if,
}
use yh_extension_manager_v.Handlers.{AppError, internal}
use yh_extension_manager_v.HostApi.{Services, RequestContext}
use yh_extension_manager_v.HostApi.Auth.{sanitize_sqlite_component, validate_host_plugin_identifier}
use yh_extension_manager_v.HostApi.Quiet.{Keeps-migration_id}
use yh_extension_manager_v.HostApi.Migrations.{MigrationId, is_migration, migration_id}
use yh_extension_manager_v.HostApi.Migrations.Execute.{
  HostMigrationExecuteRequest, HostMigrationExecuteResponse, split_sql_statements, execute_all,
  run_statements, execute_loaded, record_migration, execute_migration,
}
use yh_extension_manager_v.HostApi.Migrations.Execute.Executed.{apply_all, all_applied}
use yh_extension_manager_v.HostApi.Migrations.Execute.Recorded.{
  IsSameButStates, recorded_state, Keeps-record_migration,
}
use yh_extension_manager_v.HostApi.Migrations.Execute.Loaded.{
  IsFileOf, Keeps-load_installed_migration_sql, load_installed_migration_sql-IsFileOf,
}

-- the identifier of a request, from its sanitized parts
abbrev pub migration_of : HostMigrationExecuteRequest → MigrationId
migration_of p = record {
  plugin_id = sanitize_sqlite_component p.plugin_id;
  scope = sanitize_sqlite_component p.scope;
  migration_key = sanitize_sqlite_component p.migration_key;
}

same_core : (c d : Core) (db : Db) → c.db ≡ db → c.manager ≡ d.manager → c ≡ record d { db = db }
same_core c d db e f = ground arith

module _ {E : Env} (S : Services E) where
  -- What is known of a migration whose execution returned `r`, where the program kept `c` before
  -- and keeps `d` after: all statements of the text of the migration's file ran on the tables, in
  -- their order; the rest of what the program keeps is unchanged but for the states of migrations,
  -- where the returned state is stored for this migration.
  pub record IsApplied (id : MigrationId) (c : Core) (r : HostMigrationExecuteResponse) (d : Core)
      : Type 0 where
    pub sql : String
    pub file : IsFileOf E id c.db sql
    pub count : r.executed_statements ≡ length (split_sql_statements sql)
    pub others : IsSameButStates S (record c { db = apply_all S (split_sql_statements sql) c.db }) d
    pub stored :
        Option.map (λ m. m.state_json) (select_one (is_migration id) d.db.migration_states)
        ≡ some r.state_json

  abbrev response : ℕ → PluginMigrationState → HostMigrationExecuteResponse
  response n stored = record {
    plugin_id = stored.plugin_id;
    scope = stored.scope;
    migration_key = stored.migration_key;
    status = "applied";
    state_json = stored.state_json;
    executed_statements = n;
  }

  finish : MigrationId → Option String → ℕ → Exec E AppError HostMigrationExecuteResponse
  finish id description n = do
    stored ← record_migration S id description n
    pure (response n stored)

  finished :
      (id : MigrationId) (description : Option String) (sql : String) (c : Core) (w : World E)
      (r : HostMigrationExecuteResponse)
      → IsFileOf E id c.db sql
      → w.core ≡ record c { db = apply_all S (split_sql_statements sql) c.db }
      → (finish id description (length (split_sql_statements sql)) w).0 ≡ ok r
      → IsApplied id c r (finish id description (length (split_sql_statements sql)) w).1.core
  unfolding finish ◌>>=◌
  finished id description sql c w r file e h =
      let n = length (split_sql_statements sql) in
      let run : Core = record c { db = apply_all S (split_sql_statements sql) c.db } in
      let p : Passed (record_migration S id description n) (λ m. pure (response n m)) w =
        bind-Passed _ _ w r h in
      let same : ok (response n p.value) ≡ ok r = ap (λ x. x.0) (sym p.rest) ∙ h in
      let recorded = recorded_state S id description n w p.value (ap (λ x. x.0) p.first) in
      let kept =
        (Keeps-record_migration S run id description n).at w
          (subst⁻¹ (IsSameButStates S run) e refl) in
      subst⁻¹ (λ x. IsApplied id c r x.1.core) p.rest
        (record {
          sql = sql;
          file = file;
          count = ground (arith, same);
          others = subst (λ x. IsSameButStates S run x.1.core) p.first kept;
          stored = ground (arith, same, recorded, ap (λ x. x.1.core) p.first);
        })

  identified :
      (ctx : RequestContext) (p : HostMigrationExecuteRequest) (w : World E) (id : MigrationId)
      → (migration_id E ctx p.plugin_id p.scope p.migration_key w).0 ≡ ok id
      → id ≡ migration_of p
  unfolding migration_id validate_host_plugin_identifier sanitize_sqlite_component ◌>>=◌
  identified ctx p w id h = ground arith

  Keeps-execute_all :
      (m : Option PluginRuntimeManager) (sqls : List String)
      → Keeps (λ c. c.manager ≡ m) (execute_all S sqls)
  unfolding execute_all
  Keeps-execute_all m [] = Keeps-pure _
  Keeps-execute_all m (sql ∷ sqls) =
      Keeps-bind _ _ (Keeps-map_error _ _ (Keeps-statement _ (λ c h. h)))
        (λ u. Keeps-execute_all m sqls)

  -- After the statements all is as before but for what they do to the tables.
  core-execute_all :
      (sqls : List String) (w : World E)
      → (execute_all S sqls w).0 ≡ ok tt
      → (execute_all S sqls w).1.core ≡ record w.core { db = apply_all S sqls w.core.db }
  core-execute_all sqls w h =
      same_core (execute_all S sqls w).1.core w.core (apply_all S sqls w.core.db)
        (all_applied S sqls w h) ((Keeps-execute_all w.core.manager sqls).at w refl)

  executed :
      (id : MigrationId) (description : Option String) (sql : String) (w : World E)
      (r : HostMigrationExecuteResponse)
      → IsFileOf E id w.core.db sql
      → (run_statements S id description sql w).0 ≡ ok r
      → IsApplied id w.core r (run_statements S id description sql w).1.core
  unfolding run_statements finish
  executed id description sql w r file h =
      let p =
        bind-Passed (execute_all S (split_sql_statements sql))
          (λ u. finish id description (length (split_sql_statements sql))) w r h in
      let e =
        ap (λ x. x.1.core) (sym p.first)
        ∙ core-execute_all (split_sql_statements sql) w (ap (λ x. x.0) p.first) in
      subst⁻¹ (λ x. IsApplied id w.core r x.1.core) p.rest
        (finished id description sql w.core p.world r file e (ap (λ x. x.0) (sym p.rest) ∙ h))

  -- A first part that changes nothing that the program keeps does not change what the rest applies.
  after_quiet :
      {A : Type 0} (id : MigrationId) (r : HostMigrationExecuteResponse) (m : Exec E AppError A)
      (f : A → Exec E AppError HostMigrationExecuteResponse) (w : World E)
      → (m w).1.core ≡ w.core
      → ((a : A) (w' : World E)
          → (m w).0 ≡ ok a
          → w'.core ≡ w.core
          → (f a w').0 ≡ ok r
          → IsApplied id w'.core r (f a w').1.core)
      → ((m >>= f) w).0 ≡ ok r
      → IsApplied id w.core r ((m >>= f) w).1.core
  after_quiet id r m f w q k h =
      let p = bind-Passed m f w r h in
      subst⁻¹ (λ x. IsApplied id w.core r x.1.core) p.rest
        (subst (λ c. IsApplied id c r (f p.value p.world).1.core)
          (ap (λ x. x.1.core) (sym p.first) ∙ q)
          (k p.value p.world (ap (λ x. x.0) p.first) (ap (λ x. x.1.core) (sym p.first) ∙ q)
            (ap (λ x. x.0) (sym p.rest) ∙ h)))

  loaded_text :
      (m : Exec E String String) (w : World E) (sql : String)
      → (map_error internal m w).0 ≡ ok sql
      → (m w).0 ≡ ok sql
  unfolding ◌>>=◌
  loaded_text m w sql h = ground arith

  loaded :
      (id : MigrationId) (description : Option String) (w : World E)
      (r : HostMigrationExecuteResponse)
      → (execute_loaded S id description w).0 ≡ ok r
      → IsApplied id w.core r (execute_loaded S id description w).1.core
  unfolding execute_loaded
  loaded id description w r h =
      let quiet =
        (Keeps-map_error {P = λ c. c ≡ w.core} internal _
            (Keeps-load_installed_migration_sql id)).at
          w refl in
      after_quiet id r _ _ w quiet
        (λ sql w1 e k h1.
          after_quiet id r _ _ w1 ((Keeps-raise_if {P = λ c. c ≡ w1.core} _ _).at w1 refl)
            (λ u w2 e2 k2 h2.
              executed id description sql w2 r
                (subst⁻¹ (λ c. IsFileOf E id c.db sql) (k2 ∙ k)
                  (load_installed_migration_sql-IsFileOf id w sql (loaded_text _ w sql e)))
                h2)
            h1)
        h

  -- A migration whose execution returns was applied: all statements of its file, which is named by
  -- the sanitized scope and key of the request in the package of the current version of the
  -- sanitized plugin, ran on the tables in their order, and their number is returned; but for what
  -- they do, the tables, the manager and its handles are as they were, except for the states of
  -- migrations, where the returned state is stored under that plugin, scope and key.
  pub execute_migration-IsApplied :
      (ctx : RequestContext) (p : HostMigrationExecuteRequest) (w : World E)
      (r : HostMigrationExecuteResponse)
      → (execute_migration S ctx p w).0 ≡ ok r
      → IsApplied (migration_of p) w.core r (execute_migration S ctx p w).1.core
  unfolding execute_migration
  execute_migration-IsApplied ctx p w r h =
      after_quiet (migration_of p) r _ _ w
        ((Keeps-migration_id {P = λ c. c ≡ w.core} ctx p.plugin_id p.scope p.migration_key).at w
          refl)
        (λ id w1 e k h1.
          subst (λ i. IsApplied i w1.core r (execute_loaded S id p.description w1).1.core)
            (identified ctx p w id e) (loaded id p.description w1 r h1))
        h
