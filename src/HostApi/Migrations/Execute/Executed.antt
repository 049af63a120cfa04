-- ===== src/HostApi/Migrations/Execute/Executed.antt =====
-- Which statements of a migration are executed.
use mathlib.Core.List.{append-nil}
use yh_extension_manager_v.Prelude.{
  String, ◌≡◌, refl, sym, ap, ◌∙◌, Option, none, some, List, [], ◌∷◌, ◌++◌, arith,
}
use yh_extension_manager_v.Prelude.Outcome.{ok}
use yh_extension_manager_v.Entities.{Db}
use yh_extension_manager_v.World.{Env, World, ◌>>=◌}
use yh_extension_manager_v.HostApi.{Services}
use yh_extension_manager_v.HostApi.Migrations.Execute.{execute_all}

module _ {E : Env} (S : Services E) where
  -- What the statements do to the tables, one after the other.
  unfoldable pub apply_all : List String → Db → Db
  apply_all [] db = db
  apply_all (sql ∷ rest) db = apply_all rest (S.execute sql db)

  -- What is known of an execution: the statements `done` ran, the statements `left` did not.
  pub record Executed (sqls : List String) (w : World E) : Type 0 where
    pub done : List String
    pub left : List String
    pub all : sqls ≡ done ++ left
    pub effect : (execute_all S sqls w).1.core.db ≡ apply_all done w.core.db
    pub complete : (execute_all S sqls w).0 ≡ ok tt → left ≡ []

  Executed-first :
      (sql : String) (rest : List String) (w : World E) (fault : Option String)
      → (E.db_fault w.env).0 ≡ fault
      → ((w' : World E) → Executed rest w')
      → Executed (sql ∷ rest) w
  unfolding execute_all apply_all ◌>>=◌
  Executed-first sql rest w none e k =
      let w' : World E = record {
        core = record w.core { db = S.execute sql w.core.db };
        env = (E.db_fault w.env).1;
      } in
      let r = k w' in
      record {
        done = sql ∷ r.done;
        left = r.left;
        all = ap (λ l. sql ∷ l) r.all;
        effect = ground (arith, r.effect);
        complete = λ h. r.complete (ground arith);
      }
  Executed-first sql rest w (some x) e k = record {
    done = [];
    left = sql ∷ rest;
    all = refl;
    effect = ground arith;
    complete = λ h. ground arith;
  }

  -- Whatever the database does, the statements of a migration that were executed are the first ones,
  -- in their order; their effect on the tables stays, whether or not the execution succeeds; and if
  -- it succeeds, no statement is left.
  pub execute_all-Executed : (sqls : List String) (w : World E) → Executed sqls w
  unfolding execute_all apply_all ◌>>=◌
  execute_all-Executed [] w = record {
    done = [];
    left = [];
    all = refl;
    effect = refl;
    complete = λ h. refl;
  }
  execute_all-Executed (sql ∷ rest) w = Executed-first sql rest w _ refl (execute_all-Executed rest)

  pub all_applied :
      (sqls : List String) (w : World E)
      → (execute_all S sqls w).0 ≡ ok tt
      → (execute_all S sqls w).1.core.db ≡ apply_all sqls w.core.db
  all_applied sqls w h =
      let x = execute_all-Executed sqls w in
      let e : sqls ≡ x.done = x.all ∙ ap (λ l. x.done ++ l) (x.complete h) ∙ append-nil x.done in
      x.effect ∙ ap (λ l. apply_all l w.core.db) (sym e)
