-- ===== src/World/Reliable.antt =====
-- A database that answers every statement. The handlers ignore the failure of many of their
-- statements, so that what they leave in the tables is certain on such a database only.
use yh_extension_manager_v.Prelude.{◌≡◌, none}
use yh_extension_manager_v.World.{Env}

pub record Reliable (E : Env) : Type 0 where
  pub answers : (s : E.State) → (E.db_fault s).0 ≡ none
