-- ===== src/World/Keeps.antt =====
-- Invariants of what the program keeps: one rule for each way to build an action.
use yh_extension_manager_v.Prelude.{
  ◌≡◌, refl, String, Bool, true, false, Option, none, some, if◌then◌else◌,
}
use yh_extension_manager_v.Prelude.Outcome.{Result, ok, err}
use yh_extension_manager_v.Entities.{Db}
use yh_extension_manager_v.World.{
  Env, Core, World, Exec, pure, raise, lift, gets, os, observe, step, attempt, map_error, or_raise,
  raise_if, modify, query, statement, ◌>>=◌,
}

-- `m` keeps `P`, whether it returns or fails.
pub record Keeps {E : Env} {F A : Type 0} (P : Core → Type 0) (m : Exec E F A) : Type 0 where
  pub at : (w : World E) → P w.core → P (m w).1.core

module _ {E : Env} {F A : Type 0} {P : Core → Type 0} where
  pub Keeps-pure : (a : A) → Keeps P (pure {E = E} {F = F} a)
  unfolding ◌>>=◌
  Keeps-pure a = record { at = λ w h. h }

  pub Keeps-raise : (e : F) → Keeps P (raise {E = E} {A = A} e)
  unfolding ◌>>=◌
  Keeps-raise e = record { at = λ w h. h }

  pub Keeps-lift : (r : Result F A) → Keeps P (lift {E = E} r)
  unfolding ◌>>=◌
  Keeps-lift r = record { at = λ w h. h }

  pub Keeps-gets : (f : Core → A) → Keeps P (gets {E = E} {F = F} f)
  unfolding ◌>>=◌
  Keeps-gets f = record { at = λ w h. h }

  pub Keeps-os : (f : E.State → Result F A × E.State) → Keeps P (os {E = E} f)
  unfolding ◌>>=◌
  Keeps-os f = record { at = λ w h. h }

  pub Keeps-observe : (f : E.State → A) → Keeps P (observe {E = E} {F = F} f)
  unfolding ◌>>=◌
  Keeps-observe f = record { at = λ w h. h }

  pub Keeps-step : (f : E.State → A × E.State) → Keeps P (step {E = E} {F = F} f)
  unfolding ◌>>=◌
  Keeps-step f = record { at = λ w h. h }

  pub Keeps-attempt :
      {G : Type 0} (m : Exec E F A) → Keeps P m → Keeps P (attempt {E = E} {G = G} m)
  unfolding ◌>>=◌
  Keeps-attempt m k = record { at = λ w h. k.at w h }

  pub Keeps-map_error :
      {G : Type 0} (f : F → G) (m : Exec E F A) → Keeps P m → Keeps P (map_error {E = E} f m)
  unfolding ◌>>=◌
  Keeps-map_error f m k = record { at = λ w h. k.at w h }

  pub Keeps-or_raise : (o : Option A) (e : F) → Keeps P (or_raise {E = E} o e)
  unfolding ◌>>=◌
  Keeps-or_raise none e = record { at = λ w h. h }
  Keeps-or_raise (some a) e = record { at = λ w h. h }

  pub Keeps-if :
      (b : Bool) (m n : Exec E F A) → Keeps P m → Keeps P n → Keeps P (if b then m else n)
  Keeps-if true m n km kn = km
  Keeps-if false m n km kn = kn

module _ {E : Env} {F : Type 0} {P : Core → Type 0} where
  pub Keeps-raise_if : (b : Bool) (e : F) → Keeps P (raise_if {E = E} b e)
  unfolding ◌>>=◌
  Keeps-raise_if b e = record { at = λ w h. h }

  pub Keeps-modify :
      (f : Core → Core) → ((c : Core) → P c → P (f c)) → Keeps P (modify {E = E} {F = F} f)
  unfolding ◌>>=◌
  Keeps-modify f k = record { at = λ w h. k w.core h }

module _ {E : Env} {A : Type 0} (P : Core → Type 0) where
  statement_keeps :
      (f : Db → A × Db) (w : World E) (fault : Option String)
      → (E.db_fault w.env).0 ≡ fault
      → P w.core
      → P (record w.core { db = (f w.core.db).1 })
      → P (statement f w).1.core
  unfolding ◌>>=◌
  statement_keeps f w none e h k = rw (e, statement) k
  statement_keeps f w (some x) e h k = rw (e, statement) h

module _ {E : Env} {A : Type 0} {P : Core → Type 0} where
  pub Keeps-query : (f : Db → A) → Keeps P (query {E = E} f)
  unfolding ◌>>=◌
  Keeps-query f = record { at = λ w h. h }

  -- A statement keeps what its effect on the database keeps.
  pub Keeps-statement :
      (f : Db → A × Db)
      → ((c : Core) → P c → P (record c { db = (f c.db).1 }))
      → Keeps P (statement {E = E} f)
  Keeps-statement f k = record {
    at = λ w h. statement_keeps P f w (E.db_fault w.env).0 refl h (k w.core h);
  }

module _ {E : Env} {F A B : Type 0} {P : Core → Type 0} where
  continue_keeps :
      (r : Result F A) (f : A → Exec E F B) (w : World E)
      → ((a : A) → Keeps P (f a))
      → P w.core
      → P ((lift r >>= f) w).1.core
  unfolding ◌>>=◌
  continue_keeps (ok a) f w k h = (k a).at w h
  continue_keeps (err e) f w k h = h

  pub Keeps-bind :
      (m : Exec E F A) (f : A → Exec E F B)
      → Keeps P m
      → ((a : A) → Keeps P (f a))
      → Keeps P (m >>= f)
  unfolding ◌>>=◌
  Keeps-bind m f km kf = record {
    at = λ w h. let (r, w') = m w in continue_keeps r f w' kf (km.at w h);
  }

pub ruleset keeps_rules = (
  Keeps-pure, Keeps-raise, Keeps-lift, Keeps-gets, Keeps-os, Keeps-observe, Keeps-step,
  Keeps-attempt, Keeps-map_error, Keeps-or_raise, Keeps-if, Keeps-raise_if, Keeps-query, Keeps-bind,
)

-- What is true of every value that `m` returns.
pub record Returns {E : Env} {F A : Type 0} (Q : A → Type 0) (m : Exec E F A) : Type 0 where
  pub value : (w : World E) (a : A) → (m w).0 ≡ ok a → Q a

module _ {E : Env} {F A B : Type 0} {P : Core → Type 0} {Q : A → Type 0} where
  continue_knowing :
      (r : Result F A) (f : A → Exec E F B) (w : World E)
      → ((a : A) → r ≡ ok a → Q a)
      → ((a : A) → Q a → Keeps P (f a))
      → P w.core
      → P ((lift r >>= f) w).1.core
  unfolding ◌>>=◌
  continue_knowing (ok a) f w known k h = (k a (known a refl)).at w h
  continue_knowing (err e) f w known k h = h

  -- The rest of an action need keep `P` only for the values that the first part returns.
  pub Keeps-bind_knowing :
      (m : Exec E F A) (f : A → Exec E F B)
      → Returns Q m
      → Keeps P m
      → ((a : A) → Q a → Keeps P (f a))
      → Keeps P (m >>= f)
  unfolding ◌>>=◌
  Keeps-bind_knowing m f known km kf = record {
    at = λ w h. let (r, w') = m w in continue_knowing r f w' (known.value w) kf (km.at w h);
  }
