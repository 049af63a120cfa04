-- ===== src/World/Ensures.antt =====
-- What holds of the program's state when an action returns.
use yh_extension_manager_v.Prelude.{◌≡◌, refl, arith}
use yh_extension_manager_v.Prelude.Outcome.{Result, ok, err}
use yh_extension_manager_v.World.{Env, Core, World, Exec, lift, map_error, ◌>>=◌}
use yh_extension_manager_v.World.Keeps.{Keeps}

-- `Q` holds when `m` returns.
pub record Ensures {E : Env} {F A : Type 0} (Q : Core → Type 0) (m : Exec E F A) : Type 0 where
  pub at : (w : World E) (a : A) → (m w).0 ≡ ok a → Q (m w).1.core

module _ {E : Env} {F A B : Type 0} {Q : Core → Type 0} where
  continue_ensures :
      (r : Result F A) (f : A → Exec E F B) (w : World E)
      → ((a : A) → Ensures Q (f a))
      → (b : B) → ((lift r >>= f) w).0 ≡ ok b
      → Q ((lift r >>= f) w).1.core
  unfolding ◌>>=◌
  continue_ensures (ok a) f w k b e = (k a).at w b e
  continue_ensures (err x) f w k b e = ground arith

  -- What the last part ensures, the whole ensures.
  pub Ensures-last :
      (m : Exec E F A) (f : A → Exec E F B) → ((a : A) → Ensures Q (f a)) → Ensures Q (m >>= f)
  unfolding ◌>>=◌
  Ensures-last m f k = record { at = λ w b e. continue_ensures (m w).0 f (m w).1 k b e }

  continue_keeps_on :
      (r : Result F A) (f : A → Exec E F B) (w : World E)
      → ((a : A) → Keeps Q (f a))
      → ((a : A) → r ≡ ok a → Q w.core)
      → (b : B) → ((lift r >>= f) w).0 ≡ ok b
      → Q ((lift r >>= f) w).1.core
  unfolding ◌>>=◌
  continue_keeps_on (ok a) f w k h b e = (k a).at w (h a refl)
  continue_keeps_on (err x) f w k h b e = ground arith

  -- What the first part ensures and the rest keeps, the whole ensures.
  pub Ensures-first :
      (m : Exec E F A) (f : A → Exec E F B)
      → Ensures Q m
      → ((a : A) → Keeps Q (f a))
      → Ensures Q (m >>= f)
  unfolding ◌>>=◌
  Ensures-first m f h k = record {
    at = λ w b e. continue_keeps_on (m w).0 f (m w).1 k (h.at w) b e;
  }

module _ {E : Env} {F G A : Type 0} where
  ok_before :
      (f : F → G) (r : Result F A) (w : World E) (a : A)
      → (map_error f (lift r) w).0 ≡ ok a
      → r ≡ ok a
  unfolding ◌>>=◌
  ok_before f (ok b) w a e = ground arith
  ok_before f (err x) w a e = ground arith

  -- What an action ensures, it ensures also where its error is changed.
  pub Ensures-map_error :
      {Q : Core → Type 0} (f : F → G) (m : Exec E F A) → Ensures Q m → Ensures Q (map_error f m)
  unfolding ◌>>=◌
  Ensures-map_error f m h = record { at = λ w a e. h.at w a (ok_before f (m w).0 w a e) }
