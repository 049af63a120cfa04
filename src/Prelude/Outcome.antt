-- ===== src/Prelude/Outcome.antt =====
-- Rust's `Result`: `?` is `◌>>=◌`, and `map_err` changes the error.
use mathlib.Core.Option.{Option, none, some}
use mathlib.Core.Bool.{Bool, true, false}

pub data Result (F A : Type 0) : Type 0 where
  ok : A → Result F A
  err : F → Result F A

infixl 5 ◌>>=◌ ◌>>◌
abbrev pub ◌>>=◌ : {F A B : Type 0} → Result F A → (A → Result F B) → Result F B
ok a >>= f = f a
err e >>= f = err e

abbrev pub ◌>>◌ : {F A B : Type 0} → Result F A → Result F B → Result F B
m >> k = m >>= λ _. k

module _ {F A : Type 0} where
  -- `Option::ok_or_else`
  abbrev pub ok_or : Option A → F → Result F A
  ok_or none e = err e
  ok_or (some a) e = ok a

  abbrev pub is_ok : Result F A → Bool
  is_ok (ok _) = true
  is_ok (err _) = false

  -- `Result::unwrap_or`
  abbrev pub value_or : Result F A → A → A
  value_or (ok a) d = a
  value_or (err _) d = d

-- `if test { return Err(e); }`
abbrev pub fail_if : {F : Type 0} → Bool → F → Result F Unit
fail_if true e = err e
fail_if false e = ok tt

-- `Result::map_err`
abbrev pub map_err : {F G A : Type 0} → (F → G) → Result F A → Result G A
map_err f (ok a) = ok a
map_err f (err e) = err (f e)
