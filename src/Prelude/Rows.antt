-- ===== src/Prelude/Rows.antt =====
-- A table as the list of its rows, and the statements that the program issues against one.
pub mod Keyed
use mathlib.Core.Path.{◌≡◌, refl}
use mathlib.Core.Bool.{Bool, true, false}
use mathlib.Core.Option
use mathlib.Core.Option.{Option, none, some}
use mathlib.Core.List.{List, [], ◌∷◌, ◌++◌}
use native.Mathlib.Omega.{arith}
use Prim.Native.Nat.{ℕ, suc}
use yh_extension_manager_v.Prelude.Tests.{if◌then◌else◌, or_else}

module _ {A : Type 0} where
  -- `find().filter(p).all(db)`
  unfoldable pub select : (A → Bool) → List A → List A
  select p [] = []
  select p (x ∷ xs) = let rest = select p xs in if p x then x ∷ rest else rest

  -- `find().filter(p).one(db)`: the first row that fits.
  unfoldable pub select_one : (A → Bool) → List A → Option A
  select_one p [] = none
  select_one p (x ∷ xs) = let rest = select_one p xs in if p x then some x else rest

  -- `update` of the row that `one` has just read: the first row that fits is written anew.
  unfoldable pub update_one : (A → Bool) → (A → A) → List A → List A
  update_one p f [] = []
  update_one p f (x ∷ xs) = let rest = update_one p f xs in if p x then f x ∷ xs else x ∷ rest

  -- `delete_many().filter(p).exec(db)`: what is left.
  unfoldable pub delete_many : (A → Bool) → List A → List A
  delete_many p [] = []
  delete_many p (x ∷ xs) = let rest = delete_many p xs in if p x then rest else x ∷ rest

  -- `count(db)` of `find().filter(p)`, also the `rows_affected` of a deletion
  unfoldable pub count : (A → Bool) → List A → ℕ
  count p [] = 0
  count p (x ∷ xs) = let rest = count p xs in if p x then suc rest else rest

  pub select-append :
      (p : A → Bool) (xs ys : List A) → select p (xs ++ ys) ≡ select p xs ++ select p ys
  unfolding select
  select-append p [] ys = refl
  select-append p (x ∷ xs) ys = ground (arith, select-append p xs ys)

  -- A query of the rows that `q` picks does not see an update of a row outside of them.
  pub select-update_disjoint :
      (q p : A → Bool) (f : A → A) (xs : List A)
      → ((x : A) → p x ≡ true → (q x ≡ false) × (q (f x) ≡ false))
      → select q (update_one p f xs) ≡ select q xs
  unfolding select update_one
  select-update_disjoint q p f [] h = refl
  select-update_disjoint q p f (x ∷ xs) h = ground (arith, h x, select-update_disjoint q p f xs h)

  pub select-delete_disjoint :
      (q p : A → Bool) (xs : List A)
      → ((x : A) → p x ≡ true → q x ≡ false)
      → select q (delete_many p xs) ≡ select q xs
  unfolding select delete_many
  select-delete_disjoint q p [] h = refl
  select-delete_disjoint q p (x ∷ xs) h = ground (arith, h x, select-delete_disjoint q p xs h)

  pub select-insert_disjoint :
      (q : A → Bool) (xs : List A) (x : A) → q x ≡ false → select q (xs ++ x ∷ []) ≡ select q xs
  unfolding select
  select-insert_disjoint q [] x h = ground arith
  select-insert_disjoint q (y ∷ xs) x h = ground (arith, select-insert_disjoint q xs x h)

  -- Deletion leaves none of the rows it picks.
  pub select-delete_self : (p : A → Bool) (xs : List A) → select p (delete_many p xs) ≡ []
  unfolding select delete_many
  select-delete_self p [] = refl
  select-delete_self p (x ∷ xs) = ground (arith, select-delete_self p xs)

  -- The first row that fits is one that fits.
  pub select_one-fits : (p : A → Bool) (xs : List A) (x : A) → select_one p xs ≡ some x → p x ≡ true
  unfolding select_one
  select_one-fits p [] x h = cc
  select_one-fits p (y ∷ xs) x h = ground (arith, select_one-fits p xs x)

  pub select_one-update_self :
      (p : A → Bool) (f : A → A) (xs : List A)
      → ((x : A) → p x ≡ true → p (f x) ≡ true)
      → select_one p (update_one p f xs) ≡ Option.map f (select_one p xs)
  unfolding select_one update_one
  select_one-update_self p f [] h = refl
  select_one-update_self p f (x ∷ xs) h = ground (arith, h x, select_one-update_self p f xs h)

  pub select_one-update_other :
      (q p : A → Bool) (f : A → A) (xs : List A)
      → ((x : A) → p x ≡ true → (q x ≡ false) × (q (f x) ≡ false))
      → select_one q (update_one p f xs) ≡ select_one q xs
  unfolding select_one update_one
  select_one-update_other q p f [] h = refl
  select_one-update_other q p f (x ∷ xs) h = ground (arith, h x, select_one-update_other q p f xs h)

  -- A new row at the end is read where no earlier row fits.
  pub select_one-insert :
      (q : A → Bool) (xs : List A) (x : A)
      → select_one q (xs ++ x ∷ []) ≡ or_else (select_one q xs) (if q x then some x else none)
  unfolding select_one
  select_one-insert q [] x = ground arith
  select_one-insert q (y ∷ xs) x = ground (arith, select_one-insert q xs x)

  pub select_one-delete_other :
      (q p : A → Bool) (xs : List A)
      → ((x : A) → p x ≡ true → q x ≡ false)
      → select_one q (delete_many p xs) ≡ select_one q xs
  unfolding select_one delete_many
  select_one-delete_other q p [] h = refl
  select_one-delete_other q p (x ∷ xs) h = ground (arith, h x, select_one-delete_other q p xs h)
