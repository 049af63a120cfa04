-- ===== src/Prelude/Rows/Keyed.antt =====
-- A table that is read and written by keys: `fits k` picks the rows that are kept under `k`.
use mathlib.Core.Path.{◌≡◌, refl}
use mathlib.Core.Bool.{Bool, true}
use mathlib.Core.Option.{none, some}
use mathlib.Core.List.{List, [], ◌∷◌, ◌++◌}
use native.Mathlib.Omega.{arith}
use Prim.Native.Nat.{suc, ◌≤◌}
use yh_extension_manager_v.Prelude.Tests.{if◌then◌else◌}
use yh_extension_manager_v.Prelude.Rows.{select_one, update_one, delete_many, count}

-- A row that one key fits, another key fits exactly if the two keys are the same.
pub record Keys (A K : Type 0) : Type 0 where
  pub fits : K → A → Bool
  pub same : K → K → Bool
  pub same_sym : (i j : K) → same i j ≡ same j i
  pub fits_same : (i j : K) (x : A) → fits i x ≡ true → fits j x ≡ same i j

module _ {A K : Type 0} (T : Keys A K) where
  -- A write that leaves the key of its row alone is seen under that key alone.
  pub select_one-update :
      (i j : K) (f : A → A) (rows : List A) (r : A)
      → ((x : A) → T.fits j (f x) ≡ T.fits j x)
      → select_one (T.fits i) rows ≡ some r
      → select_one (T.fits j) (update_one (T.fits i) f rows)
        ≡ (if T.same i j then some (f r) else select_one (T.fits j) rows)
  unfolding select_one update_one
  select_one-update i j f [] r k h = ground arith
  select_one-update i j f (x ∷ xs) r k h = ground (
    arith,
    k x,
    T.fits_same i j x,
    T.fits_same j i x,
    T.same_sym i j,
    select_one-update i j f xs r k,
  )

  none_same :
      (i j : K) (rows : List A)
      → T.same i j ≡ true
      → select_one (T.fits i) rows ≡ none
      → select_one (T.fits j) rows ≡ none
  unfolding select_one
  none_same i j [] e h = refl
  none_same i j (x ∷ xs) e h = ground (arith, T.fits_same j i x, T.same_sym i j, none_same i j xs e)

  -- A new row is seen under its key alone.
  pub select_one-insert_new :
      (i j : K) (rows : List A) (r : A)
      → T.fits i r ≡ true
      → select_one (T.fits i) rows ≡ none
      → select_one (T.fits j) (rows ++ r ∷ [])
        ≡ (if T.same i j then some r else select_one (T.fits j) rows)
  unfolding select_one
  select_one-insert_new i j [] r k h = ground (arith, T.fits_same i j r)
  select_one-insert_new i j (x ∷ xs) r k h =
      ground (arith, T.fits_same j i x, T.same_sym i j, select_one-insert_new i j xs r k)

  -- What is deleted is missing under its key alone.
  pub select_one-delete :
      (i j : K) (rows : List A)
      → select_one (T.fits j) (delete_many (T.fits i) rows)
        ≡ (if T.same i j then none else select_one (T.fits j) rows)
  unfolding select_one delete_many
  select_one-delete i j [] = ground arith
  select_one-delete i j (x ∷ xs) =
      ground (arith, T.fits_same i j x, T.fits_same j i x, T.same_sym i j, select_one-delete i j xs)

  -- No key has two rows.
  abbrev pub HasUniqueKeys : List A → Type 0
  HasUniqueKeys rows = (j : K) → count (T.fits j) rows ≤ 1

  count-update :
      (i j : K) (f : A → A) (rows : List A)
      → ((x : A) → T.fits j (f x) ≡ T.fits j x)
      → count (T.fits j) (update_one (T.fits i) f rows) ≡ count (T.fits j) rows
  unfolding count update_one
  count-update i j f [] k = refl
  count-update i j f (x ∷ xs) k = ground (arith, k x, count-update i j f xs k)

  pub update_one-HasUniqueKeys :
      (i : K) (f : A → A) (rows : List A)
      → ((j : K) (x : A) → T.fits j (f x) ≡ T.fits j x)
      → HasUniqueKeys rows
      → HasUniqueKeys (update_one (T.fits i) f rows)
  update_one-HasUniqueKeys i f rows k h j = ground (arith, count-update i j f rows (k j), h j)

  count-none :
      (j : K) (rows : List A) → select_one (T.fits j) rows ≡ none → count (T.fits j) rows ≡ 0
  unfolding count select_one
  count-none j [] h = refl
  count-none j (x ∷ xs) h = ground (arith, count-none j xs)

  count-insert :
      (j : K) (rows : List A) (r : A)
      → count (T.fits j) (rows ++ r ∷ [])
        ≡ (if T.fits j r then suc (count (T.fits j) rows) else count (T.fits j) rows)
  unfolding count
  count-insert j [] r = ground arith
  count-insert j (x ∷ xs) r = ground (arith, count-insert j xs r)

  pub insert-HasUniqueKeys :
      (i : K) (rows : List A) (r : A)
      → T.fits i r ≡ true
      → select_one (T.fits i) rows ≡ none
      → HasUniqueKeys rows
      → HasUniqueKeys (rows ++ r ∷ [])
  insert-HasUniqueKeys i rows r k e h j =
      ground (
        arith,
        count-insert j rows r,
        T.fits_same i j r,
        count-none j rows,
        none_same i j rows,
        h j,
      )

  count-delete :
      (i j : K) (rows : List A)
      → count (T.fits j) (delete_many (T.fits i) rows) ≤ count (T.fits j) rows
  unfolding count delete_many
  count-delete i j [] = omega arith
  count-delete i j (x ∷ xs) = ground (arith, count-delete i j xs)

  pub delete_many-HasUniqueKeys :
      (i : K) (rows : List A) → HasUniqueKeys rows → HasUniqueKeys (delete_many (T.fits i) rows)
  delete_many-HasUniqueKeys i rows h j = ground (arith, count-delete i j rows, h j)
