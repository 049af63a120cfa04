-- ===== src/Installer/SafePath.antt =====
-- src/installer.rs: `safe_join`, which keeps the entries of a package inside its directory.
use yh_extension_manager_v.Prelude.{
  String, ◌<>◌, ◌≡◌, refl, Bool, false, ◌||◌, List, [], ◌∷◌, ◌++◌, arith, ◌==◌, inl, inr,
  Bool-cases, if◌then◌else◌,
}
use yh_extension_manager_v.Prelude.Outcome.{Result, ok, err}
use yh_extension_manager_v.Text.{split}
use yh_extension_manager_v.FilePath.{join, is_absolute}

-- `components().any(|c| matches!(c, Component::ParentDir))`
abbrev pub any_parent_dir : List String → Bool
any_parent_dir [] = false
any_parent_dir (c ∷ cs) = c == ".." || any_parent_dir cs

unfoldable pub safe_join : String → String → Result String String
safe_join base name =
    if is_absolute name
    then err ("zip entry cannot be absolute: " <> name)
    else if any_parent_dir (split b'/' name)
    then err ("zip entry cannot escape package root: " <> name)
    else ok (join base name)

-- How the components of a path move through the directories: `..` goes up, `.` and an empty
-- component stay, any other goes down. The directories are listed from the innermost.
abbrev pub parent_of : List String → List String
parent_of [] = []
parent_of (d ∷ ds) = ds

abbrev pub walk : List String → List String → List String
walk dirs [] = dirs
walk dirs (c ∷ cs) =
    walk
      (if c == ".."
        then parent_of dirs
        else if c == "."
        then dirs
        else if c == ""
        then dirs
        else c ∷ dirs)
      cs

||-left-false : (a b : Bool) → (a || b) ≡ false → a ≡ false
||-left-false a b h = ground arith

||-right-false : (a b : Bool) → (a || b) ≡ false → b ≡ false
||-right-false a b h = ground arith

pub walk_stays :
    (base below : List String) (cs : List String)
    → any_parent_dir cs ≡ false
    → (deeper : List String) × (walk (below ++ base) cs ≡ deeper ++ base)
walk_stays base below [] h = (below, refl)
walk_stays base below (c ∷ cs) h =
    rw (||-left-false (c == "..") _ h) (elim (Bool-cases (c == ".")) [
      | inl here ↦ rw here (walk_stays base below cs (||-right-false (c == "..") _ h))
      | inr name_or_empty ↦ rw name_or_empty (elim (Bool-cases (c == "")) [
        | inl empty ↦ rw empty (walk_stays base below cs (||-right-false (c == "..") _ h))
        | inr name ↦ rw name (walk_stays base (c ∷ below) cs (||-right-false (c == "..") _ h))
      ])
    ])

-- Where `safe_join` accepts a name, it returns the path that joins it to the base, and from any
-- directory the walk along the name's components ends in that directory or below it.
pub safe_join-stays :
    (base name p : String) (dirs : List String)
    → safe_join base name ≡ ok p
    → (p ≡ join base name)
      × (is_absolute name ≡ false)
      × ((deeper : List String) × (walk dirs (split b'/' name) ≡ deeper ++ dirs))
unfolding safe_join
safe_join-stays base name p dirs h =
    (ground arith, ground arith, walk_stays dirs [] (split b'/' name) (ground arith))
