-- ===== src/Installer/Archive.antt =====
-- src/installer.rs: unpacking the archives that a setup step downloads or names.
use yh_extension_manager_v.Prelude.{
  ℕ, zero, suc, String, ◌||◌, Option, none, some, List, [], ◌∷◌, ◌==◌, if◌then◌else◌,
}
use yh_extension_manager_v.Text.{split, ends_with, str_is_empty, to_lowercase}
use yh_extension_manager_v.FilePath.{join, is_absolute}

-- `Path::components`: empty components are skipped, and `.` but at the start; a leading `/` is a
-- component of its own.
abbrev drop_plain : List String → List String
drop_plain [] = []
drop_plain (c ∷ cs) =
    let rest = drop_plain cs in if str_is_empty c || c == "." then rest else c ∷ rest

abbrev keep_leading : String → List String → List String
keep_leading path [] = []
keep_leading path (c ∷ cs) =
    if is_absolute path
    then "/" ∷ drop_plain cs
    else if c == "."
    then "." ∷ drop_plain cs
    else drop_plain (c ∷ cs)

unfoldable pub components : String → List String
components path = keep_leading path (split b'/' path)

-- `comps[n..]`, pushed one by one
abbrev drop : ℕ → List String → List String
drop zero cs = cs
drop (suc n) [] = []
drop (suc n) (c ∷ cs) = drop n cs

abbrev push_all : String → List String → String
push_all path [] = path
push_all path (c ∷ cs) = push_all (join path c) cs

abbrev rest_path : List String → Option String
rest_path [] = none
rest_path (c ∷ cs) = some (push_all "" (c ∷ cs))

-- `None` where the path has no more than `n` components
unfoldable pub strip_prefix_components : String → ℕ → Option String
unfolding components
strip_prefix_components path n = rest_path (drop n (components path))

pub data ArchiveFormat : Type 0 where
  zip tar_gz gzip : ArchiveFormat

-- The extension of a path tells its format; `lower` is the path in lower case.
unfoldable pub detect_lower : String → Option ArchiveFormat
detect_lower lower =
    if ends_with lower ".tar.gz" || ends_with lower ".tgz"
    then some ArchiveFormat.tar_gz
    else if ends_with lower ".zip"
    then some ArchiveFormat.zip
    else if ends_with lower ".gz"
    then some ArchiveFormat.gzip
    else none

-- Where an entry is written, `none` where it is passed over.
unfoldable pub out_path : String → ℕ → String → Option String
unfolding strip_prefix_components
out_path dest_dir zero entry_path = some (join dest_dir entry_path)
out_path dest_dir (suc n) entry_path = elim (strip_prefix_components entry_path (suc n)) [
  | none ↦ none
  | some p ↦ some (join dest_dir p)
]

unfoldable pub detect_archive_format : String → Option ArchiveFormat
unfolding detect_lower
detect_archive_format path = detect_lower (to_lowercase path)
