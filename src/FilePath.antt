-- ===== src/FilePath.antt =====
-- `std::path::Path` on Unix, as far as the program uses it. A path is a text.
use mathlib.Core.Option
use Prim.Native.Char.{code}
use yh_extension_manager_v.Prelude.{
  String, ◌<>◌, Bool, false, Option, none, some, ◌&&◌, ◌||◌, ◌==◌, nat_eq, if◌then◌else◌,
}
use yh_extension_manager_v.Text.{str_is_empty}

-- `Path::is_absolute`
abbrev pub is_absolute : String → Bool
is_absolute String.[] = false
is_absolute (String.◌∷◌ c s) = nat_eq (code c) b'/'

abbrev ends_with_slash : String → Bool
ends_with_slash String.[] = false
ends_with_slash (String.◌∷◌ c s) =
    let rest = ends_with_slash s in if str_is_empty s then nat_eq (code c) b'/' else rest

-- `Path::join`: an absolute path replaces the base.
unfoldable pub join : String → String → String
join base path =
    if is_absolute path
    then path
    else if str_is_empty base
    then path
    else if ends_with_slash base
    then base <> path
    else base <> "/" <> path

-- `trim_end_matches('/')`
unfoldable pub trim_end_slashes : String → String
trim_end_slashes String.[] = String.[]
trim_end_slashes (String.◌∷◌ c s) =
    let rest = trim_end_slashes s in
    if nat_eq (code c) b'/' && str_is_empty rest then String.[] else String.◌∷◌ c rest

abbrev has_slash : String → Bool
has_slash String.[] = false
has_slash (String.◌∷◌ c s) = nat_eq (code c) b'/' || has_slash s

-- The text in front of the last `/`, if there is one.
unfoldable pub before_last_slash : String → Option String
before_last_slash String.[] = none
before_last_slash (String.◌∷◌ c s) =
    let rest = before_last_slash s in
    if has_slash s
    then Option.map (String.◌∷◌ c) rest
    else if nat_eq (code c) b'/'
    then some String.[]
    else none

-- The text behind the last `/`, the whole text if there is none.
unfoldable pub after_last_slash : String → String
after_last_slash String.[] = String.[]
after_last_slash (String.◌∷◌ c s) =
    let rest = after_last_slash s in
    if has_slash s then rest else if nat_eq (code c) b'/' then s else String.◌∷◌ c s

directory : String → Option String → Option String
directory String.[] dir = none
directory (String.◌∷◌ c s) none = some ""
directory (String.◌∷◌ c s) (some dir) =
    let u = trim_end_slashes dir in if str_is_empty u then some "/" else some u

-- `Path::parent`, for paths without a component `.`
unfoldable pub parent : String → Option String
unfolding trim_end_slashes before_last_slash directory
parent path = let t = trim_end_slashes path in directory t (before_last_slash t)

-- `Path::file_name`, for paths whose last component is a name
unfoldable pub file_name : String → String
unfolding trim_end_slashes after_last_slash
file_name path = after_last_slash (trim_end_slashes path)

-- `Path::file_stem`: the name in front of its last dot, unless that dot begins it.
abbrev has_dot : String → Bool
has_dot String.[] = false
has_dot (String.◌∷◌ c s) = nat_eq (code c) b'.' || has_dot s

before_last_dot : String → String
before_last_dot String.[] = String.[]
before_last_dot (String.◌∷◌ c s) =
    let rest = before_last_dot s in
    if has_dot s
    then String.◌∷◌ c rest
    else if nat_eq (code c) b'.'
    then String.[]
    else String.◌∷◌ c s

stem_of : String → String → Option String
stem_of String.[] stem = none
stem_of name String.[] = some name
stem_of name stem = some stem

-- `..` has no name
unfoldable pub file_stem : String → Option String
unfolding file_name before_last_dot stem_of
file_stem path =
    if file_name path == ".."
    then none
    else stem_of (file_name path) (before_last_dot (file_name path))
