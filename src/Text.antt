-- ===== src/Text.antt =====
-- What the program uses of Rust's `str`: trimming, prefixes, searching, splitting, replacing.
-- A text is the native `String`, a list of Unicode scalar values.
pub mod Trim
pub mod Decimal
pub mod Utf8
pub mod Lossy
pub mod Prefix
use Prim.Native.Char.{Char, code}
use text.Mathlib.Text.{starts_with}
use Prim.Native.String.{count}
use yh_extension_manager_v.Prelude.{
  ℕ, zero, suc, ◌-◌, String, ◌<>◌, ◌≡◌, refl, Bool, true, false, not, ◌&&◌, ◌||◌, Option, none,
  some, List, [], ◌∷◌, arith, ◌==◌, leb, nat_eq, if◌then◌else◌,
}

-- `char::is_whitespace`: the code points with the property White_Space.
unfoldable pub is_whitespace : ℕ → Bool
is_whitespace c =
    (leb 9 c && leb c 13)
    || nat_eq c 32
    || nat_eq c 0x85
    || nat_eq c 0xa0
    || nat_eq c 0x1680
    || (leb 0x2000 c && leb c 0x200a)
    || nat_eq c 0x2028
    || nat_eq c 0x2029
    || nat_eq c 0x202f
    || nat_eq c 0x205f
    || nat_eq c 0x3000

-- `char::is_ascii_alphanumeric`
unfoldable pub is_ascii_alphanumeric : ℕ → Bool
is_ascii_alphanumeric c =
    (leb b'0' c && leb c b'9') || (leb b'A' c && leb c b'Z') || (leb b'a' c && leb c b'z')

-- `char::is_ascii_hexdigit`
unfoldable pub is_ascii_hexdigit : ℕ → Bool
is_ascii_hexdigit c =
    (leb b'0' c && leb c b'9') || (leb b'A' c && leb c b'F') || (leb b'a' c && leb c b'f')

abbrev pub str_is_empty : String → Bool
str_is_empty String.[] = true
str_is_empty (String.◌∷◌ c s) = false

-- `chars().all(p)`
abbrev pub chars_all : (ℕ → Bool) → String → Bool
chars_all p String.[] = true
chars_all p (String.◌∷◌ c s) = p (code c) && chars_all p s

-- `chars().map(f).collect()`
abbrev pub chars_map : (Char → Char) → String → String
chars_map f String.[] = String.[]
chars_map f (String.◌∷◌ c s) = String.◌∷◌ (f c) (chars_map f s)

unfoldable pub trim_start : String → String
trim_start String.[] = String.[]
trim_start (String.◌∷◌ c s) =
    let rest = trim_start s in if is_whitespace (code c) then rest else String.◌∷◌ c s

unfoldable pub trim_end : String → String
trim_end String.[] = String.[]
trim_end (String.◌∷◌ c s) =
    let rest = trim_end s in
    if is_whitespace (code c) && str_is_empty rest then String.[] else String.◌∷◌ c rest

-- `str::trim`
unfoldable pub trim : String → String
unfolding trim_start trim_end
trim s = trim_end (trim_start s)

-- `str::strip_prefix`
unfoldable pub strip_prefix : String → String → Option String
strip_prefix String.[] s = some s
strip_prefix (String.◌∷◌ d p) String.[] = none
strip_prefix (String.◌∷◌ d p) (String.◌∷◌ c s) =
    let rest = strip_prefix p s in if nat_eq (code d) (code c) then rest else none

-- `s.find(c).map(|end| &s[..end])`: the text in front of the first `c`.
unfoldable pub before : ℕ → String → Option String
before c String.[] = none
before c (String.◌∷◌ d s) =
    let rest = before c s in
    if nat_eq (code d) c
    then some String.[]
    else elim rest [ none ↦ none | some t ↦ some (String.◌∷◌ d t) ]

-- `str::contains` of a text
unfoldable pub contains : String → String → Bool
contains String.[] part = str_is_empty part
contains (String.◌∷◌ c s) part =
    let rest = contains s part in if starts_with (String.◌∷◌ c s) part then true else rest

abbrev cons_first : Char → List String → List String
cons_first d [] = []
cons_first d (part ∷ parts) = String.◌∷◌ d part ∷ parts

-- `str::split` at a character
unfoldable pub split : ℕ → String → List String
split c String.[] = String.[] ∷ []
split c (String.◌∷◌ d s) =
    let rest = split c s in if nat_eq (code d) c then String.[] ∷ rest else cons_first d rest

-- `str::ends_with`
unfoldable pub ends_with : String → String → Bool
ends_with String.[] suffix = str_is_empty suffix
ends_with (String.◌∷◌ c s) suffix =
    let rest = ends_with s suffix in if String.◌∷◌ c s == suffix then true else rest

-- `chars().take(n).collect()`
unfoldable pub take_chars : ℕ → String → String
take_chars zero s = String.[]
take_chars (suc n) String.[] = String.[]
take_chars (suc n) (String.◌∷◌ c s) = String.◌∷◌ c (take_chars n s)

-- `char::to_ascii_lowercase`
lower_char : Char → Char
lower_char c =
    if nat_eq (code c) b'A'
    then "a"
    else if nat_eq (code c) b'B'
    then "b"
    else if nat_eq (code c) b'C'
    then "c"
    else if nat_eq (code c) b'D'
    then "d"
    else if nat_eq (code c) b'E'
    then "e"
    else if nat_eq (code c) b'F'
    then "f"
    else if nat_eq (code c) b'G'
    then "g"
    else if nat_eq (code c) b'H'
    then "h"
    else if nat_eq (code c) b'I'
    then "i"
    else if nat_eq (code c) b'J'
    then "j"
    else if nat_eq (code c) b'K'
    then "k"
    else if nat_eq (code c) b'L'
    then "l"
    else if nat_eq (code c) b'M'
    then "m"
    else if nat_eq (code c) b'N'
    then "n"
    else if nat_eq (code c) b'O'
    then "o"
    else if nat_eq (code c) b'P'
    then "p"
    else if nat_eq (code c) b'Q'
    then "q"
    else if nat_eq (code c) b'R'
    then "r"
    else if nat_eq (code c) b'S'
    then "s"
    else if nat_eq (code c) b'T'
    then "t"
    else if nat_eq (code c) b'U'
    then "u"
    else if nat_eq (code c) b'V'
    then "v"
    else if nat_eq (code c) b'W'
    then "w"
    else if nat_eq (code c) b'X'
    then "x"
    else if nat_eq (code c) b'Y'
    then "y"
    else if nat_eq (code c) b'Z'
    then "z"
    else c

-- `str::to_lowercase`, on ASCII letters: no other character becomes a letter that the program looks
-- for in the result, those of archive extensions.
unfoldable pub to_lowercase : String → String
unfolding lower_char
to_lowercase s = chars_map lower_char s

-- `str::replace` of a text that is not empty: `skip` characters belong to the last match.
replace_from : String → String → ℕ → String → String
replace_from pattern by skip String.[] = String.[]
replace_from pattern by (suc skip) (String.◌∷◌ c s) = replace_from pattern by skip s
replace_from pattern by zero (String.◌∷◌ c s) =
    let kept = replace_from pattern by zero s in
    let after = replace_from pattern by (count pattern - 1) s in
    if starts_with (String.◌∷◌ c s) pattern then by <> after else String.◌∷◌ c kept

unfoldable pub replace : String → String → String → String
unfolding replace_from
replace pattern by s = replace_from pattern by 0 s
