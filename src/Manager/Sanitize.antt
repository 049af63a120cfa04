-- ===== src/Manager/Sanitize.antt =====
-- The file name that is made of a plugin's identifier.
use Prim.Native.Char.{Char, code}
use yh_extension_manager_v.Prelude.{String, ◌≡◌, refl, Bool, true, false, arith, if◌then◌else◌}
use yh_extension_manager_v.Text.{chars_all, is_ascii_alphanumeric}
use yh_extension_manager_v.Manager.{is_safe_char, sanitize_component}

abbrev safe_char : Char → Char
safe_char c = if is_safe_char (code c) then c else "_"

chosen_is_safe :
    (c : Char) (b : Bool)
    → is_safe_char (code c) ≡ b
    → is_safe_char (code (if b then c else "_")) ≡ true
unfolding is_ascii_alphanumeric
chosen_is_safe c true e = e
chosen_is_safe c false e = refl

safe_char-is_safe : (c : Char) → is_safe_char (code (safe_char c)) ≡ true
safe_char-is_safe c = chosen_is_safe c (is_safe_char (code c)) refl

all_safe : (s : String) → chars_all is_safe_char (sanitize_component s) ≡ true
unfolding sanitize_component
all_safe String.[] = refl
all_safe (String.◌∷◌ c s) = ground (arith, safe_char-is_safe c, all_safe s)

pub sanitize_component-fixes :
    (s : String) → chars_all is_safe_char s ≡ true → sanitize_component s ≡ s
unfolding sanitize_component
sanitize_component-fixes String.[] h = refl
sanitize_component-fixes (String.◌∷◌ c s) h = ground (arith, sanitize_component-fixes s)

-- The file name has only ASCII letters and digits, `-`, `_` and `.`, and making it a file name
-- again changes nothing.
pub sanitize_component-sanitize_component :
    (s : String)
    → (chars_all is_safe_char (sanitize_component s) ≡ true)
      × (sanitize_component (sanitize_component s) ≡ sanitize_component s)
sanitize_component-sanitize_component s =
    (all_safe s, sanitize_component-fixes (sanitize_component s) (all_safe s))
