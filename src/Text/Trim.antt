-- ===== src/Text/Trim.antt =====
-- What `trim().is_empty()` decides.
use yh_extension_manager_v.Prelude.{String, ◌≡◌, ◌∙◌, refl, Bool, arith}
use yh_extension_manager_v.Text.{is_whitespace, str_is_empty, chars_all, trim_start, trim_end, trim}

trim_end-is_empty : (s : String) → str_is_empty (trim_end s) ≡ chars_all is_whitespace s
unfolding trim_end
trim_end-is_empty String.[] = refl
trim_end-is_empty (String.◌∷◌ c s) = ground (arith, trim_end-is_empty s)

trim_start-all : (s : String) → chars_all is_whitespace (trim_start s) ≡ chars_all is_whitespace s
unfolding trim_start
trim_start-all String.[] = refl
trim_start-all (String.◌∷◌ c s) = ground (arith, trim_start-all s)

-- `s.trim().is_empty()`
abbrev pub is_blank : String → Bool
is_blank s = str_is_empty (trim s)

-- Nothing is left of a text exactly if it has white space alone.
pub is_blank-eq : (s : String) → is_blank s ≡ chars_all is_whitespace s
unfolding trim
is_blank-eq s = trim_end-is_empty (trim_start s) ∙ trim_start-all s
