-- ===== src/Text/Prefix.antt =====
-- Prefixes of joined texts.
use Prim.Native.Char.{Char, code}
use text.Mathlib.TextLemmas.{nil-append, cons-append}
use yh_extension_manager_v.Prelude.{
  ℕ, String, ◌<>◌, ◌≡◌, ◌∙◌, refl, ap, Bool, true, not, some, arith, nat_eq,
}
use yh_extension_manager_v.Text.{chars_all, before, strip_prefix}

pub strip_prefix-append : (p s : String) → strip_prefix p (p <> s) ≡ some s
unfolding strip_prefix
strip_prefix-append String.[] s = rw nil-append refl
strip_prefix-append (String.◌∷◌ c p) s = rw cons-append (ground (arith, strip_prefix-append p s))

pub char-append : (c : Char) (s : String) → String.◌∷◌ c String.[] <> s ≡ String.◌∷◌ c s
char-append c s = cons-append c String.[] s ∙ ap (String.◌∷◌ c) (nil-append s)

-- The text in front of the first character `c` of a text that has none before it.
pub before-append :
    (c : Char) (s t : String)
    → chars_all (λ d. not (nat_eq d (code c))) s ≡ true
    → before (code c) (s <> (String.◌∷◌ c String.[] <> t)) ≡ some s
unfolding before
before-append c String.[] t h = rw (nil-append, char-append) (ground arith)
before-append c (String.◌∷◌ d s) t h = rw cons-append (ground (arith, before-append c s t))

pub chars_all-weaken :
    (p q : ℕ → Bool)
    → ((d : ℕ) → p d ≡ true → q d ≡ true)
    → (s : String) → chars_all p s ≡ true
    → chars_all q s ≡ true
chars_all-weaken p q k String.[] h = refl
chars_all-weaken p q k (String.◌∷◌ d s) h = ground (arith, k (code d), chars_all-weaken p q k s)
