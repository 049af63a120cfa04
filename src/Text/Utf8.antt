-- ===== src/Text/Utf8.antt =====
-- The bytes of a text: UTF-8, as Rust encodes a `char` and as `str::bytes` lists them.
use Prim.Native.Char.{code}
use yh_extension_manager_v.Prelude.{
  ℕ, ◌+◌, ◌/◌, ◌%◌, ◌<◌, String, List, [], ◌∷◌, ◌++◌, All, ltb, arith, if◌then◌else◌,
}

abbrev continuation : ℕ → ℕ
continuation n = 0x80 + n % 64

unfoldable pub encode_utf8 : ℕ → List ℕ
encode_utf8 c =
    if ltb c 0x80
    then c ∷ []
    else if ltb c 0x800
    then (0xc0 + (c / 64) % 32) ∷ continuation c ∷ []
    else if ltb c 0x10000
    then (0xe0 + (c / 4096) % 16) ∷ continuation (c / 64) ∷ continuation c ∷ []
    else (0xf0 + (c / 262144) % 8)
      ∷ continuation (c / 4096)
      ∷ continuation (c / 64)
      ∷ continuation c
      ∷ []

unfoldable pub bytes : String → List ℕ
unfolding encode_utf8
bytes String.[] = []
bytes (String.◌∷◌ c s) = encode_utf8 (code c) ++ bytes s

abbrev pub IsByte : ℕ → Type 0
IsByte n = n < 256

All-append : (xs ys : List ℕ) → All IsByte xs → All IsByte ys → All IsByte (xs ++ ys)
All-append [] ys hx hy = hy
All-append (x ∷ xs) ys (hx, hxs) hy = (hx, All-append xs ys hxs hy)

encode_utf8-IsByte : (c : ℕ) → All IsByte (encode_utf8 c)
unfolding encode_utf8
encode_utf8-IsByte c = ground arith

pub bytes-IsByte : (s : String) → All IsByte (bytes s)
unfolding bytes
bytes-IsByte String.[] = tt
bytes-IsByte (String.◌∷◌ c s) =
    All-append (encode_utf8 (code c)) (bytes s) (encode_utf8-IsByte (code c)) (bytes-IsByte s)
