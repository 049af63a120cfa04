-- ===== src/Text/Lossy/Decoded.antt =====
-- The bytes of a text are decoded to that text.
use Prim.Native.Char.{Char, char, code, IsLt}
use Prim.Native.Nat.{Ordering, compare}
use native.Mathlib.Omega.{compare-lt}
use text.Mathlib.TextEquality.{Char-path}
use yh_extension_manager_v.Prelude.{
  ℕ, suc, ◌+◌, ◌*◌, ◌/◌, ◌%◌, ◌<◌, ◌≤◌, ◌≡◌, ◌⊎◌, inl, inr, refl, ap, ◌∙◌, String, true, none, some,
  List, ◌∷◌, ◌++◌, nat_eq, ltb, arith, if◌then◌else◌,
}
use yh_extension_manager_v.Text.Utf8.{bytes, encode_utf8}
use yh_extension_manager_v.Text.Lossy.{
  Both, Scalar, below, between, is_scalar, char_of, from_u32, begun, first_byte, more_bits,
  next_byte, emit, decode_utf8, from_utf8_lossy,
}

below_some : (o : Ordering) (x : IsLt o) → (y : IsLt o) × (below o ≡ some y)
unfolding below
below_some Ordering.lt x = (tt, refl)
below_some Ordering.eq x = absurd x
below_some Ordering.gt x = absurd x

between-some : (o p : Ordering) (x : Both o p) → (y : Both o p) × (between o p ≡ some y)
unfolding between
between-some Ordering.lt p x = below_some p x
between-some Ordering.eq p x = absurd x
between-some Ordering.gt p x = absurd x

scalar_some :
    (o p q : Ordering) (x : Scalar o p q) → (y : Scalar o p q) × (is_scalar o p q ≡ some y)
unfolding is_scalar
scalar_some Ordering.lt p q x = (tt, refl)
scalar_some Ordering.eq p q x = between-some p q x
scalar_some Ordering.gt p q x = between-some p q x

pub from_u32-code : (c : Char) → from_u32 (code c) ≡ c
unfolding from_u32
from_u32-code (char n p) =
    let (y, e) = scalar_some (compare n 55296) (compare 57343 n) (compare n 1114112) p in
    ap (char_of n) e ∙ Char-path (char n y) (char n p) refl

first_two : (q : ℕ) → 2 ≤ q → q < 32 → first_byte (0xc0 + q) ≡ begun 0 q 0x80 0xbf
first_two q h k = ground arith

first_three :
    (q : ℕ)
    → q < 16
    → first_byte (0xe0 + q)
      ≡ begun 1 q (if nat_eq q 0 then 0xa0 else 0x80) (if nat_eq q 13 then 0x9f else 0xbf)
first_three q h = ground arith

first_four :
    (q : ℕ)
    → q < 5
    → first_byte (0xf0 + q)
      ≡ begun 2 q (if nat_eq q 0 then 0x90 else 0x80) (if nat_eq q 4 then 0x8f else 0xbf)
first_four q h = ground arith

continued :
    (left bits low high b : ℕ) (bs : List ℕ)
    → low ≤ b
    → b ≤ high
    → decode_utf8 (some (record { left = left; bits = bits; low = low; high = high })) (b ∷ bs)
      ≡ emit (more_bits left bits b).0 (decode_utf8 (more_bits left bits b).1 bs)
unfolding decode_utf8 next_byte
continued left bits low high b bs h k = ground arith

abbrev IsInRange : ℕ → Type 0
IsInRange n = (n < 0x110000) × ((n < 0xd800) ⊎ (0xdfff < n))

bounded :
    (n : ℕ) (p q : Ordering) → compare 57343 n ≡ p → compare n 1114112 ≡ q → Both p q → IsInRange n
bounded n Ordering.lt Ordering.lt e f x = (compare-lt n 1114112 f, inr (compare-lt 57343 n e))
bounded n Ordering.lt Ordering.eq e f x = absurd x
bounded n Ordering.lt Ordering.gt e f x = absurd x
bounded n Ordering.eq q e f x = absurd x
bounded n Ordering.gt q e f x = absurd x

ranged :
    (n : ℕ) (o : Ordering)
    → compare n 55296 ≡ o
    → Scalar o (compare 57343 n) (compare n 1114112)
    → IsInRange n
ranged n Ordering.lt e x = let h = compare-lt n 55296 e in (omega (arith, h), inl h)
ranged n Ordering.eq e x = bounded n _ _ refl refl x
ranged n Ordering.gt e x = bounded n _ _ refl refl x

-- A scalar value is below the surrogates or above them.
code_range : (c : Char) → IsInRange (code c)
code_range (char n p) = ranged n (compare n 55296) refl p

abbrev one : ℕ → String → String
one n s = String.◌∷◌ (from_u32 n) s

ltb-true : (n : ℕ) → n < 0x80 → ltb n 0x80 ≡ true
ltb-true n h = ground arith

one_byte :
    (n : ℕ) (bs : List ℕ) → n < 0x80 → decode_utf8 none (n ∷ bs) ≡ one n (decode_utf8 none bs)
unfolding decode_utf8 next_byte
one_byte n bs h = rw (ltb-true n h) refl

begins :
    (b left bits low high : ℕ) (bs : List ℕ)
    → first_byte b ≡ begun left bits low high
    → decode_utf8 none (b ∷ bs)
      ≡ decode_utf8 (some (record { left = left; bits = bits; low = low; high = high })) bs
unfolding decode_utf8 next_byte
begins b left bits low high bs h = rw h refl

-- The last byte of a character, and one before it.
last_byte :
    (bits low high b n : ℕ) (bs : List ℕ)
    → low ≤ b
    → b ≤ high
    → bits * 64 + b % 64 ≡ n
    → decode_utf8 (some (record { left = 0; bits = bits; low = low; high = high })) (b ∷ bs)
      ≡ one n (decode_utf8 none bs)
last_byte bits low high b n bs h k e =
    continued 0 bits low high b bs h k ∙ ap (λ m. one m (decode_utf8 none bs)) e

inner_byte :
    (left bits low high b n : ℕ) (bs : List ℕ)
    → low ≤ b
    → b ≤ high
    → bits * 64 + b % 64 ≡ n
    → decode_utf8 (some (record { left = suc left; bits = bits; low = low; high = high })) (b ∷ bs)
      ≡ decode_utf8 (some (record { left = left; bits = n; low = 0x80; high = 0xbf })) bs
inner_byte left bits low high b n bs h k e =
    continued (suc left) bits low high b bs h k
    ∙ ap (λ m. decode_utf8 (some (record { left = left; bits = m; low = 0x80; high = 0xbf })) bs) e

abbrev tail : ℕ → ℕ
tail n = 0x80 + n % 64

two_bytes :
    (n : ℕ) (bs : List ℕ)
    → 0x80 ≤ n
    → n < 0x800
    → decode_utf8 none ((0xc0 + n / 64 % 32) ∷ tail n ∷ bs) ≡ one n (decode_utf8 none bs)
two_bytes n bs h k =
    begins _ 0 (n / 64 % 32) 0x80 0xbf _ (first_two (n / 64 % 32) (omega arith) (omega arith))
    ∙ last_byte (n / 64 % 32) 0x80 0xbf (tail n) n bs (omega arith) (omega arith) (omega arith)

three_bytes :
    (n : ℕ) (bs : List ℕ)
    → 0x800 ≤ n
    → n < 0x10000
    → (n < 0xd800) ⊎ (0xdfff < n)
    → decode_utf8 none ((0xe0 + n / 4096 % 16) ∷ tail (n / 64) ∷ tail n ∷ bs)
      ≡ one n (decode_utf8 none bs)
three_bytes n bs h k r =
    begins _ 1 (n / 4096 % 16) _ _ _ (first_three (n / 4096 % 16) (omega arith))
    ∙ inner_byte 0 (n / 4096 % 16) _ _ (tail (n / 64)) (n / 64) _ (ground arith) (ground arith)
        (omega arith)
    ∙ last_byte (n / 64) 0x80 0xbf (tail n) n bs (omega arith) (omega arith) (omega arith)

four_bytes :
    (n : ℕ) (bs : List ℕ)
    → 0x10000 ≤ n
    → n < 0x110000
    → decode_utf8 none ((0xf0 + n / 262144 % 8) ∷ tail (n / 4096) ∷ tail (n / 64) ∷ tail n ∷ bs)
      ≡ one n (decode_utf8 none bs)
four_bytes n bs h k =
    begins _ 2 (n / 262144 % 8) _ _ _ (first_four (n / 262144 % 8) (omega arith))
    ∙ inner_byte 1 (n / 262144 % 8) _ _ (tail (n / 4096)) (n / 4096) _ (ground arith) (ground arith)
        (omega arith)
    ∙ inner_byte 0 (n / 4096) 0x80 0xbf (tail (n / 64)) (n / 64) _ (omega arith) (omega arith)
        (omega arith)
    ∙ last_byte (n / 64) 0x80 0xbf (tail n) n bs (omega arith) (omega arith) (omega arith)

decode-encode_utf8 :
    (c : Char) (bs : List ℕ)
    → decode_utf8 none (encode_utf8 (code c) ++ bs) ≡ one (code c) (decode_utf8 none bs)
unfolding encode_utf8
decode-encode_utf8 c bs = ground (
  arith,
  code_range c,
  one_byte (code c) bs,
  two_bytes (code c) bs,
  three_bytes (code c) bs,
  four_bytes (code c) bs,
)

-- The bytes of a text are read as that text.
pub from_utf8_lossy-bytes : (s : String) → from_utf8_lossy (bytes s) ≡ s
unfolding from_utf8_lossy bytes decode_utf8
from_utf8_lossy-bytes String.[] = refl
from_utf8_lossy-bytes (String.◌∷◌ c s) =
    decode-encode_utf8 c (bytes s)
    ∙ rw (from_u32-code c) (ap (String.◌∷◌ c) (from_utf8_lossy-bytes s))
