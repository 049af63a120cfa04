-- ===== src/Text/Lossy.antt =====
-- `String::from_utf8_lossy`: the text of some bytes, where each longest part that only begins a
-- character is read as U+FFFD.
pub mod Decoded
use Prim.Native.Char.{Char, char, code, IsLt, IsScalar}
use Prim.Native.Nat.{Ordering, compare}
use native.Mathlib.Omega.{compare-lt}
use text.Mathlib.TextEquality.{Char-path}
use yh_extension_manager_v.Prelude.{
  ℕ, zero, suc, ◌+◌, ◌*◌, ◌/◌, ◌%◌, ◌-◌, ◌<◌, ◌≤◌, ◌≡◌, ◌⊎◌, inl, inr, refl, ap, ◌∙◌, String, Bool,
  true, ◌&&◌, ◌||◌, Option, none, some, List, [], ◌∷◌, ◌++◌, nat_eq, leb, ltb, arith, if◌then◌else◌,
}
use yh_extension_manager_v.Text.Utf8.{bytes, encode_utf8}

-- The three comparisons that make a number a Unicode scalar value, as in the module of characters.
abbrev Both : Ordering → Ordering → Type 0
Both Ordering.lt o = IsLt o
Both Ordering.eq o = ⊥
Both Ordering.gt o = ⊥

abbrev Scalar : Ordering → Ordering → Ordering → Type 0
Scalar Ordering.lt o p = Unit {0}
Scalar Ordering.eq o p = Both o p
Scalar Ordering.gt o p = Both o p

below : (o : Ordering) → Option (IsLt o)
below Ordering.lt = some tt
below Ordering.eq = none
below Ordering.gt = none

between : (o p : Ordering) → Option (Both o p)
between Ordering.lt p = below p
between Ordering.eq p = none
between Ordering.gt p = none

is_scalar : (o p q : Ordering) → Option (Scalar o p q)
unfolding below between
is_scalar Ordering.lt p q = some tt
is_scalar Ordering.eq p q = between p q
is_scalar Ordering.gt p q = between p q

abbrev char_of : (n : ℕ) → Option (IsScalar n) → Char
char_of n none = "�"
char_of n (some p) = char n p

-- `char::from_u32`, with U+FFFD where there is no character
unfoldable pub from_u32 : ℕ → Char
unfolding is_scalar
from_u32 n = char_of n (is_scalar (compare n 55296) (compare 57343 n) (compare n 1114112))

-- A character that has begun: how many bytes follow the next one, the bits so far, and the bounds
-- of the next byte.
pub record Begun : Type 0 where
  pub left : ℕ
  pub bits : ℕ
  pub low : ℕ
  pub high : ℕ

abbrev begun : ℕ → ℕ → ℕ → ℕ → List Char × Option Begun
begun left bits low high = ([], some (record { left = left; bits = bits; low = low; high = high }))

-- the first byte of a character
abbrev first_byte : ℕ → List Char × Option Begun
first_byte b =
    if ltb b 0x80
    then (from_u32 b ∷ [], none)
    else if leb 0xc2 b && leb b 0xdf
    then begun 0 (b - 0xc0) 0x80 0xbf
    else if nat_eq b 0xe0
    then begun 1 0 0xa0 0xbf
    else if nat_eq b 0xed
    then begun 1 13 0x80 0x9f
    else if leb 0xe1 b && leb b 0xef
    then begun 1 (b - 0xe0) 0x80 0xbf
    else if nat_eq b 0xf0
    then begun 2 0 0x90 0xbf
    else if leb 0xf1 b && leb b 0xf3
    then begun 2 (b - 0xf0) 0x80 0xbf
    else if nat_eq b 0xf4
    then begun 2 4 0x80 0x8f
    else ("�" ∷ [], none)

-- a byte that continues a character
abbrev more_bits : ℕ → ℕ → ℕ → List Char × Option Begun
more_bits zero bits b = (from_u32 (bits * 64 + b % 64) ∷ [], none)
more_bits (suc left) bits b = begun left (bits * 64 + b % 64) 0x80 0xbf

abbrev replaced : List Char × Option Begun → List Char × Option Begun
replaced x = ("�" ∷ x.0, x.1)

unfoldable pub next_byte : Option Begun → ℕ → List Char × Option Begun
unfolding from_u32
next_byte none b = first_byte b
next_byte (some p) b =
    if leb p.low b && leb b p.high then more_bits p.left p.bits b else replaced (first_byte b)

abbrev emit : List Char → String → String
emit [] s = s
emit (c ∷ cs) s = String.◌∷◌ c (emit cs s)

unfoldable pub decode_utf8 : Option Begun → List ℕ → String
unfolding next_byte
decode_utf8 none [] = ""
decode_utf8 (some p) [] = "�"
decode_utf8 p (b ∷ bs) = emit (next_byte p b).0 (decode_utf8 (next_byte p b).1 bs)

unfoldable pub from_utf8_lossy : List ℕ → String
unfolding decode_utf8
from_utf8_lossy bs = decode_utf8 none bs
