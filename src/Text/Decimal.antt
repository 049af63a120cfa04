-- ===== src/Text/Decimal.antt =====
-- How Rust prints a number, and how it reads an `i16` and an octal `u32`.
use Prim.Native.Char.{code}
use yh_extension_manager_v.Prelude.{
  ℕ, zero, suc, ◌+◌, ◌-◌, ◌*◌, ◌/◌, ◌%◌, ◌^◌, String, ◌<>◌, ◌&&◌, Option, none, some, ltb, leb,
  nat_eq, if◌then◌else◌,
}
use yh_extension_manager_v.Prelude.Int.{ℤ}

abbrev digit : ℕ → String
digit zero = "0"
digit (suc zero) = "1"
digit (suc (suc zero)) = "2"
digit (suc (suc (suc zero))) = "3"
digit (suc (suc (suc (suc zero)))) = "4"
digit (suc (suc (suc (suc (suc zero))))) = "5"
digit (suc (suc (suc (suc (suc (suc zero)))))) = "6"
digit (suc (suc (suc (suc (suc (suc (suc zero))))))) = "7"
digit (suc (suc (suc (suc (suc (suc (suc (suc zero)))))))) = "8"
digit _ = "9"

digits : ℕ → ℕ → String
digits zero n = ""
digits (suc fuel) n =
    let rest = digits fuel (n / 10) in if ltb n 10 then digit n else rest <> digit (n % 10)

-- `n.to_string()`: a number has at most as many digits as its value plus one.
unfoldable pub show : ℕ → String
unfolding digits
show n = digits (suc n) n

abbrev pub show_int : ℤ → String
show_int (ℤ.pos n) = show n
show_int (ℤ.negsuc n) = "-" <> show (suc n)

-- The value of a run of digits behind the value `n` of those in front of it.
digits_value : ℕ → String → Option ℕ
digits_value n String.[] = some n
digits_value n (String.◌∷◌ c s) =
    let rest = digits_value (10 * n + (code c - b'0')) s in
    if leb b'0' (code c) && leb (code c) b'9' then rest else none

-- A number with no digit is refused.
unsigned : String → Option ℕ
unsigned String.[] = none
unsigned (String.◌∷◌ c s) = digits_value 0 (String.◌∷◌ c s)

negative : ℕ → ℤ
negative zero = ℤ.pos 0
negative (suc n) = ℤ.negsuc n

up_to : ℕ → (ℕ → ℤ) → Option ℕ → Option ℤ
up_to limit sign none = none
up_to limit sign (some n) = if leb n limit then some (sign n) else none

-- `str::parse::<i16>`: a sign, digits, and a value from -32768 to 32767.
unfoldable pub parse_i16 : String → Option ℤ
unfolding digits_value unsigned negative up_to
parse_i16 String.[] = none
parse_i16 (String.◌∷◌ c s) =
    if nat_eq (code c) b'-'
    then up_to 32768 negative (unsigned s)
    else if nat_eq (code c) b'+'
    then up_to 32767 ℤ.pos (unsigned s)
    else up_to 32767 ℤ.pos (unsigned (String.◌∷◌ c s))

octal_value : ℕ → String → Option ℕ
octal_value n String.[] = some n
octal_value n (String.◌∷◌ c s) =
    let rest = octal_value (8 * n + (code c - b'0')) s in
    if leb b'0' (code c) && leb (code c) b'7' then rest else none

octal_digits : String → Option ℕ
octal_digits String.[] = none
octal_digits (String.◌∷◌ c s) = octal_value 0 (String.◌∷◌ c s)

within_u32 : Option ℕ → Option ℕ
within_u32 none = none
within_u32 (some n) = if ltb n (2 ^ 32) then some n else none

-- `u32::from_str_radix(s, 8)`: a `+`, if any, and octal digits.
unfoldable pub parse_octal : String → Option ℕ
unfolding octal_value octal_digits within_u32
parse_octal String.[] = none
parse_octal (String.◌∷◌ c s) =
    if nat_eq (code c) b'+'
    then within_u32 (octal_digits s)
    else within_u32 (octal_digits (String.◌∷◌ c s))
