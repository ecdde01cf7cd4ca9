-- ===== src/CString.antt =====
-- What httpd.c and json.c use of the C library on strings: `strstr`, `strchr`, `atol`, and the
-- number formats of `printf`.
pub mod Find
pub mod Length
pub mod Number
pub mod Width
use atophttpd.Prelude.{
  ℕ, zero, suc, ◌+◌, ◌-◌, ◌*◌, ◌/◌, ◌%◌, ◌^◌, Bool, true, false, ◌&&◌, ◌||◌, List, [], ◌∷◌, ◌++◌,
  Option, none, some, ℤ, pos, negsuc, Bytes, codes, ltb, leb, ◌==◌, if◌then◌else◌,
}

-- What follows a prefix of a string.
unfoldable pub after_prefix : Bytes → Bytes → Option Bytes
after_prefix [] s = some s
after_prefix (n ∷ needle) [] = none
after_prefix (n ∷ needle) (c ∷ s) = if n == c then after_prefix needle s else none

-- `strstr(s, needle) + strlen(needle)`: what follows the first occurrence.
unfoldable pub strstr_after : Bytes → Bytes → Option Bytes
unfolding after_prefix
strstr_after [] needle = after_prefix needle []
strstr_after (c ∷ s) needle = elim (after_prefix needle (c ∷ s)) [
  | some rest ↦ some rest
  | none ↦ strstr_after s needle
]

-- The part of a string before a character, all of it if the character is not there; and the part
-- from that character on.
unfoldable pub before_char : ℕ → Bytes → Bytes
before_char d [] = []
before_char d (c ∷ s) = if c == d then [] else c ∷ before_char d s

unfoldable pub from_char : ℕ → Bytes → Bytes
from_char d [] = []
from_char d (c ∷ s) = if c == d then c ∷ s else from_char d s

unfoldable pub is_digit : ℕ → Bool
is_digit c = leb b'0' c && leb c b'9'

-- `isspace` of the C locale
unfoldable pub is_space : ℕ → Bool
is_space c = c == 32 || (leb 9 c && leb c 13)

-- The value of the digits at the start of a string, after those read already.
unfoldable pub digits_value : ℕ → Bytes → ℕ
unfolding is_digit
digits_value n [] = n
digits_value n (c ∷ s) = elim (is_digit c) [
  | true ↦ digits_value (n * 10 + (c - b'0')) s
  | false ↦ n
]

abbrev pub long_max : ℕ
long_max = 2 ^ 63 - 1

-- `strtol` stops at the limits of a `long`.
unfoldable pub clamp_pos : ℕ → ℤ
clamp_pos n = if ltb long_max n then pos long_max else pos n

unfoldable pub clamp_neg : ℕ → ℤ
clamp_neg zero = pos 0
clamp_neg (suc n) = if ltb long_max n then negsuc long_max else negsuc n

unfoldable pub atol_unsigned : Bytes → ℤ
unfolding digits_value clamp_pos clamp_neg
atol_unsigned [] = pos 0
atol_unsigned (c ∷ s) =
    if c == b'-'
    then clamp_neg (digits_value 0 s)
    else if c == b'+'
    then clamp_pos (digits_value 0 s)
    else clamp_pos (digits_value 0 (c ∷ s))

unfoldable pub atol : Bytes → ℤ
unfolding atol_unsigned is_space
atol [] = pos 0
atol (c ∷ s) = if is_space c then atol s else atol_unsigned (c ∷ s)

-- The digits of a number before those written already, with fuel.
unfoldable pub print_digits : ℕ → ℕ → Bytes → Bytes
print_digits zero n out = out
print_digits (suc fuel) n out =
    let more = print_digits fuel (n / 10) ((b'0' + n % 10) ∷ out) in
    if ltb n 10 then (b'0' + n) ∷ out else more

-- `%lu`: twenty digits are enough for 64 bits.
unfoldable pub print_nat : ℕ → Bytes
unfolding print_digits
print_nat n = print_digits 20 n []

-- `%ld`, `%lld`, `%d`
unfoldable pub print_int : ℤ → Bytes
unfolding print_nat
print_int (pos n) = print_nat n
print_int (negsuc n) = b'-' ∷ print_nat (suc n)
