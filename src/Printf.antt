-- ===== src/Printf.antt =====
-- `printf` of the C library, as far as json.c uses it: a format string is read byte by byte into
-- pieces, and the pieces are filled with the arguments.
pub mod Length
use atophttpd.Prelude.{
  ℕ, zero, suc, ◌+◌, ◌-◌, ◌*◌, ◌/◌, ◌%◌, ◌^◌, Bool, true, false, ◌&&◌, ◌||◌, List, [], ◌∷◌, ◌++◌,
  Option, none, some, ℤ, pos, negsuc, pos_part, neg_part, Bytes, codes, String, ltb, leb, ◌==◌,
  if◌then◌else◌, length, take, replicate, Run, done, crash, ◌>>=◌, ◌>>◌, assert,
}
use atophttpd.CString.{is_digit, print_int}

-- A floating-point number, as the texts that `%.*f` gives for each precision.
abbrev pub Double : Type 0
Double = ℕ → Bytes

-- An argument. The computation of a number crashes where a signed operation of C overflows;
-- `header` is a string that is a label in quotes.
pub data Arg : Type 0 where
  int : Run ℤ → Arg
  str header : Bytes → Arg
  chr : ℕ → Arg
  double : Double → Arg

abbrev pub num : ℤ → Arg
num z = int (done z)

pub data Conversion : Type 0 where
  decimal hexadecimal text character fixed unknown : Conversion

-- A byte that is copied, or a directive with its width and precision.
pub data Piece : Type 0 where
  lit : ℕ → Piece
  dir : ℕ → Option ℕ → Conversion → Piece

-- Outside a directive, or inside one with the width and precision so far.
pub data Mode : Type 0 where
  plain : Mode
  directive : ℕ → Option ℕ → Mode

-- What a byte is inside a directive.
pub data Role : Type 0 where
  digit dot modifier : Role
  conversion : Conversion → Role

unfoldable pub role : ℕ → Role
unfolding is_digit
role c =
    if is_digit c
    then digit
    else if c == b'.'
    then dot
    else if c == b'l' || c == b'h'
    then modifier
    else if c == b'd' || c == b'u'
    then conversion decimal
    else if c == b'x'
    then conversion hexadecimal
    else if c == b's'
    then conversion text
    else if c == b'c'
    then conversion character
    else if c == b'f'
    then conversion fixed
    else conversion unknown

abbrev pub with_digit : ℕ → Option ℕ → ℕ → Mode
with_digit width none c = directive (width * 10 + (c - b'0')) none
with_digit width (some p) c = directive width (some (p * 10 + (c - b'0')))

unfoldable pub pieces : Mode → Bytes → List Piece
unfolding role
pieces m [] = []
pieces plain (c ∷ s) = elim (c == b'%') [
  | true ↦ pieces (directive 0 none) s
  | false ↦ lit c ∷ pieces plain s
]
pieces (directive w p) (c ∷ s) = elim (role c) [
  | digit ↦ pieces (with_digit w p c) s
  | dot ↦ pieces (directive w (some 0)) s
  | modifier ↦ pieces (directive w p) s
  | conversion k ↦ dir w p k ∷ pieces plain s
]

-- The lines of a format string.
abbrev pub format : List String → Bytes
format [] = []
format (l ∷ ls) = codes l ++ format ls

abbrev pub pad : ℕ → Bytes → Bytes
pad width s = replicate (width - length s) b' ' ++ s

abbrev pub cut : Option ℕ → Bytes → Bytes
cut none s = s
cut (some p) s = take p s

abbrev pub quoted : Bytes → Bytes
quoted s = b'"' ∷ (s ++ b'"' ∷ [])

abbrev pub hex_digit : ℕ → ℕ
hex_digit n = if ltb n 10 then b'0' + n else b'a' + (n - 10)

-- The hexadecimal digits of a number before those written already, with fuel.
unfoldable pub print_hex : ℕ → ℕ → Bytes → Bytes
print_hex zero n out = out
print_hex (suc fuel) n out =
    let more = print_hex fuel (n / 16) (hex_digit (n % 16) ∷ out) in
    if ltb n 16 then hex_digit n ∷ out else more

-- A number that a type of 64 bits holds, signed or not.
abbrev pub is_64 : ℤ → Bool
is_64 z = ltb (pos_part z) (2 ^ 64) && leb (neg_part z) (2 ^ 63)

-- An `int`, and the bits of it that `%x` prints.
abbrev pub is_32 : ℤ → Bool
is_32 z = ltb (pos_part z) (2 ^ 31) && leb (neg_part z) (2 ^ 31)

abbrev pub low_32 : ℤ → ℕ
low_32 (pos n) = n
low_32 (negsuc n) = 2 ^ 32 - suc n

abbrev pub precision : Option ℕ → ℕ
precision none = 6
precision (some p) = p

-- An argument of another kind than the directive asks for is undefined.
unfoldable pub convert : ℕ → Option ℕ → Conversion → Arg → Run Bytes
convert w p decimal (int r) = do z ← r; assert (is_64 z); done (pad w (print_int z))
convert w p hexadecimal (int r) = do
  z ← r
  assert (is_32 z)
  done (pad w (print_hex 8 (low_32 z) []))
convert w p text (str s) = done (pad w (cut p s))
convert w p text (header s) = done (quoted s)
convert w p character (chr c) = done (c ∷ [])
convert w p fixed (double d) = done (pad w (d (precision p)))
convert w p _ _ = crash

-- Arguments that are left over are ignored; a missing one is undefined.
unfoldable pub render : List Piece → List Arg → Run Bytes
render [] args = done []
render (lit c ∷ ps) args = do rest ← render ps args; done (c ∷ rest)
render (dir w p k ∷ ps) [] = crash
render (dir w p k ∷ ps) (a ∷ args) = do t ← convert w p k a; rest ← render ps args; done (t ++ rest)

unfoldable pub printf : Bytes → List Arg → Run Bytes
printf fmt args = render (pieces plain fmt) args

-- The first bytes of a buffer of some size that `snprintf` has filled, as many as it says the text
-- has. A text as long as the buffer ends in the zero; more bytes are not there.
unfoldable pub filled : ℕ → Bytes → Run Bytes
filled size s =
    if ltb (length s) size
    then done s
    else if length s == size
    then done (take (size - 1) s ++ 0 ∷ [])
    else crash

unfoldable pub snprintf : ℕ → Bytes → List Arg → Run Bytes
snprintf size fmt args = do s ← printf fmt args; filled size s
