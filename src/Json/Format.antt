-- ===== src/Json/Format.antt =====
-- When a format string gives a part of a JSON text, whatever its arguments are: the recogniser is
-- run over the pieces of the format, and takes a directive for what it prints.
pub mod Plain
pub mod Numbers
pub mod Directive
pub mod Sound
use atophttpd.Prelude.{
  ℕ, zero, suc, ◌+◌, ◌≤◌, ◌≡◌, Bool, true, false, not, ◌&&◌, List, [], ◌∷◌, Option, none, some, ℤ,
  Bytes, leb, ◌==◌, if◌then◌else◌, length, All, Run, Returns, int_limit,
}
use atophttpd.Printf.{
  Arg, int, str, header, chr, double, Conversion, decimal, hexadecimal, text, character, fixed,
  unknown, Piece, lit, dir, is_64, is_32, cut, pieces, plain,
}
use atophttpd.Json.Syntax.{
  class_of, Frame, Mode, value, key, at_colon, in_string, after, State, step, run,
}
use atophttpd.Json.Syntax.Cover.{Reaches}

-- A byte that a JSON string takes as it is.
abbrev pub is_plain : ℕ → Bool
is_plain c = leb 32 c && (not (c == b'"') && not (c == b'\\'))

abbrev pub Plain : Bytes → Type 0
Plain s = All (λ c. is_plain c ≡ true) s

-- What is asked of the text of a floating-point number: a JSON number of bounded length.
pub record IsFixed (t : Bytes) : Type 0 where
  pub number : (fs : List Frame) → Reaches (after, fs) (run (value, fs) t)
  pub plain_text : Plain t
  pub short : length t ≤ 32

-- What is asked of an argument of a directive.
abbrev pub Fits : Option ℕ → Conversion → Arg → Type 0
Fits p decimal (int r) = Returns r (λ z. is_64 z ≡ true)
Fits p hexadecimal (int r) = Returns r (λ z. is_32 z ≡ true)
Fits none text (str s) = Plain s × (length s ≤ 64)
Fits (some n) text (str s) = Plain s
Fits p text (header s) = Plain s × (length s ≤ 16)
Fits p character (chr c) = is_plain c ≡ true
Fits p fixed (double d) = (n : ℕ) → IsFixed (d n)
Fits p _ _ = ⊥

abbrev pub ArgsFit : List Piece → List Arg → Type 0
ArgsFit [] args = Unit
ArgsFit (lit c ∷ ps) args = ArgsFit ps args
ArgsFit (dir w p k ∷ ps) [] = ⊥
ArgsFit (dir w p k ∷ ps) (a ∷ args) = Fits p k a × ArgsFit ps args

-- The arguments of a format string.
abbrev pub FormatFits : Bytes → List Arg → Type 0
FormatFits fmt args = ArgsFit (pieces plain fmt) args

-- Where a directive may stand.
pub data Place : Type 0 where
  at_value at_key inside nowhere : Place

abbrev pub place : Mode → Place
place value = at_value
place key = at_key
place in_string = inside
place _ = nowhere

abbrev pub prints_number : Conversion → Arg → Bool
prints_number decimal (int r) = true
prints_number fixed (double d) = true
prints_number _ _ = false

abbrev pub prints_header : Conversion → Arg → Bool
prints_header text (header s) = true
prints_header _ _ = false

abbrev pub prints_plain : Conversion → Arg → Bool
prints_plain decimal (int r) = true
prints_plain hexadecimal (int r) = true
prints_plain text (str s) = true
prints_plain character (chr c) = true
prints_plain fixed (double d) = true
prints_plain _ _ = false

abbrev pub after_dir : Place → ℕ → Conversion → Arg → Option Mode
after_dir at_value w k a = if w == 0 && prints_number k a then some after else none
after_dir at_key w k a = if prints_header k a then some at_colon else none
after_dir inside w k a = if prints_plain k a then some in_string else none
after_dir nowhere w k a = none

unfoldable pub check : State → List Piece → List Arg → Option State
unfolding step class_of
check s [] args = some s
check s (lit c ∷ ps) args = elim (step s.0 s.1 (class_of c)) [
  | none ↦ none
  | some s' ↦ check s' ps args
]
check s (dir w p k ∷ ps) [] = none
check s (dir w p k ∷ ps) (a ∷ args) = elim (after_dir (place s.0) w k a) [
  | none ↦ none
  | some m ↦ check (m, s.1) ps args
]

-- The most bytes that a directive, and a format, gives.
abbrev pub dir_bound : Option ℕ → Conversion → ℕ
dir_bound p decimal = 20
dir_bound p hexadecimal = 8
dir_bound none text = 64
dir_bound (some n) text = n + 18
dir_bound p character = 1
dir_bound p fixed = 32
dir_bound p unknown = 0

unfoldable pub bound : List Piece → ℕ
bound [] = 0
bound (lit c ∷ ps) = suc (bound ps)
bound (dir w p k ∷ ps) = w + dir_bound p k + bound ps
