-- ===== src/Examples/Fitting.antt =====
-- Arguments of a format string, tested.
use atophttpd.Prelude.{
  ℕ, ◌≡◌, Bool, true, false, ◌&&◌, List, [], ◌∷◌, Option, none, some, Bytes, leb, length, done,
  leb→le,
}
use atophttpd.Printf.{
  Arg, int, str, header, chr, Conversion, decimal, hexadecimal, text, character, Piece, lit, dir,
  is_64, is_32, pieces, plain,
}
use atophttpd.Json.Format.{is_plain, Plain, Fits, ArgsFit, FormatFits}

abbrev all_plain : Bytes → Bool
all_plain [] = true
all_plain (c ∷ s) = is_plain c && all_plain s

abbrev arg_fits : Option ℕ → Conversion → Arg → Bool
arg_fits p decimal (int (done z)) = is_64 z
arg_fits p hexadecimal (int (done z)) = is_32 z
arg_fits none text (str s) = all_plain s && leb (length s) 64
arg_fits (some n) text (str s) = all_plain s
arg_fits p text (header s) = all_plain s && leb (length s) 16
arg_fits p character (chr c) = is_plain c
arg_fits p _ _ = false

abbrev args_fit : List Piece → List Arg → Bool
args_fit [] args = true
args_fit (lit c ∷ ps) args = args_fit ps args
args_fit (dir w p k ∷ ps) [] = false
args_fit (dir w p k ∷ ps) (a ∷ args) = arg_fits p k a && args_fit ps args

-- The test of a format string with its arguments.
abbrev pub format_fits : Bytes → List Arg → Bool
format_fits fmt args = args_fit (pieces plain fmt) args

both : (b c : Bool) → (b && c) ≡ true → (b ≡ true) × (c ≡ true)
both true true h = (h, h)
both true false h = absurd (cc h)
both false c h = absurd (cc h)

all_plain_lem : (s : Bytes) → all_plain s ≡ true → Plain s
all_plain_lem [] h = tt
all_plain_lem (c ∷ s) h = let (p, q) = both _ _ h in (p, all_plain_lem s q)

arg_fits_lem : (p : Option ℕ) (k : Conversion) (a : Arg) → arg_fits p k a ≡ true → Fits p k a
arg_fits_lem none decimal (int (done z)) h = h
arg_fits_lem (some n) decimal (int (done z)) h = h
arg_fits_lem none hexadecimal (int (done z)) h = h
arg_fits_lem (some n) hexadecimal (int (done z)) h = h
arg_fits_lem none text (str s) h = let (p, q) = both _ _ h in (all_plain_lem s p, leb→le _ _ q)
arg_fits_lem (some n) text (str s) h = all_plain_lem s h
arg_fits_lem none text (header s) h = let (p, q) = both _ _ h in (all_plain_lem s p, leb→le _ _ q)
arg_fits_lem (some n) text (header s) h =
    let (p, q) = both _ _ h in (all_plain_lem s p, leb→le _ _ q)
arg_fits_lem none character (chr c) h = h
arg_fits_lem (some n) character (chr c) h = h
arg_fits_lem p k a h = absurd (cc h)

args_fit_lem : (ps : List Piece) (args : List Arg) → args_fit ps args ≡ true → ArgsFit ps args
args_fit_lem [] args h = tt
args_fit_lem (lit c ∷ ps) args h = args_fit_lem ps args h
args_fit_lem (dir w p k ∷ ps) [] h = absurd (cc h)
args_fit_lem (dir w p k ∷ ps) (a ∷ args) h =
    let (x, y) = both _ _ h in (arg_fits_lem p k a x, args_fit_lem ps args y)

pub format_fits_lem :
    (fmt : Bytes) (args : List Arg) → format_fits fmt args ≡ true → FormatFits fmt args
format_fits_lem fmt args h = args_fit_lem (pieces plain fmt) args h
