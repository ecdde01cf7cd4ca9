-- ===== src/Json/Format/Directive.antt =====
-- What a directive prints, where the recogniser takes it.
use atophttpd.Prelude.{
  ℕ, ◌+◌, ◌≤◌, ◌≡◌, true, List, [], ◌∷◌, Option, none, some, Bytes, length, length-append, done,
  crash, Returns, arith,
}
use atophttpd.CString.{print_int}
use atophttpd.CString.Width.{length-print_int}
use atophttpd.Printf.{
  Arg, int, str, header, chr, double, Conversion, decimal, hexadecimal, text, character, fixed,
  low_32, print_hex, pad, cut, quoted, convert,
}
use atophttpd.Printf.Length.{length-pad, pad_zero, length-take_le, length-print_hex}
use atophttpd.Json.Syntax.{
  class_of, Frame, value, key, at_colon, in_key, after, step, run, run-append,
}
use atophttpd.Json.Syntax.Cover.{Reaches}
use atophttpd.Json.Format.{Plain, Fits, prints_number, prints_header, prints_plain, dir_bound}
use atophttpd.Json.Format.Plain.{
  run_key-Plain, print_int-Plain, print_hex-Plain, pad-Plain, cut-Plain,
}
use atophttpd.Json.Format.Numbers.{run-print_int}

-- The text of a directive is plain, and not longer than its bound.
abbrev pub IsPart : ℕ → Option ℕ → Conversion → Bytes → Type 0
IsPart w p k t = Plain t × (length t ≤ w + dir_bound p k)

padded :
    (w : ℕ) (p : Option ℕ) (k : Conversion) (s : Bytes)
    → Plain s
    → length s ≤ dir_bound p k
    → IsPart w p k (pad w s)
padded w p k s h l = (pad-Plain w s h, omega (arith, length-pad w s, l))

pub convert_plain :
    (w : ℕ) (p : Option ℕ) (k : Conversion) (a : Arg)
    → prints_plain k a ≡ true
    → Fits p k a
    → Returns (convert w p k a) (IsPart w p k)
unfolding convert
convert_plain w p decimal (int (done z)) h fit =
    rw (fit) (padded w p decimal (print_int z) (print_int-Plain z) (length-print_int z fit))
convert_plain w p hexadecimal (int (done z)) h fit = rw (fit) (
    padded w p hexadecimal (print_hex 8 (low_32 z) []) (print_hex-Plain 8 (low_32 z) [] tt)
      (omega (arith, length-print_hex 8 (low_32 z) [])))
convert_plain w none text (str s) h fit = padded w none text s fit.0 fit.1
convert_plain w (some n) text (str s) h fit =
    padded w (some n) text (cut (some n) s) (cut-Plain (some n) s fit)
      (omega (arith, length-take_le n s))
convert_plain w p character (chr c) h fit = ((fit, tt), omega arith)
convert_plain w none fixed (double d) h fit =
    let f = fit 6 in padded w none fixed (d 6) f.plain_text f.short
convert_plain w (some n) fixed (double d) h fit =
    let f = fit n in padded w (some n) fixed (d n) f.plain_text f.short
convert_plain w p decimal (int crash) h fit = fit
convert_plain w p hexadecimal (int crash) h fit = fit
convert_plain w p k a h fit = cc

-- A number, where a value is expected.
pub convert_number :
    (p : Option ℕ) (k : Conversion) (a : Arg) (fs : List Frame)
    → prints_number k a ≡ true
    → Fits p k a
    → Returns
        (convert 0 p k a)
        (λ t. Reaches (after, fs) (run (value, fs) t) × (length t ≤ dir_bound p k))
unfolding convert
convert_number p decimal (int (done z)) fs h fit =
    rw (fit, pad_zero (print_int z)) (run-print_int fs z fit, length-print_int z fit)
convert_number none fixed (double d) fs h fit =
    let f = fit 6 in rw (pad_zero (d 6)) (f.number fs, f.short)
convert_number (some n) fixed (double d) fs h fit =
    let f = fit n in rw (pad_zero (d n)) (f.number fs, f.short)
convert_number p decimal (int crash) fs h fit = fit
convert_number p k a fs h fit = cc

pub run-quoted :
    (fs : List Frame) (s : Bytes) → Plain s → run (key, fs) (quoted s) ≡ some (at_colon, fs)
unfolding run step class_of
run-quoted fs s h = run-append (in_key, fs) (in_key, fs) s (b'"' ∷ []) (run_key-Plain fs s h)

-- A label in quotes, where a key is expected.
pub convert_header :
    (w : ℕ) (p : Option ℕ) (k : Conversion) (a : Arg) (fs : List Frame)
    → prints_header k a ≡ true
    → Fits p k a
    → Returns
        (convert w p k a)
        (λ t. (run (key, fs) t ≡ some (at_colon, fs)) × (length t ≤ w + dir_bound p k))
unfolding convert
convert_header w none text (header s) fs h fit =
    (run-quoted fs s fit.0, omega (arith, length-append s (b'"' ∷ []), fit.1))
convert_header w (some n) text (header s) fs h fit =
    (run-quoted fs s fit.0, omega (arith, length-append s (b'"' ∷ []), fit.1))
convert_header w p k a fs h fit = cc
