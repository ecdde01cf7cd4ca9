-- ===== src/Json/Format/Plain.antt =====
-- Texts that stand inside a JSON string.
use atophttpd.Prelude.{
  ℕ, zero, suc, ◌+◌, ◌-◌, ◌/◌, ◌%◌, ◌<◌, ◌≡◌, inl, inr, refl, true, List, [], ◌∷◌, Option, none,
  some, ℤ, pos, negsuc, Bytes, ltb, length, take, replicate, All-append, arith, Bool-cases,
}
use atophttpd.CString.{print_digits, print_nat, print_int}
use atophttpd.Printf.{pad, cut, hex_digit, print_hex}
use atophttpd.Json.Syntax.{class_of, Frame, in_key, in_string, step, run}
use atophttpd.Json.Format.{is_plain, Plain}

step-Plain :
    (fs : List Frame) (c : ℕ)
    → is_plain c ≡ true
    → (step in_string fs (class_of c) ≡ some (in_string, fs))
      × (step in_key fs (class_of c) ≡ some (in_key, fs))
unfolding step class_of
step-Plain fs c h = ground arith

pub run-Plain :
    (fs : List Frame) (s : Bytes) → Plain s → run (in_string, fs) s ≡ some (in_string, fs)
unfolding run
run-Plain fs [] h = refl
run-Plain fs (c ∷ s) h = rw ((step-Plain fs c h.0).0, run) (run-Plain fs s h.1)

pub run_key-Plain : (fs : List Frame) (s : Bytes) → Plain s → run (in_key, fs) s ≡ some (in_key, fs)
unfolding run
run_key-Plain fs [] h = refl
run_key-Plain fs (c ∷ s) h = rw ((step-Plain fs c h.0).1, run) (run_key-Plain fs s h.1)

print_digits-Plain : (fuel n : ℕ) (out : Bytes) → Plain out → Plain (print_digits fuel n out)
unfolding print_digits
print_digits-Plain zero n out h = h
print_digits-Plain (suc fuel) n out h = elim (Bool-cases (ltb n 10)) [
  | inl small ↦ rw (small, print_digits) (ground arith, h)
  | inr large ↦
      rw (large, print_digits)
        (print_digits-Plain fuel (n / 10) ((b'0' + n % 10) ∷ out) (ground arith, h))
]

pub print_int-Plain : (z : ℤ) → Plain (print_int z)
unfolding print_int print_nat
print_int-Plain (pos n) = print_digits-Plain 20 n [] tt
print_int-Plain (negsuc n) = (refl, print_digits-Plain 20 (suc n) [] tt)

hex_digit-plain : (n : ℕ) → n < 16 → is_plain (hex_digit n) ≡ true
hex_digit-plain n h = ground arith

pub print_hex-Plain : (fuel n : ℕ) (out : Bytes) → Plain out → Plain (print_hex fuel n out)
unfolding print_hex
print_hex-Plain zero n out h = h
print_hex-Plain (suc fuel) n out h = elim (Bool-cases (ltb n 16)) [
  | inl small ↦ rw (small, print_hex) (hex_digit-plain n (ground arith), h)
  | inr large ↦
      rw (large, print_hex)
        (print_hex-Plain fuel (n / 16) (hex_digit (n % 16) ∷ out)
          (hex_digit-plain (n % 16) (omega arith), h))
]

replicate-Plain : (n : ℕ) → Plain (replicate n b' ')
replicate-Plain zero = tt
replicate-Plain (suc n) = (refl, replicate-Plain n)

pub pad-Plain : (w : ℕ) (s : Bytes) → Plain s → Plain (pad w s)
pad-Plain w s h = All-append _ (replicate (w - length s) b' ') s (replicate-Plain (w - length s)) h

take-Plain : (n : ℕ) (s : Bytes) → Plain s → Plain (take n s)
take-Plain zero s h = tt
take-Plain (suc n) [] h = tt
take-Plain (suc n) (c ∷ s) h = (h.0, take-Plain n s h.1)

pub cut-Plain : (p : Option ℕ) (s : Bytes) → Plain s → Plain (cut p s)
cut-Plain none s h = h
cut-Plain (some n) s h = take-Plain n s h
