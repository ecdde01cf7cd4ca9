-- ===== src/Json/Format/Numbers.antt =====
-- Printed integers are JSON numbers, and how long they are.
use atophttpd.Prelude.{
  ℕ, zero, suc, ◌+◌, ◌/◌, ◌%◌, ◌<◌, ◌≡◌, inl, inr, refl, ◌∙◌, true, List, [], ◌∷◌, some, ℤ, pos,
  negsuc, Bytes, ltb, ltb→lt, ltb→le, arith, Bool-cases,
}
use atophttpd.CString.{print_digits, print_nat, print_int}
use atophttpd.CString.Number.{pow10}
use atophttpd.Printf.{is_64}
use atophttpd.Json.Syntax.{
  class_of, digit, Frame, Mode, value, after_minus, after_zero, digits, after, step, run,
}
use atophttpd.Json.Syntax.Cover.{Covers, number, zero, Reaches}

step-digits :
    (fs : List Frame) (d : ℕ) → d < 10 → step digits fs (class_of (b'0' + d)) ≡ some (digits, fs)
unfolding step class_of
step-digits fs d h = ground arith

class_of-digit : (d : ℕ) → 0 < d → d < 10 → class_of (b'0' + d) ≡ digit
unfolding class_of
class_of-digit d pos_ h = ground arith

-- The digits of a positive number, where a number may begin.
run-print_digits :
    (m : Mode) (fs : List Frame)
    → step m fs digit ≡ some (digits, fs)
    → (fuel n : ℕ) (out : Bytes) → 0 < n
    → n < pow10 (suc fuel)
    → run (m, fs) (print_digits (suc fuel) n out) ≡ run (digits, fs) out
unfolding print_digits run
run-print_digits m fs e zero n out lo hi =
    let small : ltb n 10 ≡ true = ground arith in
    rw (small, print_digits) (rw (class_of-digit n lo (omega arith), e, run) refl)
run-print_digits m fs e (suc k) n out lo hi = elim (Bool-cases (ltb n 10)) [
  | inl small ↦ rw (small, print_digits) (rw (class_of-digit n lo (ltb→lt n 10 small), e, run) refl)
  | inr large ↦
      let l = ltb→le n 10 large in
      rw (large, print_digits)
        (run-print_digits m fs e k (n / 10) ((b'0' + n % 10) ∷ out) (omega (arith, l))
            (omega (arith, hi))
          ∙ rw (step-digits fs (n % 10) (omega arith), run) refl)
]

run-print_nat :
    (fs : List Frame) (n : ℕ) → n < pow10 20 → Reaches (after, fs) (run (value, fs) (print_nat n))
unfolding print_nat run step class_of print_digits
run-print_nat fs zero h = (after_zero, refl, Covers.zero)
run-print_nat fs (suc n) h =
    (digits, run-print_digits value fs refl 19 (suc n) [] (omega arith) h, number)

pub run-print_int :
    (fs : List Frame) (z : ℤ) → is_64 z ≡ true → Reaches (after, fs) (run (value, fs) (print_int z))
unfolding print_int
run-print_int fs (pos n) h = run-print_nat fs n (ground (arith, h))
run-print_int fs (negsuc n) h = (
  digits,
  unfold run step class_of print_nat in
      run-print_digits after_minus fs refl 19 (suc n) [] (omega arith) (ground (arith, h)),
  number,
)
