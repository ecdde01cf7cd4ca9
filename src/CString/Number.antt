-- ===== src/CString/Number.antt =====
-- Numbers printed and read back.
use atophttpd.Prelude.{
  ℕ, zero, suc, ◌+◌, ◌*◌, ◌/◌, ◌%◌, ◌≤◌, ◌<◌, ◌≡◌, inl, inr, refl, ap, ◌∙◌, true, false, [], ◌∷◌,
  ◌++◌, Bytes, arith, ltb, ltb→lt, Bool-cases, ℤ, pos, negsuc, ◌≤ℤ◌,
}
use atophttpd.CString.{
  is_digit, is_space, digits_value, long_max, clamp_pos, clamp_neg, atol_unsigned, atol,
  print_digits, print_nat, print_int,
}

abbrev pub pow10 : ℕ → ℕ
pow10 zero = 1
pow10 (suc k) = 10 * pow10 k

-- Not beginning with a digit.
abbrev pub NoDigit : Bytes → Type 0
NoDigit [] = Unit
NoDigit (c ∷ s) = is_digit c ≡ false

digits_value-cons :
    (m d : ℕ) (out : Bytes)
    → d < 10
    → digits_value m ((b'0' + d) ∷ out) ≡ digits_value (m * 10 + d) out
unfolding digits_value
digits_value-cons m d out h =
    let digit : is_digit (b'0' + d) ≡ true = unfold is_digit in ground arith in
    rw (digits_value, digit) (ap (λ k. digits_value (m * 10 + k) out) (omega arith))

digits_value_stop : (n : ℕ) (rest : Bytes) → NoDigit rest → digits_value n rest ≡ n
unfolding digits_value
digits_value_stop n [] h = refl
digits_value_stop n (c ∷ rest) h = rw (digits_value, h)

digits_value-print_digits :
    (fuel n : ℕ) (out : Bytes)
    → n < pow10 fuel
    → digits_value 0 (print_digits fuel n out) ≡ digits_value n out
unfolding digits_value print_digits
digits_value-print_digits zero n out h = let e : n ≡ 0 = omega arith in rw e
digits_value-print_digits (suc k) n out h = elim (Bool-cases (ltb n 10)) [
  | inl small ↦
      rw (small, print_digits)
        (digits_value-cons 0 n out (ltb→lt n 10 small) ∙ ap (λ k. digits_value k out) (omega arith))
  | inr large ↦
      rw (large, print_digits)
        (digits_value-print_digits k (n / 10) ((b'0' + n % 10) ∷ out) (omega arith)
          ∙ digits_value-cons (n / 10) (n % 10) out (omega arith)
          ∙ ap (λ k. digits_value k out) (omega arith))
]

print_digits-append :
    (fuel n : ℕ) (out rest : Bytes)
    → print_digits fuel n out ++ rest ≡ print_digits fuel n (out ++ rest)
unfolding print_digits
print_digits-append zero n out rest = refl
print_digits-append (suc k) n out rest = elim (Bool-cases (ltb n 10)) [
  | inl small ↦ rw (small, print_digits)
  | inr large ↦
      rw (large, print_digits) (print_digits-append k (n / 10) ((b'0' + n % 10) ∷ out) rest)
]

-- A printed number begins with a digit.
record Digits (s : Bytes) : Type 0 where
  first : ℕ
  others : Bytes
  shape : s ≡ first ∷ others
  above : b'0' ≤ first
  below : first ≤ b'9'

one_digit : (n : ℕ) (out : Bytes) → n < 10 → Digits ((b'0' + n) ∷ out)
one_digit n out h = record {
  first = b'0' + n;
  others = out;
  shape = refl;
  above = omega arith;
  below = omega arith;
}

print_digits-Digits :
    (fuel n : ℕ) (out : Bytes) → n < pow10 (suc fuel) → Digits (print_digits (suc fuel) n out)
unfolding print_digits
print_digits-Digits zero n out h =
    let small : ltb n 10 ≡ true = ground arith in
    rw (small, print_digits) (one_digit n out (omega arith))
print_digits-Digits (suc k) n out h = elim (Bool-cases (ltb n 10)) [
  | inl small ↦ rw (small, print_digits) (one_digit n out (ltb→lt n 10 small))
  | inr large ↦
      rw (large, print_digits)
        (print_digits-Digits k (n / 10) ((b'0' + n % 10) ∷ out) (omega arith))
]

-- The numbers that twenty digits hold, which are those of 64 bits among others.
pub digits_value-print_nat :
    (n : ℕ) (rest : Bytes) → n < pow10 20 → NoDigit rest → digits_value 0 (print_nat n ++ rest) ≡ n
unfolding print_nat
digits_value-print_nat n rest h stop =
    ap (digits_value 0) (print_digits-append 20 n [] rest)
    ∙ digits_value-print_digits 20 n rest h
    ∙ digits_value_stop n rest stop

print_nat-Digits : (n : ℕ) (rest : Bytes) → n < pow10 20 → Digits (print_nat n ++ rest)
unfolding print_nat
print_nat-Digits n rest h = rw (print_digits-append 20 n [] rest) (print_digits-Digits 19 n rest h)

atol-Digits : (s : Bytes) → Digits s → atol s ≡ clamp_pos (digits_value 0 s)
unfolding atol is_space
atol-Digits s d = rw d.shape (ground (arith, d.above, d.below))

atol_minus : (s : Bytes) → atol (b'-' ∷ s) ≡ clamp_neg (digits_value 0 s)
unfolding atol is_space atol_unsigned
atol_minus s = refl

clamp_pos_lem : (n : ℕ) → pos n ≤ℤ pos long_max → clamp_pos n ≡ pos n
unfolding clamp_pos
clamp_pos_lem n h = ground arith

clamp_neg_lem : (n : ℕ) → negsuc long_max ≤ℤ negsuc n → clamp_neg (suc n) ≡ negsuc n
unfolding clamp_neg
clamp_neg_lem n h = ground arith

-- A number of type `long` that is printed with `%ld` is read back by `atol`, from a text that goes
-- on with anything but a digit.
pub atol-print_int :
    (z : ℤ) (rest : Bytes)
    → negsuc long_max ≤ℤ z
    → z ≤ℤ pos long_max
    → NoDigit rest
    → atol (print_int z ++ rest) ≡ z
unfolding print_int
atol-print_int (pos n) rest lo hi stop =
    atol-Digits (print_nat n ++ rest) (print_nat-Digits n rest (omega arith))
    ∙ ap clamp_pos (digits_value-print_nat n rest (omega arith) stop)
    ∙ clamp_pos_lem n hi
atol-print_int (negsuc n) rest lo hi stop =
    atol_minus (print_nat (suc n) ++ rest)
    ∙ ap clamp_neg (digits_value-print_nat (suc n) rest (omega arith) stop)
    ∙ clamp_neg_lem n lo
