-- ===== src/CString/Width.antt =====
-- How long printed numbers are.
use atophttpd.Prelude.{
  ℕ, zero, suc, ◌+◌, ◌/◌, ◌%◌, ◌≤◌, ◌<◌, ◌≡◌, inl, inr, true, [], ◌∷◌, ℤ, pos, negsuc, Bytes, ltb,
  length, arith, Bool-cases,
}
use atophttpd.CString.{print_digits, print_nat, print_int}
use atophttpd.CString.Number.{pow10}
use atophttpd.Printf.{is_64}

pub length-print_digits :
    (k fuel n : ℕ) (out : Bytes)
    → n < pow10 (suc k)
    → length (print_digits fuel n out) ≤ suc k + length out
unfolding print_digits
length-print_digits k zero n out h = omega arith
length-print_digits zero (suc fuel) n out h =
    let small : ltb n 10 ≡ true = ground arith in rw (small, print_digits) (omega arith)
length-print_digits (suc k) (suc fuel) n out h = elim (Bool-cases (ltb n 10)) [
  | inl small ↦ rw (small, print_digits) (omega arith)
  | inr large ↦
      rw (large, print_digits)
        (omega (arith, length-print_digits k fuel (n / 10) ((b'0' + n % 10) ∷ out) (omega arith)))
]

-- Twenty bytes hold any number of 64 bits.
pub length-print_int : (z : ℤ) → is_64 z ≡ true → length (print_int z) ≤ 20
unfolding print_int print_nat
length-print_int (pos n) h = omega (arith, length-print_digits 19 20 n [] (ground (arith, h)))
length-print_int (negsuc n) h =
    omega (arith, length-print_digits 18 20 (suc n) [] (ground (arith, h)))
