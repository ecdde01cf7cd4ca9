-- ===== src/Http/Response/Head.antt =====
-- The head of a response fits its buffer.
use atophttpd.Prelude.{
  ℕ, suc, ◌-◌, ◌%◌, ◌^◌, ◌≤◌, ◌<◌, inl, inr, [], ◌++◌, ltb, length, length-append, arith,
  Bool-cases,
}
use atophttpd.CString.{print_nat, print_int}
use atophttpd.CString.Number.{pow10}
use atophttpd.CString.Width.{length-print_digits}
use atophttpd.Http.Response.{
  Encoding, plain, deflate, ContentType, html, css, javascript, crlf, int_of_size, http_generic,
}

length-print_nat : (n : ℕ) → n < pow10 10 → length (print_nat n) ≤ 10
unfolding print_nat
length-print_nat n h = omega (arith, length-print_digits 9 20 n [] h)

length-print_int_of_size : (n : ℕ) → length (print_int (int_of_size n)) ≤ 11
unfolding print_int int_of_size
length-print_int_of_size n = elim (Bool-cases (ltb (n % 2 ^ 32) (2 ^ 31))) [
  | inl low ↦ rw (int_of_size, low) (omega (arith, length-print_nat (n % 2 ^ 32) (omega arith)))
  | inr high ↦
      rw (int_of_size, high)
        (omega (arith, length-print_nat (suc (2 ^ 32 - 1 - n % 2 ^ 32)) (omega arith)))
]

size_line-le : (n : ℕ) → length (print_int (int_of_size n) ++ (crlf ++ crlf)) ≤ 15
size_line-le n =
    omega
      (arith, length-append (print_int (int_of_size n)) (crlf ++ crlf), length-print_int_of_size n)

-- For every encoding, content type and length the head of a response and its terminating zero fit
-- the 128 bytes that it is printed into.
pub http_generic-lt : (e : Encoding) (c : ContentType) (n : ℕ) → length (http_generic e c n) < 128
unfolding http_generic
http_generic-lt plain html n = omega (arith, size_line-le n)
http_generic-lt plain css n = omega (arith, size_line-le n)
http_generic-lt plain javascript n = omega (arith, size_line-le n)
http_generic-lt deflate html n = omega (arith, size_line-le n)
http_generic-lt deflate css n = omega (arith, size_line-le n)
http_generic-lt deflate javascript n = omega (arith, size_line-le n)
