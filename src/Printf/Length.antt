-- ===== src/Printf/Length.antt =====
-- How long the text of a directive is.
use atophttpd.Prelude.{
  ℕ, zero, suc, ◌+◌, ◌-◌, ◌/◌, ◌%◌, ◌≤◌, ◌≡◌, refl, inl, inr, [], ◌∷◌, Bytes, ltb, length,
  length-append, take, replicate, arith, Bool-cases,
}
use atophttpd.Printf.{pad, hex_digit, print_hex}

length-replicate : (n c : ℕ) → length (replicate n c) ≡ n
length-replicate zero c = omega arith
length-replicate (suc n) c = omega (arith, length-replicate n c)

pub length-pad : (w : ℕ) (s : Bytes) → length (pad w s) ≤ w + length s
length-pad w s =
    omega
      (arith, length-append (replicate (w - length s) b' ') s, length-replicate (w - length s) b' ')

pub length-take_le : (n : ℕ) (s : Bytes) → length (take n s) ≤ n
length-take_le zero s = omega arith
length-take_le (suc n) [] = omega arith
length-take_le (suc n) (c ∷ s) = omega (arith, length-take_le n s)

pub length-print_hex :
    (fuel n : ℕ) (out : Bytes) → length (print_hex fuel n out) ≤ fuel + length out
unfolding print_hex
length-print_hex zero n out = omega arith
length-print_hex (suc fuel) n out = elim (Bool-cases (ltb n 16)) [
  | inl small ↦ rw (small, print_hex) (omega arith)
  | inr large ↦
      rw (large, print_hex)
        (omega (arith, length-print_hex fuel (n / 16) (hex_digit (n % 16) ∷ out)))
]

pub pad_zero : (s : Bytes) → pad 0 s ≡ s
pad_zero s = let e : 0 - length s ≡ 0 = omega arith in rw (e) refl
