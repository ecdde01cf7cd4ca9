-- ===== src/CString/Length.antt =====
-- How long the strings are that the searches of the C library find.
use atophttpd.Prelude.{
  ℕ, ◌+◌, ◌≤◌, ◌≡◌, inl, inr, sym, [], ◌∷◌, some, Bytes, ◌==◌, length, arith, Bool-cases,
  Option-cases,
}
use mathlib.Core.Option.{some-injective}
use atophttpd.CString.{before_char, after_prefix, strstr_after}

pub length-before_char : (d : ℕ) (s : Bytes) → length (before_char d s) ≤ length s
unfolding before_char
length-before_char d [] = omega arith
length-before_char d (c ∷ s) = ground (arith, length-before_char d s)

length-after_prefix :
    (needle s rest : Bytes)
    → after_prefix needle s ≡ some rest
    → length rest + length needle ≡ length s
unfolding after_prefix
length-after_prefix [] s rest h = rw (some-injective s rest h) (omega arith)
length-after_prefix (n ∷ needle) [] rest h = cc
length-after_prefix (n ∷ needle) (c ∷ s) rest h = elim (Bool-cases (n == c)) [
  | inl y ↦
      let k : after_prefix needle s ≡ some rest = ground (arith, h, y) in
      omega (arith, length-after_prefix needle s rest k)
  | inr y ↦ absurd (ground (arith, h, y))
]

pub length-strstr_after :
    (s needle rest : Bytes)
    → strstr_after s needle ≡ some rest
    → length rest + length needle ≤ length s
unfolding strstr_after
length-strstr_after [] needle rest h = omega (arith, length-after_prefix needle [] rest h)
length-strstr_after (c ∷ s) needle rest h = elim (Option-cases (after_prefix needle (c ∷ s))) [
  | inl n ↦
      let k : strstr_after s needle ≡ some rest = rw (n, strstr_after) at h in
      omega (arith, length-strstr_after s needle rest k)
  | inr (r, e) ↦
      let k : some r ≡ some rest = rw (e, strstr_after) at h in
      let l = length-after_prefix needle (c ∷ s) r e in
      rw (sym (some-injective r rest k)) (omega (arith, l))
]
