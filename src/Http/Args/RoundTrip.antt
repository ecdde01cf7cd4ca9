-- ===== src/Http/Args/RoundTrip.antt =====
-- A request that a client writes is read back by `http_arg_long` and `http_arg_str`.
use atophttpd.Prelude.{
  ℕ, ◌+◌, ◌<◌, ◌≡◌, inl, inr, refl, sym, ap, ◌∙◌, false, [], ◌∷◌, ◌++◌, some, ℤ, pos, negsuc, ◌≤ℤ◌,
  Bytes, ◌==◌, ==_iff, if◌then◌else◌, length, done, arith, Bool-cases,
}
use atophttpd.CString.{print_int, long_max}
use atophttpd.CString.Find.{Lacks, StartsAt, strstr_after-append, before_char-append}
use atophttpd.CString.Number.{NoDigit, atol-print_int}
use atophttpd.Http.Args.{after_equals, http_arg_long, decode, http_arg_str}

-- A client's way to write a list of labels: each comma is escaped.
unfoldable pub encode : Bytes → Bytes
encode [] = []
encode (c ∷ s) = let rest = encode s in if c == b',' then b'%' ∷ b'2' ∷ b'C' ∷ rest else c ∷ rest

decode-cons : (c : ℕ) (s : Bytes) → (c == b'%') ≡ false → decode (c ∷ s) ≡ c ∷ decode s
unfolding decode
decode-cons c [] h = refl
decode-cons c (d ∷ []) h = refl
decode-cons c (d ∷ e ∷ s) h = ground arith

decode-escape : (s : Bytes) → decode (b'%' ∷ b'2' ∷ b'C' ∷ s) ≡ b',' ∷ decode s
unfolding decode
decode-escape s = refl

decode-encode : (s : Bytes) → Lacks b'%' s → decode (encode s) ≡ s
unfolding encode
decode-encode [] h = unfold decode in refl
decode-encode (c ∷ s) h = elim (Bool-cases (c == b',')) [
  | inl comma ↦
      rw (comma, encode)
        (rw (decode-escape (encode s), decode-encode s h.1)
          (ap (λ x. x ∷ s) (sym ((==_iff c b',').0 comma))))
  | inr other ↦ rw (other, encode) (decode-cons c (encode s) h.0 ∙ ap (◌∷◌ c) (decode-encode s h.1))
]

encode-Lacks : (s : Bytes) → Lacks b'&' s → Lacks b'&' (encode s)
unfolding encode
encode-Lacks [] h = tt
encode-Lacks (c ∷ s) h = elim (Bool-cases (c == b',')) [
  | inl comma ↦ rw (comma, encode) (refl, (refl, (refl, encode-Lacks s h.1)))
  | inr other ↦ rw (other, encode) (h.0, encode-Lacks s h.1)
]

module _ (pre : Bytes) (n : ℕ) (needle : Bytes) (absent : Lacks n pre) where
  after_equals-append :
      (s : Bytes) → after_equals (pre ++ ((n ∷ needle) ++ (b'=' ∷ s))) (n ∷ needle) ≡ some s
  unfolding after_equals
  after_equals-append s = rw (after_equals, strstr_after-append pre n needle (b'=' ∷ s) absent)

  -- `http_arg_long` reads the number back that stands after the first `needle=`, if the needle's
  -- first character is not before it.
  pub http_arg_long-print_int :
      (z : ℤ) (rest : Bytes)
      → negsuc long_max ≤ℤ z
      → z ≤ℤ pos long_max
      → NoDigit rest
      → http_arg_long (pre ++ ((n ∷ needle) ++ (b'=' ∷ (print_int z ++ rest)))) (n ∷ needle)
        ≡ some z
  unfolding http_arg_long
  http_arg_long-print_int z rest lo hi stop =
      rw (http_arg_long, after_equals-append, atol-print_int z rest lo hi stop)

  module _ (v rest : Bytes) (len : ℕ) (starts : StartsAt b'&' rest) (no_amp : Lacks b'&' v) where
    -- `http_arg_str` gives the text back that a client wrote with its commas escaped, if it fits
    -- the buffer with two bytes to spare and holds no `&` and no `%`.
    pub http_arg_str-encode :
        Lacks b'%' v
        → length (encode v) + 1 < len
        → http_arg_str (pre ++ ((n ∷ needle) ++ (b'=' ∷ (encode v ++ rest)))) (n ∷ needle) len
          ≡ done (some v)
    unfolding http_arg_str
    http_arg_str-encode no_percent fits =
        rw
          (
            http_arg_str,
            after_equals-append,
            before_char-append b'&' (encode v) rest (encode-Lacks v no_amp) starts,
          )
          (ground (arith, decode-encode v no_percent))
