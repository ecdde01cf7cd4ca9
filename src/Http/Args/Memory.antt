-- ===== src/Http/Args/Memory.antt =====
-- `http_arg_str` on the memory of its buffer.
use atophttpd.Prelude.{
  ℕ, zero, suc, ◌+◌, ◌<◌, ◌≡◌, inl, inr, refl, ap, ◌≤◌, true, false, not, ◌||◌, [], ◌∷◌, lt→ltb,
  ltb→lt, ◌++◌, some, Bytes, ltb, leb, length, drop, done, ◌>>=◌, ◌>>◌, assert, Bool-cases,
  Option-cases, arith,
}
use atophttpd.CString.{before_char}
use atophttpd.CString.Find.{Lacks}
use atophttpd.Http.Args.{
  after_equals, decode, has_escape, http_arg_str, unescape, store_value, http_arg_str_in,
}
use atophttpd.Http.Args.Zeros.{decode-Lacks, after_equals-Lacks, before_char-Lacks}
use atophttpd.Http.Args.Unescape.{before_zero, unescape-room, unescape-full}

length-drop : (n : ℕ) (xs : Bytes) → n ≤ length xs → length (drop n xs) + n ≡ length xs
length-drop zero xs h = omega arith
length-drop (suc n) [] h = absurd (omega arith)
length-drop (suc n) (x ∷ xs) h = omega (arith, length-drop n xs (omega arith))

module _ (v : Bytes) (h : Lacks 0 v) (old : Bytes) where
  decoded : (junk : Bytes) → before_char 0 (decode v ++ 0 ∷ junk) ≡ decode v
  decoded junk = before_zero (decode v) junk (decode-Lacks v h)

  -- What the memory holds, against what the length of the buffer says.
  unescaped :
      (rest : Bytes)
      → drop (suc (length v)) old ≡ rest
      → length v < length old
      → (unescape (suc (length v)) (v ++ 0 ∷ rest) >>= λ m. done (some (before_char 0 m)))
        ≡ (assert (not (has_escape v) || ltb (length v + 1) (length old)) >> done (some (decode v)))
  unescaped [] e l =
      let full : ltb (length v + 1) (length old) ≡ false =
        ground (arith, length-drop (suc (length v)) old (omega arith), ap length e) in
      rw (unescape-full (suc (length v)) v (omega arith) h, full)
        (elim (Bool-cases (has_escape v)) [ inl y ↦ rw (y) refl | inr n ↦ rw (n, decoded []) refl ])
  unescaped (x ∷ junk) e l =
      let room : ltb (length v + 1) (length old) ≡ true =
        lt→ltb _ _ (omega (arith, length-drop (suc (length v)) old (omega arith), ap length e)) in
      let (j, r) = unescape-room (suc (length v)) v x junk (omega arith) h in
      rw (r, room, decoded j)
        (elim (Bool-cases (has_escape v)) [ inl y ↦ rw (y) refl | inr n ↦ rw (n) refl ])

  stored :
      (store_value v old >>= λ m.
      unescape (suc (length v)) m >>= λ m'. done (some (before_char 0 m')))
      ≡ (assert (ltb (length v) (length old))
          >> (assert (not (has_escape v) || ltb (length v + 1) (length old))
              >> done (some (decode v))))
  unfolding store_value
  stored = elim (Bool-cases (ltb (length v) (length old))) [
    | inl y ↦
        let l = ltb→lt _ _ y in
        let fits : leb (length v) (length old) ≡ true = ground (arith, l) in
        rw (y, store_value, fits) (unescaped (drop (suc (length v)) old) refl l)
    | inr n ↦ elim (Bool-cases (leb (length v) (length old))) [
      | inl y ↦ rw (y, n, store_value) refl
      | inr m ↦ rw (m, n, store_value) refl
    ]
  ]

-- On a request without zeros, whatever the buffer held before, `http_arg_str` with its copy, its
-- terminating zero and its moves of memory ends and does what its specification says: it answers
-- -1, or leaves the text of the argument with a comma for each `%2C`, or reads or writes outside the
-- buffer, exactly when the value does not fit with its zero, or fits just so and has an escape.
pub http_arg_str_in-eq :
    (req needle old : Bytes)
    → Lacks 0 req
    → http_arg_str_in req needle old ≡ http_arg_str req needle (length old)
unfolding http_arg_str_in http_arg_str
http_arg_str_in-eq req needle old h = elim (Option-cases (after_equals req needle)) [
  | inl n ↦ rw (n, http_arg_str_in, http_arg_str) refl
  | inr (s, e) ↦
      let lacks = before_char-Lacks b'&' s (after_equals-Lacks req needle h e) in
      rw (e, http_arg_str_in, http_arg_str)
        (elim (Bool-cases (ltb (length old) (length (before_char b'&' s)))) [
          | inl y ↦ rw (y) refl
          | inr n ↦ rw (n) (stored (before_char b'&' s) lacks old)
        ])
]
