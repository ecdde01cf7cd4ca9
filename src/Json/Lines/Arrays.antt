-- ===== src/Json/Lines/Arrays.antt =====
-- The arrays that the loops print.
use atophttpd.Json.Lines.Opening.{
  IsLabel, comma_space, close_bracket, opening_text, opening_short, open_array_lem, run-opening,
}
use atophttpd.Prelude.{
  ℕ, suc, ◌≤◌, ◌≡◌, inl, inr, refl, ◌∙◌, Bool, true, false, List, [], ◌∷◌, ◌++◌, none, some, Bytes,
  codes, ◌==◌, if◌then◌else◌, length, All-append, Run, done, Returns, Returns-bind, arith,
  Bool-cases,
}
use atophttpd.Output.Bounds.{joined}
use atophttpd.Json.Syntax.{class_of, Mode, value, first_value, after, step, run, run-append}
use atophttpd.Json.Syntax.Cover.{Covers, same, first, Reaches}
use atophttpd.Json.Lines.{line_buf_size, rows, array_lines}
use atophttpd.Json.Lines.Leads.{
  in_object, in_array, Short, Keeps, IsRow, joined-append, Reaches-append,
}

module _ {A : Type 0} (skip : A → Bool) where
  unfoldable pub skips_all : List A → Bool
  skips_all [] = true
  skips_all (x ∷ xs) = if skip x then skips_all xs else false

  -- The first row is printed, or none is.
  unfoldable pub opens : List A → Bool
  opens [] = true
  opens (x ∷ xs) = if skip x then skips_all xs else true

module _ {A : Type 0} (skip : A → Bool) (row : ℕ → A → Run Bytes) where
  abbrev pub RowsFit : ℕ → List A → Type 0
  RowsFit i [] = Unit
  RowsFit i (x ∷ xs) = (skip x ≡ false → IsRow (row i x)) × RowsFit (suc i) xs

  comma_short : length (codes ", ") ≤ line_buf_size
  comma_short = omega arith

  -- Rows behind the first index, behind an element.
  rows-after :
      (i : ℕ) (xs : List A)
      → RowsFit (suc i) xs
      → Returns (rows skip row (suc i) xs) (λ ts.
        ((m : Mode) → Covers after m → Reaches (after, in_array) (run (m, in_array) (joined ts)))
        × Short ts)
  unfolding rows run
  rows-after i [] h = ((λ m v. (m, refl, v)), tt)
  rows-after i (x ∷ xs) h = elim (Bool-cases (skip x)) [
    | inl y ↦ rw (y, rows) (rows-after (suc i) xs h.1)
    | inr n ↦
        let later : (suc i == 0) ≡ false = ground arith in
        rw (n, later, rows)
          (Returns-bind _ _ (row (suc i) x) _ (h.0 n value (same value)) (λ t (r, short).
            Returns-bind _ _ (rows skip row (suc (suc i)) xs) _ (rows-after (suc i) xs h.1)
              (λ ts (q, rest). (
                (λ m v.
                    rw
                      (run-append (m, in_array) (value, in_array) (codes ", ") (t ++ joined ts)
                        (comma_space m v))
                      (Reaches-append (after, in_array) value in_array after t (joined ts) r q)),
                (comma_short, (short, rest)),
              ))))
  ]

  rows-skips_all : (i : ℕ) (xs : List A) → skips_all skip xs ≡ true → rows skip row i xs ≡ done []
  unfolding rows skips_all
  rows-skips_all i [] h = refl
  rows-skips_all i (x ∷ xs) h = elim (Bool-cases (skip x)) [
    | inl y ↦ rw (y, rows) (rows-skips_all (suc i) xs (rw (y, skips_all) at h))
    | inr n ↦ absurd (cc (rw (n, skips_all) at h))
  ]

  -- What the rows, from the first one on, lead to: the end of the array may follow.
  rows-first :
      (xs : List A)
      → RowsFit 0 xs
      → opens skip xs ≡ true
      → Returns (rows skip row 0 xs) (λ ts.
        (run (first_value, in_array) (joined ts ++ codes "]") ≡ some (after, in_object)) × Short ts)
  unfolding rows run step class_of opens
  rows-first [] h o = (refl, tt)
  rows-first (x ∷ xs) h o = elim (Bool-cases (skip x)) [
    | inl y ↦ rw (y, rows-skips_all 1 xs (rw (y, opens) at o), rows) (refl, tt)
    | inr n ↦
        rw (n, rows)
          (Returns-bind _ _ (row 0 x) _ (h.0 n first_value first) (λ t ((m, e, v), short).
            Returns-bind _ _ (rows skip row 1 xs) _ (rows-after 0 xs h.1) (λ ts (q, rest).
              let (m', e', v') =
                Reaches-append (after, in_array) first_value in_array after t (joined ts) (m, e, v)
                  q in
              (
                run-append (first_value, in_array) (m', in_array) (t ++ joined ts) (codes "]") e'
                    ∙ close_bracket m' v',
                (short, rest),
              ))))
  ]

  bracket_short : length (codes "]") ≤ line_buf_size
  bracket_short = omega arith

  -- A loop whose first row is printed gives an array.
  pub array_lines-Keeps :
      (label : Bytes) (xs : List A)
      → IsLabel label
      → RowsFit 0 xs
      → opens skip xs ≡ true
      → Keeps (array_lines label skip row xs)
  unfolding array_lines
  array_lines-Keeps label xs (p, short) h o m v = rw (open_array_lem label short) (
      Returns-bind _ _ (rows skip row 0 xs) _ (rows-first xs h o) (λ ts (r, rest). (
        rw
            (
              joined-append ts (codes "]" ∷ []),
              run-append (m, in_object) (first_value, in_array) (opening_text label)
                  (joined ts ++ codes "]") (run-opening label m p v),
            )
            (after, r, same after),
        (opening_short label short, All-append _ ts (codes "]" ∷ []) rest (bracket_short, tt)),
      )))

  -- No value stands between the bracket and the first comma.
  rows-later :
      (i : ℕ) (xs : List A)
      → RowsFit (suc i) xs
      → skips_all skip xs ≡ false
      → Returns
          (rows skip row (suc i) xs)
          (λ ts. (u : Bytes) → run (first_value, in_array) (joined ts ++ u) ≡ none)
  unfolding rows run step class_of skips_all
  rows-later i [] h o = absurd (cc o)
  rows-later i (x ∷ xs) h o = elim (Bool-cases (skip x)) [
    | inl y ↦ rw (y, rows) (rows-later (suc i) xs h.1 (rw (y, skips_all) at o))
    | inr n ↦
        let later : (suc i == 0) ≡ false = ground arith in
        rw (n, later, rows)
          (Returns-bind _ _ (row (suc i) x) _ (h.0 n value (same value)) (λ t r.
            Returns-bind _ _ (rows skip row (suc (suc i)) xs) _ (rows-after (suc i) xs h.1)
              (λ ts q u. refl)))
  ]

  -- A loop that skips its first row and prints a later one gives no JSON.
  pub array_lines-none :
      (label : Bytes) (xs : List A) (m : Mode)
      → IsLabel label
      → RowsFit 0 xs
      → Covers after m
      → opens skip xs ≡ false
      → Returns (array_lines label skip row xs) (λ ts. run (m, in_object) (joined ts) ≡ none)
  unfolding array_lines opens rows
  array_lines-none label [] m (p, short) h v o = absurd (cc o)
  array_lines-none label (x ∷ xs) m (p, short) h v o = elim (Bool-cases (skip x)) [
    | inl y ↦
        rw (open_array_lem label short, y, rows)
          (Returns-bind _ _ (rows skip row 1 xs) _ (rows-later 0 xs h.1 (rw (y, opens) at o))
            (λ ts r.
              rw
                (
                  joined-append ts (codes "]" ∷ []),
                  run-append (m, in_object) (first_value, in_array) (opening_text label)
                      (joined ts ++ codes "]") (run-opening label m p v),
                )
                (r (codes "]"))))
    | inr n ↦ absurd (cc (rw (n, opens) at o))
  ]
