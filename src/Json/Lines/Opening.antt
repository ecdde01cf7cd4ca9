-- ===== src/Json/Lines/Opening.antt =====
-- Labels, brackets and commas of the arrays that the loops print.
use atophttpd.Prelude.{
  zero, ◌≤◌, ◌<◌, ◌≡◌, refl, ◌∙◌, Bool, true, [], ◌∷◌, ◌++◌, some, Bytes, codes, leb, leb→le,
  lt→ltb, length, length-append, done, ◌&&◌, arith,
}
use atophttpd.Printf.{quoted, pieces, role, printf, render, convert}
use atophttpd.CString.{is_digit}
use atophttpd.Json.Syntax.{
  class_of, Mode, value, first_value, key, at_colon, after, step, run, run-append,
}
use atophttpd.Json.Syntax.Cover.{Covers, same, zero, number, decimals}
use atophttpd.Json.Format.{is_plain, Plain}
use atophttpd.Json.Format.Directive.{run-quoted}
use atophttpd.Json.Lines.{line_buf_size, open_array}
use atophttpd.Json.Lines.Leads.{in_object, in_array}

-- A label of the table.
abbrev pub IsLabel : Bytes → Type 0
IsLabel label = Plain label × (length label ≤ 16)

abbrev pub all_plain : Bytes → Bool
all_plain [] = true
all_plain (c ∷ cs) = is_plain c && all_plain cs

pub all_plain-Plain : (s : Bytes) → all_plain s ≡ true → Plain s
all_plain-Plain [] h = tt
all_plain-Plain (c ∷ cs) h =
    let here : is_plain c ≡ true = ground arith in
    let rest : all_plain cs ≡ true = ground arith in (here, all_plain-Plain cs rest)

-- A short label with no special bytes.
pub IsLabel_lem :
    (label : Bytes) → (all_plain label && leb (length label) 16) ≡ true → IsLabel label
IsLabel_lem label h =
    let p : all_plain label ≡ true = ground arith in
    let l : leb (length label) 16 ≡ true = ground arith in (all_plain-Plain label p, leb→le _ _ l)

pub comma_space :
    (m : Mode) → Covers after m → run (m, in_array) (codes ", ") ≡ some (value, in_array)
unfolding run step class_of
comma_space after (same _) = refl
comma_space _ zero = refl
comma_space _ number = refl
comma_space _ decimals = refl

comma_key : (m : Mode) → Covers after m → run (m, in_object) (codes ", ") ≡ some (key, in_object)
unfolding run step class_of
comma_key after (same _) = refl
comma_key _ zero = refl
comma_key _ number = refl
comma_key _ decimals = refl

open_bracket : run (at_colon, in_object) (codes ": [") ≡ some (first_value, in_array)
unfolding run step class_of
open_bracket = refl

pub close_bracket :
    (m : Mode) → Covers after m → run (m, in_array) (codes "]") ≡ some (after, in_object)
unfolding run step class_of
close_bracket after (same _) = refl
close_bracket _ zero = refl
close_bracket _ number = refl
close_bracket _ decimals = refl

unfoldable pub opening_text : Bytes → Bytes
opening_text label = codes ", " ++ (quoted label ++ codes ": [")

opening-lt : (label : Bytes) → length label ≤ 16 → length (opening_text label) < 64
unfolding opening_text
opening-lt label h =
    omega (arith, length-append label (b'"' ∷ []), length-append (label ++ b'"' ∷ []) (codes ": ["))

pub opening_short :
    (label : Bytes) → length label ≤ 16 → length (opening_text label) ≤ line_buf_size
opening_short label h = omega (arith, opening-lt label h)

pub open_array_lem :
    (label : Bytes) → length label ≤ 16 → open_array label ≡ done (opening_text label)
unfolding open_array opening_text printf pieces role render convert is_digit
open_array_lem label h = rw (lt→ltb _ _ (opening-lt label h)) refl

pub run-opening :
    (label : Bytes) (m : Mode)
    → Plain label
    → Covers after m
    → run (m, in_object) (opening_text label) ≡ some (first_value, in_array)
unfolding opening_text
run-opening label m h v =
    run-append (m, in_object) (key, in_object) (codes ", ") (quoted label ++ codes ": [")
      (comma_key m v)
    ∙ run-append (key, in_object) (at_colon, in_object) (quoted label) (codes ": [")
        (run-quoted in_object label h)
    ∙ open_bracket
