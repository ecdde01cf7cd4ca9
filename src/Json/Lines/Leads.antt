-- ===== src/Json/Lines/Leads.antt =====
-- Where the lines of a print function lead the recogniser.
use atophttpd.Prelude.{
  ◌≤◌, ◌≡◌, refl, sym, ap, ◌∙◌, Bool, true, false, List, [], ◌∷◌, ◌++◌, append-nil, append_assoc,
  Bytes, if◌then◌else◌, length, All, All-append, Run, done, ◌>>=◌, Returns, Returns-map,
  Returns-bind, arith,
}
use atophttpd.Output.Bounds.{joined}
use atophttpd.Printf.{Arg, header}
use atophttpd.Json.Syntax.{Frame, object, array, Mode, value, after, State, run, run-append}
use atophttpd.Json.Syntax.Cover.{Covers, Reaches}
use atophttpd.Json.Format.{FormatFits}
use atophttpd.Json.Format.Sound.{TakesFormat, snprintf-After}
use atophttpd.Json.Lines.{line_buf_size, line, object_line}

abbrev pub in_object : List Frame
in_object = object ∷ []

abbrev pub in_array : List Frame
in_array = array ∷ in_object

-- Every text fits the buffer of a line.
abbrev pub Short : List Bytes → Type 0
Short = All (λ t. length t ≤ line_buf_size)

-- The texts lead from behind a member of an object to behind one, and are short.
abbrev pub Keeps : Run (List Bytes) → Type 0
Keeps r =
    (m : Mode)
    → Covers after m
    → Returns r (λ ts. Reaches (after, in_object) (run (m, in_object) (joined ts)) × Short ts)

-- A row leads from before an element of an array to behind it.
abbrev pub IsRow : Run Bytes → Type 0
IsRow r =
    (m : Mode)
    → Covers value m
    → Returns r (λ t. Reaches (after, in_array) (run (m, in_array) t) × (length t ≤ line_buf_size))

-- A format whose arguments fit gives a row.
pub line-IsRow :
    (fmt : Bytes) (args : List Arg)
    → TakesFormat (value, in_array) (after, in_array) line_buf_size fmt args
    → FormatFits fmt args
    → IsRow (line fmt args)
line-IsRow fmt args takes fit m v =
    Returns-map _ _ (line fmt args) (λ t r. (r.0, omega (arith, r.1)))
      (snprintf-After line_buf_size fmt args m (value, in_array) (after, in_array) v takes fit)

pub line-Keeps :
    (fmt : Bytes) (args : List Arg)
    → TakesFormat (after, in_object) (after, in_object) line_buf_size fmt args
    → FormatFits fmt args
    → Keeps (line fmt args >>= λ t. done (t ∷ []))
line-Keeps fmt args takes fit m v =
    Returns-bind _ _ (line fmt args) _
      (snprintf-After line_buf_size fmt args m (after, in_object) (after, in_object) v takes fit)
      (λ t r. ((rw (append-nil t) r.0), (omega (arith, r.1), tt)))

pub object_line-Keeps :
    (label fmt : Bytes) (args : List Arg)
    → TakesFormat (after, in_object) (after, in_object) line_buf_size fmt (header label ∷ args)
    → FormatFits fmt (header label ∷ args)
    → Keeps (object_line label fmt args)
unfolding object_line
object_line-Keeps label fmt args = line-Keeps fmt (header label ∷ args)

pub joined-append : (ts us : List Bytes) → joined (ts ++ us) ≡ joined ts ++ joined us
joined-append [] us = refl
joined-append (t ∷ ts) us =
    ap (λ x. t ++ x) (joined-append ts us) ∙ sym (append_assoc t (joined ts) (joined us))

-- Two texts after one another.
pub Reaches-append :
    (s : State) (m : Mode) (fs : List Frame) (a : Mode) (t u : Bytes)
    → Reaches (a, fs) (run (m, fs) t)
    → ((m' : Mode) → Covers a m' → Reaches s (run (m', fs) u))
    → Reaches s (run (m, fs) (t ++ u))
Reaches-append s m fs a t u (m', e, v) next = rw (run-append (m, fs) (m', fs) t u e) (next m' v)

-- Print functions after one another.
pub Keeps-append :
    (r r' : Run (List Bytes))
    → Keeps r
    → Keeps r'
    → Keeps (r >>= λ ts. r' >>= λ us. done (ts ++ us))
Keeps-append r r' h h' m v = Returns-bind _ _ r _ (h m v) (λ ts ((m', e, v'), short).
    Returns-bind _ _ r' _ (h' m' v') (λ us (q, short'). (
      rw (joined-append ts us, run-append (m, in_object) (m', in_object) (joined ts) (joined us) e)
          q,
      All-append _ ts us short short',
    )))

pub Keeps-nil : Keeps (done [])
unfolding run
Keeps-nil m v = ((m, refl, v), tt)

pub Keeps-if :
    (b : Bool) (r : Run (List Bytes)) → (b ≡ true → Keeps r) → Keeps (if b then r else done [])
Keeps-if true r h = h refl
Keeps-if false r h = Keeps-nil
