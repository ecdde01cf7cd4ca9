-- ===== src/Json/Format/Sound.antt =====
-- A format that the recogniser takes gives a text that it takes, for all arguments that fit.
use atophttpd.Prelude.{
  ℕ, ◌+◌, ◌≤◌, ◌<◌, ◌≡◌, inl, inr, refl, sym, subst, Bool, true, false, ◌&&◌, List, [], ◌∷◌, Option,
  none, some, Bytes, ltb, ◌==◌, if◌then◌else◌, length, length-append, Returns, Returns-map,
  Returns-bind, lt→ltb, ltb→lt, arith, Option-cases,
}
use mathlib.Core.Option.{some-injective}
use atophttpd.Printf.{
  Arg, Conversion, Piece, lit, dir, convert, render, pieces, plain, printf, filled, snprintf,
}
use atophttpd.Json.Syntax.{
  class_of, Frame, Mode, value, key, at_colon, in_string, after, State, step, run, run-append,
}
use atophttpd.Json.Syntax.Cover.{Covers, same, Covers-step, Reaches, Reaches-Covers}
use atophttpd.Json.Format.{
  Fits, ArgsFit, FormatFits, place, prints_number, prints_header, prints_plain, after_dir, check,
  dir_bound, bound,
}
use atophttpd.Json.Format.Plain.{run-Plain}
use atophttpd.Json.Format.Directive.{convert_plain, convert_number, convert_header}

-- A text that leads from a mode to a state, within a bound.
abbrev pub Leads : State → Mode → List Frame → ℕ → Bytes → Type 0
Leads s m fs n t = Reaches s (run (m, fs) t) × (length t ≤ n)

taken : (b : Bool) (m a : Mode) → (if b then some m else none) ≡ some a → (b ≡ true) × (m ≡ a)
taken true m a h = (refl, some-injective m a h)
taken false m a h = absurd (cc h)

-- One directive.
dir-Leads :
    (a : Mode) (fs : List Frame) (w : ℕ) (p : Option ℕ) (k : Conversion) (x : Arg) (a' : Mode)
    → after_dir (place a) w k x ≡ some a'
    → Fits p k x
    → Returns (convert w p k x) (Leads (a', fs) a fs (w + dir_bound p k))
dir-Leads value fs w p k x a' h fit =
    let (b, e) = taken (w == 0 && prints_number k x) after a' h in
    let e0 : w ≡ 0 = ground (arith, b) in
    let number : prints_number k x ≡ true = ground (arith, b) in
    rw (e0, sym e)
      (Returns-map _ _ (convert 0 p k x) (λ t r. (r.0, omega (arith, r.1)))
        (convert_number p k x fs number fit))
dir-Leads key fs w p k x a' h fit =
    let (b, e) = taken (prints_header k x) at_colon a' h in
    rw (sym e) (
      Returns-map _ _ (convert w p k x) (λ t r. ((at_colon, r.0, same at_colon), r.1))
        (convert_header w p k x fs b fit))
dir-Leads in_string fs w p k x a' h fit =
    let (b, e) = taken (prints_plain k x) in_string a' h in
    rw (sym e) (
      Returns-map _ _ (convert w p k x)
        (λ t r. ((in_string, run-Plain fs t r.0, same in_string), r.1))
        (convert_plain w p k x b fit))
dir-Leads m fs w p k x a' h fit = cc

pub render-Leads :
    (ps : List Piece) (args : List Arg) (a : Mode) (m : Mode) (fs : List Frame) (s : State)
    → Covers a m
    → check (a, fs) ps args ≡ some s
    → ArgsFit ps args
    → Returns (render ps args) (Leads s m fs (bound ps))
unfolding render check bound run
render-Leads [] args a m fs s v h fit =
    (subst (λ s. Reaches s (some (m, fs))) (some-injective _ _ h) (m, refl, v), omega arith)
render-Leads (lit c ∷ ps) args a m fs s v h fit = elim (Option-cases (step a fs (class_of c))) [
  | inl n ↦ absurd (cc (rw (n, check) at h))
  | inr (x, e) ↦
      Returns-bind _ _ (render ps args) _
        (render-Leads ps args x.0 x.0 x.1 s (same x.0) (rw (e, check) at h) fit)
        (λ t r. (rw (Covers-step v fs (class_of c) x e, run) r.0, omega (arith, r.1)))
]
render-Leads (dir w p k ∷ ps) [] a m fs s v h fit = absurd fit
render-Leads (dir w p k ∷ ps) (x ∷ args) a m fs s v h fit =
    elim (Option-cases (after_dir (place a) w k x)) [
      | inl n ↦ absurd (cc (rw (n, check) at h))
      | inr (a', e) ↦
          Returns-bind _ _ (convert w p k x) _ (dir-Leads a fs w p k x a' e fit.0) (λ t r.
            let (m', run_t, v') = Reaches-Covers v fs t (a', fs) r.0 in
            Returns-bind _ _ (render ps args) _
              (render-Leads ps args a' m' fs s v' (rw (e, check) at h) fit.1)
              (λ u q. (
                rw (run-append (m, fs) (m', fs) t u run_t) q.0,
                omega (arith, length-append t u, r.1, q.1),
              )))
    ]

-- The recogniser takes a format between two states, and a buffer holds what it prints.
abbrev pub TakesFormat : State → State → ℕ → Bytes → List Arg → Type 0
TakesFormat s s' size fmt args =
    (check s (pieces plain fmt) args ≡ some s') × (ltb (bound (pieces plain fmt)) size ≡ true)

-- A text behind a state.
abbrev pub After : State → State → Bytes → Type 0
After s s' t = Reaches s' (run s t)

pub snprintf-After :
    (size : ℕ) (fmt : Bytes) (args : List Arg) (m : Mode) (s s' : State)
    → Covers s.0 m
    → TakesFormat s s' size fmt args
    → FormatFits fmt args
    → Returns (snprintf size fmt args) (λ t. After (m, s.1) s' t × (length t < size))
unfolding snprintf printf filled
snprintf-After size fmt args m s s' v takes fit =
    Returns-bind _ _ (render (pieces plain fmt) args) _
      (render-Leads (pieces plain fmt) args s.0 m s.1 s' v takes.0 fit)
      (λ t r.
        let room = ltb→lt (bound (pieces plain fmt)) size takes.1 in
        let short : length t < size = omega (arith, r.1, room) in
        rw (lt→ltb (length t) size short) (r.0, short))
