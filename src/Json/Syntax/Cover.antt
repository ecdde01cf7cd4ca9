-- ===== src/Json/Syntax/Cover.antt =====
-- States that stand for others: a number may be over or go on, and a value may be the first one.
use atophttpd.Prelude.{
  List, [], ◌∷◌, Option, some, ◌≡◌, refl, inl, inr, Option-cases, Bytes, arith, subst,
}
use mathlib.Core.Option.{some-injective}
use atophttpd.Json.Syntax.{
  Class, class_of, Frame, object, array, Mode, value, first_value, after_zero, digits, fraction,
  after, State, step, run,
}

-- Whatever the first mode reads, the second one reads in the same way.
pub data Covers : Mode → Mode → Type 0 where
  same : (m : Mode) → Covers m m
  zero : Covers after after_zero
  number : Covers after digits
  decimals : Covers after fraction
  first : Covers value first_value

pub Covers-step :
    {a m : Mode} (v : Covers a m) (fs : List Frame) (k : Class) (s : State)
    → step a fs k ≡ some s
    → step m fs k ≡ some s
unfolding step
Covers-step (same m) fs k s h = h
Covers-step zero [] k s h = ground arith
Covers-step zero (object ∷ fs) k s h = ground arith
Covers-step zero (array ∷ fs) k s h = ground arith
Covers-step number [] k s h = ground arith
Covers-step number (object ∷ fs) k s h = ground arith
Covers-step number (array ∷ fs) k s h = ground arith
Covers-step decimals [] k s h = ground arith
Covers-step decimals (object ∷ fs) k s h = ground arith
Covers-step decimals (array ∷ fs) k s h = ground arith
Covers-step first [] k s h = ground arith
Covers-step first (object ∷ fs) k s h = ground arith
Covers-step first (array ∷ fs) k s h = ground arith

-- A state whose stack is that of another and whose mode is covered by that of the other.
abbrev pub Reaches : State → Option State → Type 0
Reaches s o = (m : Mode) × (o ≡ some (m, s.1)) × Covers s.0 m

pub run-Covers :
    {a m : Mode} (v : Covers a m) (fs : List Frame) (t : Bytes) (s : State)
    → run (a, fs) t ≡ some s
    → Reaches s (run (m, fs) t)
unfolding run
run-Covers {a} {m} v fs [] s h =
    subst (λ s. Reaches s (some (m, fs))) (some-injective _ _ h) (m, refl, v)
run-Covers {a} {m} v fs (c ∷ cs) s h = elim (Option-cases (step a fs (class_of c))) [
  | inl n ↦ absurd (cc (rw (n, run) at h))
  | inr (x, e) ↦ (s.0, rw (Covers-step v fs (class_of c) x e, run) (rw (e, run) at h), same s.0)
]

pub Covers-trans : {a b c : Mode} → Covers a b → Covers b c → Covers a c
Covers-trans (same m) v = v
Covers-trans zero (same _) = zero
Covers-trans number (same _) = number
Covers-trans decimals (same _) = decimals
Covers-trans first (same _) = first

-- A text read from a covered mode, behind one that leads there.
pub Reaches-Covers :
    {a m : Mode} (v : Covers a m) (fs : List Frame) (t : Bytes) (s : State)
    → Reaches s (run (a, fs) t)
    → Reaches s (run (m, fs) t)
Reaches-Covers v fs t s (b, e, w) =
    let (c, e', w') = run-Covers v fs t (b, s.1) e in (c, e', Covers-trans w w')
