-- ===== src/Http/Args/Zeros.antt =====
-- What is found in a string without zeros has none.
use mathlib.Core.Option.{some-injective}
use atophttpd.Prelude.{
  ℕ, ◌≡◌, inl, inr, refl, ◌∙◌, ◌&&◌, [], ◌∷◌, subst, none, some, Bytes, ◌==◌, if◌then◌else◌,
  Bool-cases, Option-cases,
}
use atophttpd.CString.{after_prefix, strstr_after, before_char}
use atophttpd.CString.Find.{Lacks}
use atophttpd.Http.Args.{after_equals, decode}

pub decode-Lacks : (v : Bytes) → Lacks 0 v → Lacks 0 (decode v)
unfolding decode
decode-Lacks [] h = tt
decode-Lacks (c ∷ []) h = h
decode-Lacks (c ∷ d ∷ []) h = h
decode-Lacks (c ∷ d ∷ e ∷ s) h = elim (Bool-cases (c == b'%' && d == b'2' && e == b'C')) [
  | inl y ↦ rw (y, decode) (refl, decode-Lacks s h.1.1.1)
  | inr n ↦ rw (n, decode) (h.0, decode-Lacks (d ∷ e ∷ s) h.1)
]

after_prefix-Lacks :
    (needle s : Bytes) {rest : Bytes} → Lacks 0 s → after_prefix needle s ≡ some rest → Lacks 0 rest
unfolding after_prefix
after_prefix-Lacks [] s h e = subst (Lacks 0) (some-injective _ _ e) h
after_prefix-Lacks (n ∷ needle) [] h e = absurd (cc e)
after_prefix-Lacks (n ∷ needle) (c ∷ s) h e = elim (Bool-cases (n == c)) [
  | inl y ↦ after_prefix-Lacks needle s h.1 (rw (y, after_prefix) at e)
  | inr m ↦ absurd (cc (rw (m, after_prefix) at e))
]

strstr_after-Lacks :
    (s needle : Bytes) {rest : Bytes} → Lacks 0 s → strstr_after s needle ≡ some rest → Lacks 0 rest
unfolding strstr_after
strstr_after-Lacks [] needle h e = after_prefix-Lacks needle [] h e
strstr_after-Lacks (c ∷ s) needle h e = elim (Option-cases (after_prefix needle (c ∷ s))) [
  | inl n ↦ strstr_after-Lacks s needle h.1 (rw (n, strstr_after) at e)
  | inr (r, k) ↦ after_prefix-Lacks needle (c ∷ s) h (k ∙ (rw (k, strstr_after) at e))
]

pub after_equals-Lacks :
    (req needle : Bytes) {s : Bytes} → Lacks 0 req → after_equals req needle ≡ some s → Lacks 0 s
unfolding after_equals
after_equals-Lacks req needle h e = elim (Option-cases (strstr_after req needle)) [
  | inl n ↦ absurd (cc (rw (n, after_equals) at e))
  | inr (r, k) ↦ behind_equals r (strstr_after-Lacks req needle h k) (rw (k, after_equals) at e)
]
  where
    behind_equals :
        (r : Bytes) {s : Bytes}
        → Lacks 0 r
        → (elim r [ [] ↦ none | c ∷ t ↦ if c == b'=' then some t else none ]) ≡ some s
        → Lacks 0 s
    behind_equals [] l k = absurd (cc k)
    behind_equals (c ∷ t) l k = elim (Bool-cases (c == b'=')) [
      | inl y ↦ subst (Lacks 0) (some-injective _ _ (rw (y) at k)) l.1
      | inr n ↦ absurd (cc (rw (n) at k))
    ]

pub before_char-Lacks : (d : ℕ) (s : Bytes) → Lacks 0 s → Lacks 0 (before_char d s)
unfolding before_char
before_char-Lacks d [] h = tt
before_char-Lacks d (c ∷ s) h = elim (Bool-cases (c == d)) [
  | inl y ↦ rw (y, before_char) tt
  | inr n ↦ rw (n, before_char) (h.0, before_char-Lacks d s h.1)
]
