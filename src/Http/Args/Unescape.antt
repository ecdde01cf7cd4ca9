-- ===== src/Http/Args/Unescape.antt =====
-- The loop of `http_arg_str` that writes a comma for each `%2C`.
use atophttpd.Prelude.{
  ℕ, zero, suc, ◌+◌, ◌<◌, ◌≡◌, ◌⊎◌, inl, inr, refl, ap, true, false, [], ◌∷◌, ap₂, append_assoc,
  length-append, lt→ltb, subst, ◌++◌, none, Bytes, codes, ltb, leb, ◌==◌, if◌then◌else◌, length,
  take, drop, Run, done, crash, ◌>>=◌, Bool-cases, arith, ==_iff,
}
use atophttpd.CString.{after_prefix, strstr_after, before_char}
use atophttpd.CString.Find.{Lacks, before_char-append}
use atophttpd.Http.Args.{decode, has_escape, memmove_two, unescape}

abbrev escape : Bytes
escape = codes "%2C"

-- A first byte begins an escape, or is kept, whatever is behind the string.
abbrev AtFirst : ℕ → Bytes → Type 0
AtFirst c v =
    ((b : Bytes) × (v ≡ b'2' ∷ b'C' ∷ b) × (c ≡ b'%'))
    ⊎ (((junk : Bytes) → after_prefix escape (c ∷ v ++ 0 ∷ junk) ≡ none)
        × (after_prefix escape (c ∷ v) ≡ none)
        × (decode (c ∷ v) ≡ c ∷ decode v))

at_first : (c : ℕ) (v : Bytes) → AtFirst c v
unfolding after_prefix decode
at_first c [] = inr ((λ junk. ground arith), ground arith, refl)
at_first c (d ∷ []) = inr ((λ junk. ground arith), ground arith, refl)
at_first c (d ∷ e ∷ s) = elim (Bool-cases (c == b'%')) [
  | inr n ↦ inr ((λ junk. ground (arith, n)), ground (arith, n), ground (arith, n))
  | inl y ↦ elim (Bool-cases (d == b'2')) [
    | inr n ↦ inr ((λ junk. ground (arith, n)), ground (arith, n), ground (arith, n))
    | inl y' ↦ elim (Bool-cases (e == b'C')) [
      | inr n ↦ inr ((λ junk. ground (arith, n)), ground (arith, n), ground (arith, n))
      | inl y'' ↦ inl (
        s,
        ap₂ (λ i j. i ∷ j ∷ s) ((==_iff d b'2').0 y') ((==_iff e b'C').0 y''),
        (==_iff c b'%').0 y,
      )
    ]
  ]
]

pub before_zero : (b junk : Bytes) → Lacks 0 b → before_char 0 (b ++ 0 ∷ junk) ≡ b
before_zero b junk h = before_char-append 0 b (0 ∷ junk) h refl

take-text :
    (b : Bytes) (x : ℕ) (junk : Bytes)
    → take (length (b'2' ∷ b'C' ∷ b)) (b ++ 0 ∷ x ∷ junk) ≡ b ++ 0 ∷ x ∷ []
take-text [] x junk = refl
take-text (c ∷ b) x junk = ap (◌∷◌ c) (take-text b x junk)

drop-append : (b rest : Bytes) → drop (length b) (b ++ rest) ≡ rest
drop-append [] rest = refl
drop-append (c ∷ b) rest = drop-append b rest

module _ (b : Bytes) (h : Lacks 0 b) where
  abbrev behind : Bytes → Bytes
  behind rest = b'2' ∷ b'C' ∷ (b ++ 0 ∷ rest)

  text : (rest : Bytes) → before_char 0 (behind rest) ≡ b'2' ∷ b'C' ∷ b
  text rest = before_zero (b'2' ∷ b'C' ∷ b) rest (refl, (refl, h))

  ends : (rest : Bytes) → ltb (length (b'2' ∷ b'C' ∷ b)) (length (behind rest)) ≡ true
  ends rest = lt→ltb _ _ (omega (arith, length-append b (0 ∷ rest)))

  -- The text goes two bytes to the left, with its zero and the byte behind it.
  memmove_two-room :
      (x : ℕ) (junk : Bytes) → memmove_two (behind (x ∷ junk)) ≡ done (b ++ 0 ∷ x ∷ 0 ∷ x ∷ junk)
  unfolding memmove_two
  memmove_two-room x junk =
      let fits : leb (length (b'2' ∷ b'C' ∷ b) + 2) (length (behind (x ∷ junk))) ≡ true =
        ground (arith, length-append b (0 ∷ x ∷ junk)) in
      rw
        (
          memmove_two,
          text (x ∷ junk),
          ends (x ∷ junk),
          fits,
          take-text b x junk,
          drop-append b (0 ∷ x ∷ junk),
        )
        (ap done (append_assoc b (0 ∷ x ∷ []) (0 ∷ x ∷ junk)))

  -- Without a byte behind the zero it reads outside the buffer.
  memmove_two-crash : memmove_two (behind []) ≡ crash
  unfolding memmove_two
  memmove_two-crash =
      let over : leb (length (b'2' ∷ b'C' ∷ b) + 2) (length (behind [])) ≡ false =
        ground (arith, length-append b (0 ∷ [])) in
      rw (memmove_two, text [], ends [], over) refl

-- A round at an escape.
unescape-step :
    (k : ℕ) (s : Bytes)
    → unescape (suc k) (b'%' ∷ b'2' ∷ b'C' ∷ s)
      ≡ (memmove_two (b'2' ∷ b'C' ∷ s) >>= λ m. unescape k m >>= λ left. done (b',' ∷ left))
unfolding unescape after_prefix
unescape-step k s = refl

-- A round at another byte.
unescape-kept :
    (k c : ℕ) (m : Bytes)
    → (c == 0) ≡ false
    → after_prefix escape (c ∷ m) ≡ none
    → unescape (suc k) (c ∷ m) ≡ (unescape k m >>= λ left. done (c ∷ left))
unfolding unescape
unescape-kept k c m h n = rw (h, unescape, n) refl

decode-comma : (b : Bytes) → decode (b'%' ∷ b'2' ∷ b'C' ∷ b) ≡ b',' ∷ decode b
unfolding decode
decode-comma b = refl

decode-nil : decode [] ≡ []
unfolding decode
decode-nil = refl

-- The bytes behind the zero that a loop leaves.
abbrev pub Unescaped : Bytes → Run Bytes → Type 0
Unescaped v r = (junk : Bytes) × (r ≡ done (decode v ++ 0 ∷ junk))

-- With a byte behind the zero the loop leaves the decoded text.
pub unescape-room :
    (k : ℕ) (v : Bytes) (x : ℕ) (junk : Bytes)
    → length v < k
    → Lacks 0 v
    → Unescaped v (unescape k (v ++ 0 ∷ x ∷ junk))
unescape-room zero v x junk l h = absurd (omega arith)
unescape-room (suc k) [] x junk l h = (x ∷ junk, rw (decode-nil) (unfold unescape in refl))
unescape-room (suc k) (c ∷ v) x junk l h = elim (at_first c v) [
  | inl (b, e, p) ↦
      let lacks : Lacks 0 b = (subst (Lacks 0) e h.1).1.1 in
      let (j, r) = unescape-room k b x (0 ∷ x ∷ junk) (omega (arith, ap length e)) lacks in
      (
        j,
        rw
            (
              e,
              p,
              unescape-step k (b ++ 0 ∷ x ∷ junk),
              memmove_two-room b lacks x junk,
              r,
              decode-comma b,
            )
            refl,
      )
  | inr (kept, none_, same) ↦
      let (j, r) = unescape-room k v x junk (omega arith) h.1 in
      (j, rw (unescape-kept k c (v ++ 0 ∷ x ∷ junk) h.0 (kept (x ∷ junk)), r, same) refl)
]

has_escape-first : (b : Bytes) → has_escape (b'%' ∷ b'2' ∷ b'C' ∷ b) ≡ true
unfolding has_escape strstr_after after_prefix
has_escape-first b = refl

has_escape-kept :
    (c : ℕ) (v : Bytes) → after_prefix escape (c ∷ v) ≡ none → has_escape (c ∷ v) ≡ has_escape v
unfolding has_escape strstr_after
has_escape-kept c v n = rw (n, has_escape, strstr_after) refl

-- Without one, the first escape makes it read outside the buffer.
pub unescape-full :
    (k : ℕ) (v : Bytes)
    → length v < k
    → Lacks 0 v
    → unescape k (v ++ 0 ∷ []) ≡ (if has_escape v then crash else done (decode v ++ 0 ∷ []))
unescape-full zero v l h = absurd (omega arith)
unescape-full (suc k) [] l h =
    rw (decode-nil) (unfold unescape has_escape strstr_after after_prefix in refl)
unescape-full (suc k) (c ∷ v) l h = elim (at_first c v) [
  | inl (b, e, p) ↦
      let lacks : Lacks 0 b = (subst (Lacks 0) e h.1).1.1 in
      rw (e, p, unescape-step k (b ++ 0 ∷ []), memmove_two-crash b lacks, has_escape-first b) refl
  | inr (kept, none_, same) ↦
      let r = unescape-full k v (omega arith) h.1 in
      rw (unescape-kept k c (v ++ 0 ∷ []) h.0 (kept []), r, same, has_escape-kept c v none_)
        (elim (Bool-cases (has_escape v)) [ inl y ↦ rw (y) refl | inr n ↦ rw (n) refl ])
]
