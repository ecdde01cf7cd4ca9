-- ===== src/CString/Find.antt =====
-- Where the searches of the C library stop.
use atophttpd.Prelude.{ℕ, ◌≡◌, refl, false, [], ◌∷◌, ◌++◌, some, Bytes, arith, ◌==◌, All}
use atophttpd.CString.{after_prefix, strstr_after, before_char}

-- Not one of the characters of the string.
abbrev pub Lacks : ℕ → Bytes → Type 0
Lacks d s = All (λ c. (c == d) ≡ false) s

-- Empty, or beginning with the character.
abbrev pub StartsAt : ℕ → Bytes → Type 0
StartsAt d [] = Unit
StartsAt d (c ∷ s) = c ≡ d

pub after_prefix-append : (needle s : Bytes) → after_prefix needle (needle ++ s) ≡ some s
unfolding after_prefix
after_prefix-append [] s = refl
after_prefix-append (n ∷ needle) s = ground (arith, after_prefix-append needle s)

-- The first occurrence is the one after a part without the needle's first character.
pub strstr_after-append :
    (pre : Bytes) (n : ℕ) (needle s : Bytes)
    → Lacks n pre
    → strstr_after (pre ++ ((n ∷ needle) ++ s)) (n ∷ needle) ≡ some s
unfolding strstr_after
strstr_after-append [] n needle s h = ground (arith, after_prefix-append needle s)
strstr_after-append (c ∷ pre) n needle s h = ground (arith, strstr_after-append pre n needle s)

pub before_char-append :
    (d : ℕ) (s rest : Bytes) → Lacks d s → StartsAt d rest → before_char d (s ++ rest) ≡ s
unfolding before_char
before_char-append d [] [] h r = refl
before_char-append d [] (c ∷ rest) h r = ground arith
before_char-append d (c ∷ s) rest h r = ground (arith, before_char-append d s rest)
