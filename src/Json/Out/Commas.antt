-- ===== src/Json/Out/Commas.antt =====
-- The names between commas that `jsondef` reads.
use atophttpd.Prelude.{
  Bool, true, false, List, [], ◌∷◌, ◌++◌, ◌≡◌, refl, sym, ap, ◌∙◌, Bytes, ◌==◌, All, append-nil,
  append_assoc,
}
use atophttpd.Json.Out.{split_from}

-- `names` with commas between them.
unfoldable pub commas : List Bytes → Bytes
commas [] = []
commas (name ∷ []) = name
commas (name ∷ (next ∷ names)) = name ++ b',' ∷ commas (next ∷ names)

abbrev pub NoComma : Bytes → Type 0
NoComma s = All (λ c. (c == b',') ≡ false) s

abbrev pub is_nil : Bytes → Bool
is_nil [] = true
is_nil (c ∷ s) = false

split_from-last :
    (acc name : Bytes)
    → NoComma name
    → is_nil (acc ++ name) ≡ false
    → split_from acc name ≡ (acc ++ name) ∷ []
unfolding split_from
split_from-last [] [] h e = absurd (cc e)
split_from-last (a ∷ acc) [] h e = ap (λ s. (a ∷ s) ∷ []) (sym (append-nil acc))
split_from-last acc (c ∷ name) h e =
    rw (h.0, split_from)
      (split_from-last (acc ++ c ∷ []) name h.1 (rw (append_assoc acc (c ∷ []) name) e)
        ∙ ap (λ s. s ∷ []) (append_assoc acc (c ∷ []) name))

split_from-comma :
    (acc name s : Bytes)
    → NoComma name
    → split_from acc (name ++ b',' ∷ s) ≡ (acc ++ name) ∷ split_from [] s
unfolding split_from
split_from-comma acc [] s h = ap (λ t. t ∷ split_from [] s) (sym (append-nil acc))
split_from-comma acc (c ∷ name) s h =
    rw (h.0, split_from)
      (split_from-comma (acc ++ c ∷ []) name s h.1
        ∙ ap (λ t. t ∷ split_from [] s) (append_assoc acc (c ∷ []) name))

-- A name in a list of labels.
abbrev pub IsName : Bytes → Type 0
IsName name = NoComma name × (is_nil name ≡ false)

pub split_from-commas :
    (names : List Bytes) → All IsName names → split_from [] (commas names) ≡ names
unfolding commas split_from
split_from-commas [] h = refl
split_from-commas (name ∷ []) h = split_from-last [] name h.0.0 h.0.1
split_from-commas (name ∷ next ∷ names) h =
    split_from-comma [] name (commas (next ∷ names)) h.0.0
    ∙ ap (λ ns. name ∷ ns) (split_from-commas (next ∷ names) h.1)
