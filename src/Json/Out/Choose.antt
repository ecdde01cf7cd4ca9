-- ===== src/Json/Out/Choose.antt =====
-- What `jsondef` makes of a list of labels.
use atophttpd.Prelude.{
  ◌⊎◌, refl, ◌∙◌, sym, ap, suc, List, [], ◌∷◌, ◌++◌, some, ◌≡◌, ap, subst, inl, inr, Bytes, codes,
  str_eq, ◌==◌, All, length, ◌≤◌, Bool-cases, Option-cases, arith,
}
use mathlib.Core.Option.{some-injective}
use atophttpd.Printf.Length.{length-take_le}
use atophttpd.Json.Out.{
  Labeldef, split_from, set_valid, all_valid, Choice, accepted, refused, choose, jsondef,
}

-- What holds of the label and the print function of every entry.
abbrev pub Entries : {P : Type 0} → (Bytes → P → Type 0) → List (Labeldef P) → Type 0
Entries R = All (λ d. R d.label d.prifunc)

accepted-injective : {P : Type 0} (ds es : List (Labeldef P)) → accepted ds ≡ accepted es → ds ≡ es
accepted-injective ds es h = ap (λ c. elim c [ accepted xs ↦ xs | refused t ↦ ds ]) h

module _ {P : Type 0} (R : Bytes → P → Type 0) where
  set_valid-Entries :
      (name : Bytes) (ds es : List (Labeldef P))
      → Entries R ds
      → set_valid name ds ≡ some es
      → Entries R es
  unfolding set_valid
  set_valid-Entries name [] es h e = absurd (cc e)
  set_valid-Entries name (d ∷ ds) es h e = elim (Bool-cases (str_eq d.label name)) [
    | inl y ↦ subst (Entries R) (some-injective _ _ (rw (y, set_valid) at e)) h
    | inr n ↦ elim (Option-cases (set_valid name ds)) [
      | inl k ↦ absurd (cc (rw (n, set_valid, k) at e))
      | inr (fs, k) ↦
          subst (Entries R) (some-injective _ _ (rw (n, k, set_valid) at e))
            (h.0, set_valid-Entries name ds fs h.1 k)
    ]
  ]

  all_valid-Entries : (ds : List (Labeldef P)) → Entries R ds → Entries R (all_valid ds)
  all_valid-Entries [] h = h
  all_valid-Entries (d ∷ ds) h = (h.0, all_valid-Entries ds h.1)

  pub choose-Entries :
      (names : List Bytes) (ds es : List (Labeldef P))
      → Entries R ds
      → choose names ds ≡ accepted es
      → Entries R es
  unfolding choose
  choose-Entries [] ds es h e = subst (Entries R) (accepted-injective _ _ e) h
  choose-Entries (name ∷ names) ds es h e = elim (Option-cases (set_valid name ds)) [
    | inl n ↦ elim (Bool-cases (str_eq name (codes "ALL"))) [
      | inl y ↦
          subst (Entries R) (accepted-injective _ _ (rw (n, y, choose) at e))
            (all_valid-Entries ds h)
      | inr k ↦ absurd (cc (rw (n, k, choose) at e))
    ]
    | inr (fs, k) ↦
        choose-Entries names fs es (set_valid-Entries name ds fs h k) (rw (k, choose) at e)
  ]

  pub jsondef-Entries :
      (pd : Bytes) (ds es : List (Labeldef P))
      → Entries R ds
      → jsondef pd ds ≡ accepted es
      → Entries R es
  unfolding jsondef
  jsondef-Entries [] ds es h e = subst (Entries R) (accepted-injective _ _ e) h
  jsondef-Entries (c ∷ pd) ds es h e = elim (Bool-cases (c == b'-')) [
    | inl y ↦ absurd (cc (rw (y, jsondef) at e))
    | inr n ↦ choose-Entries (split_from [] (c ∷ pd)) ds es h (rw (n, jsondef) at e)
  ]

abbrev ShortError : {P : Type 0} → Choice P → Type 0
ShortError (accepted ds) = Unit
ShortError (refused err) = length err ≤ 63

choose-ShortError :
    {P : Type 0} (names : List Bytes) (ds : List (Labeldef P)) → ShortError (choose names ds)
unfolding choose
choose-ShortError [] ds = tt
choose-ShortError (name ∷ names) ds = elim (Option-cases (set_valid name ds)) [
  | inr (es, k) ↦ rw (k, choose) (choose-ShortError names es)
  | inl n ↦ elim (Bool-cases (str_eq name (codes "ALL"))) [
    | inl y ↦ rw (n, y, choose) tt
    | inr k ↦
        rw (n, k, choose)
          (length-take_le 63 (codes "json lables not supported: " ++ (name ++ 10 ∷ [])))
  ]
]

jsondef-ShortError : {P : Type 0} (pd : Bytes) (ds : List (Labeldef P)) → ShortError (jsondef pd ds)
unfolding jsondef
jsondef-ShortError [] ds = tt
jsondef-ShortError (c ∷ pd) ds = elim (Bool-cases (c == b'-')) [
  | inl y ↦ rw (y, jsondef) (omega arith)
  | inr n ↦ rw (n, jsondef) (choose-ShortError (split_from [] (c ∷ pd)) ds)
]

-- The text of a refusal is short.
pub refused_short :
    {P : Type 0} (pd err : Bytes) (ds : List (Labeldef P))
    → jsondef pd ds ≡ refused err
    → length err ≤ 63
refused_short pd err ds e = subst ShortError e (jsondef-ShortError pd ds)

pub Choice-cases :
    {P : Type 0} (c : Choice P)
    → ((ds : List (Labeldef P)) × (c ≡ accepted ds)) ⊎ ((err : Bytes) × (c ≡ refused err))
Choice-cases (accepted ds) = inl (ds, refl)
Choice-cases (refused err) = inr (err, refl)

set_valid-length :
    {P : Type 0} (name : Bytes) (ds es : List (Labeldef P))
    → set_valid name ds ≡ some es
    → length es ≡ length ds
unfolding set_valid
set_valid-length name [] es e = absurd (cc e)
set_valid-length name (d ∷ ds) es e = elim (Bool-cases (str_eq d.label name)) [
  | inl y ↦ ap length (sym (some-injective _ _ (rw (y, set_valid) at e)))
  | inr n ↦ elim (Option-cases (set_valid name ds)) [
    | inl k ↦ absurd (cc (rw (n, set_valid, k) at e))
    | inr (fs, k) ↦
        ap length (sym (some-injective _ _ (rw (n, k, set_valid) at e)))
        ∙ ap suc (set_valid-length name ds fs k)
  ]
]

length-all_valid : {P : Type 0} (ds : List (Labeldef P)) → length (all_valid ds) ≡ length ds
length-all_valid [] = refl
length-all_valid (d ∷ ds) = ap suc (length-all_valid ds)

choose-length :
    {P : Type 0} (names : List Bytes) (ds es : List (Labeldef P))
    → choose names ds ≡ accepted es
    → length es ≡ length ds
unfolding choose
choose-length [] ds es e = ap length (sym (accepted-injective _ _ e))
choose-length (name ∷ names) ds es e = elim (Option-cases (set_valid name ds)) [
  | inl n ↦ elim (Bool-cases (str_eq name (codes "ALL"))) [
    | inl y ↦
        ap length (sym (accepted-injective _ _ (rw (n, y, choose) at e))) ∙ length-all_valid ds
    | inr k ↦ absurd (cc (rw (n, k, choose) at e))
  ]
  | inr (fs, k) ↦ choose-length names fs es (rw (k, choose) at e) ∙ set_valid-length name ds fs k
]

-- No entry is lost or added.
pub jsondef-length :
    {P : Type 0} (pd : Bytes) (ds es : List (Labeldef P))
    → jsondef pd ds ≡ accepted es
    → length es ≡ length ds
unfolding jsondef
jsondef-length [] ds es e = ap length (sym (accepted-injective _ _ e))
jsondef-length (c ∷ pd) ds es e = elim (Bool-cases (c == b'-')) [
  | inl y ↦ absurd (cc (rw (y, jsondef) at e))
  | inr n ↦ choose-length (split_from [] (c ∷ pd)) ds es (rw (n, jsondef) at e)
]
