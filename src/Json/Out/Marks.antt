-- ===== src/Json/Out/Marks.antt =====
-- Which labels a list of names makes valid.
use atophttpd.Json.Out.Commas.{commas, IsName, split_from-commas}
use atophttpd.Prelude.{
  Bool, true, false, not, ◌||◌, List, [], ◌∷◌, ◌++◌, none, some, ◌≡◌, refl, sym, subst, ap, ap₂,
  ◌∙◌, inl, inr, Bytes, codes, str_eq, str_eq→eq, ◌==◌, if◌then◌else◌, All, Bool-cases, arith,
}
use atophttpd.Json.Out.{
  Labeldef, split_from, set_valid, all_valid, Choice, accepted, refused, unsupported, choose,
  jsondef,
}

abbrev pub one_of : Bytes → List Bytes → Bool
one_of s [] = false
one_of s (name ∷ names) = str_eq s name || one_of s names

-- No name occurs twice.
abbrev pub Distinct : List Bytes → Type 0
Distinct [] = Unit
Distinct (s ∷ ss) = (one_of s ss ≡ false) × Distinct ss

str_eq_comm : (s t : Bytes) → str_eq s t ≡ str_eq t s
unfolding str_eq
str_eq_comm [] [] = refl
str_eq_comm [] (y ∷ t) = refl
str_eq_comm (x ∷ s) [] = refl
str_eq_comm (x ∷ s) (y ∷ t) = ground (arith, str_eq_comm s t)

-- `*pd == '-'`
abbrev pub starts_dash : Bytes → Bool
starts_dash [] = false
starts_dash (c ∷ s) = c == b'-'

module _ {P : Type 0} where
  abbrev pub labels : List (Labeldef P) → List Bytes
  labels [] = []
  labels (d ∷ ds) = d.label ∷ labels ds

  -- The entries with a label among the names become valid.
  unfoldable pub marked : List Bytes → List (Labeldef P) → List (Labeldef P)
  marked names [] = []
  marked names (d ∷ ds) = record d { valid = d.valid || one_of d.label names } ∷ marked names ds

  labels-marked :
      (names : List Bytes) (ds : List (Labeldef P)) → labels (marked names ds) ≡ labels ds
  unfolding marked
  labels-marked names [] = refl
  labels-marked names (d ∷ ds) = ap (λ ls. d.label ∷ ls) (labels-marked names ds)

  valid_false : (d : Labeldef P) → record d { valid = d.valid || false } ≡ d
  valid_false d = elim (Bool-cases d.valid) [ inl y ↦ rw (y) refl | inr n ↦ rw (n) refl ]

  marked-nil : (ds : List (Labeldef P)) → marked [] ds ≡ ds
  unfolding marked
  marked-nil [] = refl
  marked-nil (d ∷ ds) = ap₂ (λ e es. e ∷ es) (valid_false d) (marked-nil ds)

  marked-absent :
      (s : Bytes) (ds : List (Labeldef P)) → one_of s (labels ds) ≡ false → marked (s ∷ []) ds ≡ ds
  unfolding marked
  marked-absent s [] h = refl
  marked-absent s (d ∷ ds) h =
      let other : str_eq d.label s ≡ false = str_eq_comm d.label s ∙ ground arith in
      let rest : one_of s (labels ds) ≡ false = ground arith in
      rw (other) (ap₂ (λ e es. e ∷ es) (valid_false d) (marked-absent s ds rest))

  set_valid-marked :
      (s : Bytes) (ds : List (Labeldef P))
      → Distinct (labels ds)
      → one_of s (labels ds) ≡ true
      → set_valid s ds ≡ some (marked (s ∷ []) ds)
  unfolding set_valid marked
  set_valid-marked s [] u h = absurd (cc h)
  set_valid-marked s (d ∷ ds) u h = elim (Bool-cases (str_eq d.label s)) [
    | inl y ↦
        let absent : one_of s (labels ds) ≡ false =
          subst (λ t. one_of t (labels ds) ≡ false) (str_eq→eq d.label s y) u.0 in
        let set : (d.valid || (true || false)) ≡ true = ground arith in
        rw (y, set, marked-absent s ds absent) refl
    | inr n ↦
        let rest : one_of s (labels ds) ≡ true = ground (arith, str_eq_comm d.label s) in
        rw (n, set_valid-marked s ds u.1 rest)
          (ap (λ e. some (e ∷ marked (s ∷ []) ds)) (sym (valid_false d)))
  ]

  set_valid-absent :
      (s : Bytes) (ds : List (Labeldef P)) → one_of s (labels ds) ≡ false → set_valid s ds ≡ none
  unfolding set_valid
  set_valid-absent s [] h = refl
  set_valid-absent s (d ∷ ds) h =
      let other : str_eq d.label s ≡ false = str_eq_comm d.label s ∙ ground arith in
      let rest : one_of s (labels ds) ≡ false = ground arith in
      rw (other, set_valid-absent s ds rest) refl

  marked-marked :
      (s : Bytes) (names : List Bytes) (ds : List (Labeldef P))
      → marked names (marked (s ∷ []) ds) ≡ marked (s ∷ names) ds
  unfolding marked
  marked-marked s names [] = refl
  marked-marked s names (d ∷ ds) =
      let same : ((d.valid || (str_eq d.label s || false)) || one_of d.label names)
          ≡ (d.valid || (str_eq d.label s || one_of d.label names)) =
        ground arith in
      rw (same) (
        ap (λ es. record d { valid = d.valid || (str_eq d.label s || one_of d.label names) } ∷ es)
          (marked-marked s names ds))

  all_valid-marked :
      (names : List Bytes) (ds : List (Labeldef P)) → all_valid (marked names ds) ≡ all_valid ds
  unfolding marked
  all_valid-marked names [] = refl
  all_valid-marked names (d ∷ ds) =
      ap (λ es. record d { valid = true } ∷ es) (all_valid-marked names ds)

  -- Names of the table, then others.
  pub choose-append :
      (names more : List Bytes) (ds : List (Labeldef P))
      → Distinct (labels ds)
      → All (λ s. one_of s (labels ds) ≡ true) names
      → choose (names ++ more) ds ≡ choose more (marked names ds)
  unfolding choose
  choose-append [] more ds u h = ap (λ es. choose more es) (sym (marked-nil ds))
  choose-append (s ∷ names) more ds u h =
      let same = labels-marked (s ∷ []) ds in
      rw (set_valid-marked s ds u h.0, choose)
        (choose-append names more (marked (s ∷ []) ds) (subst Distinct (sym same) u)
            (subst (λ ls. All (λ t. one_of t ls ≡ true) names) (sym same) h.1)
          ∙ ap (λ es. choose more es) (marked-marked s names ds))

  -- The last name is unknown: `ALL`, or an error.
  choose-unknown :
      (s : Bytes) (more : List Bytes) (ds : List (Labeldef P))
      → one_of s (labels ds) ≡ false
      → choose (s ∷ more) ds
        ≡ (if str_eq s (codes "ALL") then accepted (all_valid ds) else refused (unsupported s))
  unfolding choose
  choose-unknown s more ds h = rw (set_valid-absent s ds h, choose) refl

  -- What is made of names of the table and more names: what follows the first unknown one is not read.
  unfoldable pub choice_of : List Bytes → List Bytes → List (Labeldef P) → Choice P
  choice_of names [] ds = accepted (marked names ds)
  choice_of names (s ∷ more) ds =
      if str_eq s (codes "ALL") then accepted (all_valid ds) else refused (unsupported s)

  abbrev pub starts_unknown : List Bytes → List (Labeldef P) → Bool
  starts_unknown [] ds = true
  starts_unknown (s ∷ more) ds = not (one_of s (labels ds))

  jsondef-choose :
      (pd : Bytes) (ds : List (Labeldef P))
      → starts_dash pd ≡ false
      → jsondef pd ds ≡ choose (split_from [] pd) ds
  unfolding jsondef choose split_from
  jsondef-choose [] ds h = refl
  jsondef-choose (c ∷ pd) ds h = rw (h, jsondef) refl

  chosen :
      (names more : List Bytes) (ds : List (Labeldef P))
      → starts_unknown more ds ≡ true
      → choose more (marked names ds) ≡ choice_of names more ds
  unfolding choose choice_of
  chosen names [] ds h = refl
  chosen names (s ∷ more) ds h =
      let unknown : one_of s (labels ds) ≡ false = ground arith in
      choose-unknown s more (marked names ds) (rw (labels-marked names ds) unknown)
      ∙ ap (λ es. if str_eq s (codes "ALL") then accepted es else refused (unsupported s))
          (all_valid-marked names ds)

  -- On a table of distinct labels, and a list of non-empty names with commas between them that
  -- does not begin with `-`, `jsondef` makes valid exactly the entries that were valid or are
  -- named, if the table has all names. If names of the table are followed by an unknown one, it
  -- makes all entries valid when that name is `ALL`, and refuses otherwise, whatever comes
  -- behind.
  pub jsondef_lem :
      (names more : List Bytes) (ds : List (Labeldef P))
      → Distinct (labels ds)
      → All IsName (names ++ more)
      → All (λ s. one_of s (labels ds) ≡ true) names
      → starts_unknown more ds ≡ true
      → starts_dash (commas (names ++ more)) ≡ false
      → jsondef (commas (names ++ more)) ds ≡ choice_of names more ds
  jsondef_lem names more ds u n h unknown dash =
      jsondef-choose (commas (names ++ more)) ds dash
      ∙ ap (λ ns. choose ns ds) (split_from-commas (names ++ more) n)
      ∙ choose-append names more ds u h
      ∙ chosen names more ds unknown
