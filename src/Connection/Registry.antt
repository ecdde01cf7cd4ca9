-- ===== src/Connection/Registry.antt =====
-- connection.c: the table of connection types. The slots in use are the first ones of an array of
-- `conn_type_max` pointers.
use atophttpd.Prelude.{
  ℕ, suc, ◌+◌, ◌<◌, ◌≡◌, ◌⊎◌, inl, inr, refl, ◌∙◌, Bool, true, false, ◌&&◌, List, [], ◌∷◌, ◌++◌,
  map, Option, none, some, ℤ, pos, negsuc, Bytes, str_eq, str_eq→eq, leb, ◌==◌, if◌then◌else◌,
  length, get_elem?, arith, Bool-cases, Option-cases,
}
use mathlib.Core.Option
use atophttpd.Atop.{minus, enomem}

abbrev pub conn_type_max : ℕ
conn_type_max = 8

-- `tolower` of the C locale
unfoldable pub to_lower : ℕ → ℕ
to_lower c = if leb b'A' c && leb c b'Z' then c + 32 else c

-- `!strcasecmp(s, t)`
unfoldable pub str_case_eq : Bytes → Bytes → Bool
str_case_eq s t = str_eq (map to_lower s) (map to_lower t)

module _ {T : Type 0} (get_type : T → Bytes) where
  -- The loop over the slots: the first one whose type has the name.
  unfoldable pub find_conntype : Bytes → List T → Option ℕ
  find_conntype typename [] = none
  find_conntype typename (ct ∷ cts) =
      if str_case_eq typename (get_type ct)
      then some 0
      else Option.map suc (find_conntype typename cts)

  -- The number is `-errno` also when the type was stored.
  unfoldable pub conntype_register : ℕ → T → List T → ℤ × List T
  conntype_register errno ct cts = elim (find_conntype (get_type ct) cts) [
    | some i ↦ (minus errno, cts)
    | none ↦
        if length cts == conn_type_max then (minus enomem, cts) else (minus errno, cts ++ ct ∷ [])
  ]

  unfoldable pub get_conntype_by_name : Bytes → List T → Option T
  get_conntype_by_name typename [] = none
  get_conntype_by_name typename (ct ∷ cts) =
      if str_case_eq typename (get_type ct) then some ct else get_conntype_by_name typename cts

  unfoldable pub get_conntype_index_by_name : Bytes → List T → ℤ
  get_conntype_index_by_name typename cts = elim (find_conntype typename cts) [
    | none ↦ negsuc 0
    | some i ↦ pos i
  ]

  find-append_none :
      (name : Bytes) (cts : List T) (ct : T)
      → find_conntype name cts ≡ none
      → str_case_eq name (get_type ct) ≡ true
      → get_conntype_by_name name (cts ++ ct ∷ []) ≡ some ct
  unfolding find_conntype get_conntype_by_name
  find-append_none name [] ct n y = ground (arith, y)
  find-append_none name (c ∷ cts) ct n y = elim (Bool-cases (str_case_eq name (get_type c))) [
    | inl same ↦ absurd (ground (arith, n, same))
    | inr other ↦ rw (other) (
        find-append_none name cts ct
          (elim (Option-cases (find_conntype name cts)) [
            | inl free ↦ free
            | inr (i, e) ↦ absurd (ground (arith, n, other, e))
          ])
          y)
  ]

  get_append_other :
      (name : Bytes) (cts : List T) (ct : T)
      → str_case_eq name (get_type ct) ≡ false
      → get_conntype_by_name name (cts ++ ct ∷ []) ≡ get_conntype_by_name name cts
  unfolding get_conntype_by_name
  get_append_other name [] ct n = ground (arith, n)
  get_append_other name (c ∷ cts) ct n = elim (Bool-cases (str_case_eq name (get_type c))) [
    | inl same ↦ rw (same) refl
    | inr other ↦ rw (other) (get_append_other name cts ct n)
  ]

  find_cong :
      (s t : Bytes) (cts : List T)
      → map to_lower s ≡ map to_lower t
      → find_conntype s cts ≡ find_conntype t cts
  unfolding find_conntype str_case_eq
  find_cong s t [] h = refl
  find_cong s t (ct ∷ cts) h = rw (h, find_cong s t cts h) refl

  -- When no type has the name and a slot is free, `conntype_register` stores the type: its name,
  -- in whatever case, leads to it, and every other name leads where it led.
  pub conntype_register_refines :
      (errno : ℕ) (ct : T) (cts : List T)
      → find_conntype (get_type ct) cts ≡ none
      → length cts < conn_type_max
      → (name : Bytes)
      → get_conntype_by_name name (conntype_register errno ct cts).1
        ≡ (if str_case_eq name (get_type ct) then some ct else get_conntype_by_name name cts)
  unfolding conntype_register
  conntype_register_refines errno ct cts free room name =
      let open_slot : (length cts == conn_type_max) ≡ false = ground (arith, room) in
      elim (Bool-cases (str_case_eq name (get_type ct))) [
        | inl same ↦
            let e = find_cong name (get_type ct) cts (str_eq→eq _ _ (unfold str_case_eq in same)) in
            rw (free, open_slot, same, conntype_register)
              (find-append_none name cts ct (e ∙ free) same)
        | inr other ↦
            rw (free, open_slot, other, conntype_register) (get_append_other name cts ct other)
      ]

  find-get :
      (name : Bytes) (cts : List T)
      → ((find_conntype name cts ≡ none) × (get_conntype_by_name name cts ≡ none))
        ⊎ ((i : ℕ) × (ct : T) × (find_conntype name cts ≡ some i)
            × (get_elem? cts i ≡ some ct)
            × (get_conntype_by_name name cts ≡ some ct))
  unfolding find_conntype get_conntype_by_name
  find-get name [] = inl (refl, refl)
  find-get name (ct ∷ cts) = elim (Bool-cases (str_case_eq name (get_type ct))) [
    | inl same ↦ inr (0, ct, rw (same) refl, refl, rw (same) refl)
    | inr other ↦ elim (find-get name cts) [
      | inl (f, g) ↦ inl (rw (other, f) refl, rw (other, g) refl)
      | inr (i, d, f, e, g) ↦ inr (suc i, d, rw (other, f) refl, e, rw (other, g) refl)
    ]
  ]

  -- `get_conntype_index_by_name` answers -1 exactly when `get_conntype_by_name` finds nothing, and
  -- otherwise the slot of the type that it finds.
  pub conntype-index :
      (name : Bytes) (cts : List T)
      → ((get_conntype_index_by_name name cts ≡ negsuc 0) × (get_conntype_by_name name cts ≡ none))
        ⊎ ((i : ℕ) × (ct : T) × (get_conntype_index_by_name name cts ≡ pos i)
            × (get_elem? cts i ≡ some ct)
            × (get_conntype_by_name name cts ≡ some ct))
  unfolding get_conntype_index_by_name
  conntype-index name cts = elim (find-get name cts) [
    | inl (f, g) ↦ inl (rw (f, get_conntype_index_by_name) refl, g)
    | inr (i, ct, f, e, g) ↦ inr (i, ct, rw (f, get_conntype_index_by_name) refl, e, g)
  ]
