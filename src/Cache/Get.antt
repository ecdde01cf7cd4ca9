-- ===== src/Cache/Get.antt =====
-- `cache_get`: which file and which record the server shows for a time.
use atophttpd.Prelude.{
  ℕ, suc, ◌+◌, ◌-◌, ◌≤◌, ◌<◌, ◌≡◌, inl, inr, refl, sym, true, false, ◌&&◌, List, [], ◌∷◌, ◌++◌,
  Option, some, none, ℤ, ◌≤ℤ◌, leb_ℤ, arith, ltb, length, last?, get_elem?, All, Bool-cases,
  Returns, done, int_limit, last?_total, last?-suc, subst, ◌>>=◌, ap, ◌∙◌, Returns-map,
  Returns-bind, if◌then◌else◌, get_elem?_total, ◌==◌,
}
use mathlib.Core.Option.{some-injective}
use atophttpd.Cache.{Cache, CacheElem, nr_elems, cache_get_covering, search, elem_off, cache_get}
use atophttpd.Cache.Valid.{IsValid}
use atophttpd.Cache.Search.{IsNext, search-IsNext_whole}

-- An index that a lookup may meet: valid, not empty, and of at most 2^30 records.
pub record IsServed (c : Cache) : Type 0 where
  pub valid : IsValid c
  pub some_elem : 0 < nr_elems c
  pub small : nr_elems c + nr_elems c ≤ int_limit

-- The first and the last time of the index enclose the time.
pub record Covers (time : ℤ) (c : Cache) : Type 0 where
  pub first : CacheElem
  pub last : CacheElem
  pub first_stored : get_elem? c.elems 0 ≡ some first
  pub last_stored : last? c.elems ≡ some last
  pub from_first : first.time ≤ℤ time
  pub to_last : time ≤ℤ last.time

-- The record that is shown: in an index of three records or more the first at or after the time,
-- in a smaller one the first of all.
abbrev pub IsShown : Cache → ℤ → ℕ → Type 0
IsShown c time off =
    (2 < nr_elems c → IsNext c.elems time off)
    × (nr_elems c ≤ 2 → (e : CacheElem) × (get_elem? c.elems 0 ≡ some e) × (e.off ≡ off))

-- What a lookup says: no index of the table covers the time, or one of them does, none before it
-- does, and the offset is that of the record to show.
pub last?_of_some {ℓ} : {A : Type ℓ} (xs : List A) → 0 < length xs → (x : A) × (last? xs ≡ some x)
last?_of_some [] h = absurd (omega arith)
last?_of_some (x ∷ xs) h = last?_total x xs

last?-length {ℓ} :
    {A : Type ℓ} (xs : List A) → 0 < length xs → get_elem? xs (length xs - 1) ≡ last? xs
last?-length [] h = absurd (omega arith)
last?-length (x ∷ xs) h =
    let e : suc (length xs) - 1 ≡ length xs = omega arith in rw e (sym (last?-suc x xs))

pub data Looked (time : ℤ) (cs : List Cache) : Option Cache → Type 0 where
  absent : All (λ c. ¬ Covers time c) cs → Looked time cs none
  present :
      (before after : List Cache) (c : Cache)
      → cs ≡ before ++ c ∷ after
      → All (λ d. ¬ Covers time d) before
      → Covers time c
      → Looked time cs (some c)

Looked-cons :
    (time : ℤ) (c : Cache) (cs : List Cache)
    → ¬ Covers time c
    → (o : Option Cache) → Looked time cs o
    → Looked time (c ∷ cs) o
Looked-cons time c cs n _ (absent none_of) = absent (n, none_of)
Looked-cons time c cs n _ (present before after d e none_of covers) =
    present (c ∷ before) after d (ap (◌∷◌ c) e) (n, none_of) covers

module _ (time : ℤ) (c : Cache) (first last : CacheElem) (pf : get_elem? c.elems 0 ≡ some first)
    (pl : last? c.elems ≡ some last) where
  Covers-of_test : (leb_ℤ first.time time && leb_ℤ time last.time) ≡ true → Covers time c
  Covers-of_test t = record {
    first = first;
    last = last;
    first_stored = pf;
    last_stored = pl;
    from_first = ground arith;
    to_last = ground arith;
  }

  not_Covers-of_test : (leb_ℤ first.time time && leb_ℤ time last.time) ≡ false → ¬ Covers time c
  not_Covers-of_test t v =
      let ef : first ≡ v.first = some-injective _ _ (sym pf ∙ v.first_stored) in
      let el : last ≡ v.last = some-injective _ _ (sym pl ∙ v.last_stored) in
      let lo : first.time ≤ℤ time = rw ef v.from_first in
      let hi : time ≤ℤ last.time = rw el v.to_last in ground arith

covering_lem :
    (time : ℤ) (cs : List Cache)
    → All IsServed cs
    → Returns (cache_get_covering time cs) (Looked time cs)
unfolding cache_get_covering
covering_lem time [] h = absent tt
covering_lem time (c ∷ cs) h =
    let (first, pf) = get_elem?_total c.elems 0 h.0.some_elem in
    let (last, pl) = last?_of_some c.elems h.0.some_elem in
    let more : (nr_elems c == 0) ≡ false = ground (arith, h.0.some_elem) in
    elim (Bool-cases (leb_ℤ first.time time && leb_ℤ time last.time)) [
      | inl t ↦
          rw (cache_get_covering, more, pf, pl, t)
            (present [] cs c refl tt (Covers-of_test time c first last pf pl t))
      | inr t ↦
          rw (cache_get_covering, more, pf, pl, t)
            (Returns-map _ _ (cache_get_covering time cs)
              (Looked-cons time c cs (not_Covers-of_test time c first last pf pl t))
              (covering_lem time cs h.1))
    ]

abbrev pub Answered : ℤ → List Cache → Option (Cache × ℕ) → Type 0
Answered time cs none = Looked time cs none
Answered time cs (some (c, off)) = Looked time cs (some c) × IsShown c time off

All-middle :
    (P : Cache → Type 0) (before after : List Cache) (c : Cache) → All P (before ++ c ∷ after) → P c
All-middle P [] after c h = h.0
All-middle P (b ∷ before) after c h = All-middle P before after c h.1

found_IsServed :
    (time : ℤ) (cs : List Cache) (c : Cache)
    → All IsServed cs
    → Looked time cs (some c)
    → IsServed c
found_IsServed time cs c h (present before after d e none_of covers) =
    All-middle IsServed before after c (subst (All IsServed) e h)

found_Covers : (time : ℤ) (cs : List Cache) (c : Cache) → Looked time cs (some c) → Covers time c
found_Covers time cs c (present before after d e none_of covers) = covers

-- The offset that `cache_get` reads from the index that it found.
covered-IsShown :
    (time : ℤ) (c : Cache)
    → IsServed c
    → Covers time c
    → Returns
        (if ltb 2 (nr_elems c)
          then search c.elems time (suc (nr_elems c)) 0 (nr_elems c)
          else elem_off (get_elem? c.elems 0))
        (IsShown c time)
covered-IsShown time c s v = elim (Bool-cases (ltb 2 (nr_elems c))) [
  | inl big ↦ rw big (
      Returns-map (IsNext c.elems time) _ (search c.elems time (suc (nr_elems c)) 0 (nr_elems c))
        (λ off n. (λ _. n, λ few. absurd (ground arith)))
        (search-IsNext_whole c.elems time s.valid.ascending s.small v.last
          (last?-length c.elems s.some_elem ∙ v.last_stored) v.to_last))
  | inr few ↦
      rw (few, v.first_stored) (λ more. absurd (ground arith), λ _. (v.first, v.first_stored, refl))
]

answer :
    (time : ℤ) (cs : List Cache) (h : All IsServed cs) (o : Option Cache)
    → Looked time cs o
    → Returns
        (elim o [
          | none ↦ done none
          | some c ↦ do
            off ←
                if ltb 2 (nr_elems c)
                then search c.elems time (suc (nr_elems c)) 0 (nr_elems c)
                else elem_off (get_elem? c.elems 0)
            done (some (c, off))
        ])
        (Answered time cs)
answer time cs h none l = l
answer time cs h (some c) l =
    Returns-bind (IsShown c time) (Answered time cs) _ _
      (covered-IsShown time c (found_IsServed time cs c h l) (found_Covers time cs c l))
      (λ off shown. (l, shown))

-- On served indices `cache_get` never crashes: it finds the first index that covers the time, if
-- any does, and the record of it to show.
pub cache_get-Answered :
    (time : ℤ) (cs : List Cache) → All IsServed cs → Returns (cache_get time cs) (Answered time cs)
unfolding cache_get
cache_get-Answered time cs h =
    Returns-bind (Looked time cs) (Answered time cs) (cache_get_covering time cs) _
      (covering_lem time cs h) (answer time cs h)
