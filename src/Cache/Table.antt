-- ===== src/Cache/Table.antt =====
-- The table of caches is a finite map from file names: `cache_find`, `cache_alloc`, `cache_free`.

use atophttpd.Prelude.{
  ◌≡◌, inl, inr, refl, sym, ◌∙◌, true, false, List, [], ◌∷◌, ◌++◌, Option, some, none, arith,
  length, get_elem?, All, All-append, Bool-cases, Returns, done, Bytes, str_eq, str_eq_iff,
  if◌then◌else◌,
}
use atophttpd.Cache.{Cache, new_cache, cache_find, cache_alloc, cache_free}

-- The cache that a name leads to.
unfoldable pub cached : Bytes → List Cache → Option Cache
cached name cs = elim (cache_find name cs) [ none ↦ none | some i ↦ get_elem? cs i ]

-- No two caches have one name.
abbrev pub Distinct : List Cache → Type 0
Distinct [] = Unit
Distinct (c ∷ cs) = All (λ d. str_eq d.name c.name ≡ false) cs × Distinct cs

-- The map that the table stands for, by recursion.
entry : Bytes → List Cache → Option Cache
entry name [] = none
entry name (c ∷ cs) = if str_eq c.name name then some c else entry name cs

without : Bytes → List Cache → List Cache
without name [] = []
without name (c ∷ cs) = if str_eq c.name name then cs else c ∷ without name cs

cached_lem : (name : Bytes) (cs : List Cache) → cached name cs ≡ entry name cs
unfolding cached entry cache_find
cached_lem name [] = refl
cached_lem name (c ∷ cs) = ground (arith, cached_lem name cs)

free_lem : (name : Bytes) (cs : List Cache) → cache_free name cs ≡ without name cs
unfolding cache_free without cache_find
free_lem name [] = refl
free_lem name (c ∷ cs) = ground (arith, free_lem name cs)

entry-append :
    (name : Bytes) (cs : List Cache) (d : Cache)
    → entry name (cs ++ d ∷ []) ≡ elim (entry name cs) [
      | some c ↦ some c
      | none ↦ (if str_eq d.name name then some d else none)
    ]
unfolding entry
entry-append name [] d = ground arith
entry-append name (c ∷ cs) d = ground (arith, entry-append name cs d)

find_none : (name : Bytes) (cs : List Cache) → entry name cs ≡ none → cache_find name cs ≡ none
unfolding entry cache_find
find_none name [] h = refl
find_none name (c ∷ cs) h = ground (arith, find_none name cs)

entry_absent :
    (name : Bytes) (cs : List Cache)
    → All (λ d. str_eq d.name name ≡ false) cs
    → entry name cs ≡ none
unfolding entry
entry_absent name [] h = refl
entry_absent name (c ∷ cs) h = ground (arith, entry_absent name cs)

absent_entry :
    (name : Bytes) (cs : List Cache)
    → entry name cs ≡ none
    → All (λ d. str_eq d.name name ≡ false) cs
unfolding entry
absent_entry name [] h = tt
absent_entry name (c ∷ cs) h = (ground arith, absent_entry name cs (ground arith))

entry-without :
    (name other : Bytes) (cs : List Cache)
    → Distinct cs
    → entry other (without name cs) ≡ (if str_eq name other then none else entry other cs)
unfolding entry without
entry-without name other [] h = ground arith
entry-without name other (c ∷ cs) h = ground (
  arith,
  str_eq_iff c.name name,
  str_eq_iff name other,
  str_eq_iff c.name other,
  entry_absent c.name cs h.0,
  entry-without name other cs h.1,
)

All-without :
    (P : Cache → Type 0) (name : Bytes) (cs : List Cache) → All P cs → All P (without name cs)
unfolding without
All-without P name [] h = tt
All-without P name (c ∷ cs) h = elim (Bool-cases (str_eq c.name name)) [
  | inl t ↦ rw (t, without) h.1
  | inr t ↦ rw (t, without) (h.0, All-without P name cs h.1)
]

Distinct-without : (name : Bytes) (cs : List Cache) → Distinct cs → Distinct (without name cs)
unfolding without
Distinct-without name [] h = tt
Distinct-without name (c ∷ cs) h = elim (Bool-cases (str_eq c.name name)) [
  | inl t ↦ rw (t, without) h.1
  | inr t ↦ rw (t, without) (All-without _ name cs h.0, Distinct-without name cs h.1)
]

Distinct-append :
    (cs : List Cache) (d : Cache)
    → Distinct cs
    → All (λ c. str_eq c.name d.name ≡ false) cs
    → Distinct (cs ++ d ∷ [])
Distinct-append [] d h k = (tt, tt)
Distinct-append (c ∷ cs) d h k = (
  All-append _ cs (d ∷ []) h.0
      (ground (arith, k.0, str_eq_iff c.name d.name, str_eq_iff d.name c.name), tt),
  Distinct-append cs d h.1 k.1,
)

pub get_elem?-length {ℓ} :
    {A : Type ℓ} (xs : List A) (x : A) → get_elem? (xs ++ x ∷ []) (length xs) ≡ some x
get_elem?-length [] x = refl
get_elem?-length (y ∷ ys) x = get_elem?-length ys x

-- For a name that is not in the table `cache_alloc` does not fail: names stay distinct, the
-- position that it returns holds the empty cache of that name, and the table's map changes at that
-- name alone.
pub cache_alloc_refines :
    (name : Bytes) (cs : List Cache)
    → Distinct cs
    → cached name cs ≡ none
    → Returns (cache_alloc name cs) (λ r.
      Distinct r.1
      × (get_elem? r.1 r.0 ≡ some (new_cache name))
      × ((other : Bytes)
          → cached other r.1
            ≡ (if str_eq name other then some (new_cache name) else cached other cs)))
unfolding cache_alloc
cache_alloc_refines name cs h absent =
    let e : entry name cs ≡ none = sym (cached_lem name cs) ∙ absent in
    rw (find_none name cs e, cache_alloc)
      (
        Distinct-append cs (new_cache name) h (absent_entry name cs e),
        get_elem?-length cs (new_cache name),
        λ other.
            rw (cached_lem, entry-append)
              (ground (arith, cached_lem other cs, e, str_eq_iff name other)),
      )

-- `cache_free` keeps names distinct, and the table's map loses that name alone.
pub cache_free_refines :
    (name : Bytes) (cs : List Cache)
    → Distinct cs
    → Distinct (cache_free name cs)
      × ((other : Bytes)
          → cached other (cache_free name cs)
            ≡ (if str_eq name other then none else cached other cs))
cache_free_refines name cs h = (
  rw free_lem (Distinct-without name cs h),
  λ other. rw (free_lem, cached_lem, cached_lem) (entry-without name other cs h),
)

without-append :
    (name : Bytes) (cs : List Cache) (d : Cache)
    → entry name cs ≡ none
    → str_eq d.name name ≡ true
    → without name (cs ++ d ∷ []) ≡ cs
unfolding without entry
without-append name [] d h e = ground arith
without-append name (c ∷ cs) d h e = ground (arith, without-append name cs d)

-- Freeing the cache at the end of the table undoes its allocation.
pub cache_free-append :
    (name : Bytes) (cs : List Cache) (d : Cache)
    → cached name cs ≡ none
    → d.name ≡ name
    → cache_free name (cs ++ d ∷ []) ≡ cs
cache_free-append name cs d h e =
    rw free_lem
      (without-append name cs d (sym (cached_lem name cs) ∙ h) ((str_eq_iff d.name name).1 e))

pub cached-cache_find :
    (name : Bytes) (cs : List Cache) → cache_find name cs ≡ none → cached name cs ≡ none
unfolding cached
cached-cache_find name cs h = rw (h, cached)

pub cache_alloc_lem :
    (name : Bytes) (cs : List Cache)
    → cache_find name cs ≡ none
    → cache_alloc name cs ≡ done (length cs, cs ++ new_cache name ∷ [])
unfolding cache_alloc
cache_alloc_lem name cs h = rw (h, cache_alloc)
