-- ===== src/Cache.antt =====
-- cache.c: the index from times to offsets of one rawlog file, and the table of all indices.
-- The array `elems` is the list of its cells in use, so `nr_elems` is its length; `max_elems` is
-- the room that was allocated. The table is the list of the caches that `caches` points to, and a
-- pointer to a cache is its position.
pub mod Search
pub mod Valid
pub mod Table
pub mod Get
use mathlib.Core.Option
use atophttpd.Prelude.{
  ℕ, zero, suc, ◌+◌, ◌-◌, ◌/◌, ◌*◌, Bool, true, false, not, ◌&&◌, List, [], ◌∷◌, ◌++◌, Option, none,
  some, ℤ, pos, ltb_ℤ, leb_ℤ, eqb_ℤ, Bytes, str_eq, ltb, ◌==◌, if◌then◌else◌, length, get_elem?,
  last?, erase_at, Run, done, crash, ◌>>=◌, ◌>>◌, assert, cell, int_add,
}
use atophttpd.Qsort.{Qsort}

pub record CacheElem : Type 0 where
  pub time : ℤ
  pub off : ℕ

pub record Cache : Type 0 where
  pub name : Bytes
  pub flags : ℕ
  pub max_elems : ℕ
  pub elems : List CacheElem
  pub st_size : ℕ
  pub st_mtim : ℕ

abbrev pub records_trunk : ℕ
records_trunk = 60 * 60 / 10

abbrev pub nr_elems : Cache → ℕ
nr_elems c = length c.elems

unfoldable pub cache_find : Bytes → List Cache → Option ℕ
unfolding str_eq
cache_find name [] = none
cache_find name (c ∷ cs) =
    if str_eq c.name name then some 0 else Option.map suc (cache_find name cs)

abbrev pub new_cache : Bytes → Cache
new_cache name = record {
  name = name;
  flags = 0;
  max_elems = records_trunk;
  elems = [];
  st_size = 0;
  st_mtim = 0;
}

-- The new cache goes to the end of the table; its position comes back with the table.
unfoldable pub cache_alloc : Bytes → List Cache → Run (ℕ × List Cache)
cache_alloc name cs = elim (cache_find name cs) [
  | some i ↦ crash
  | none ↦ done (length cs, cs ++ new_cache name ∷ [])
]

unfoldable pub cache_free : Bytes → List Cache → List Cache
cache_free name cs = elim (cache_find name cs) [ none ↦ cs | some i ↦ erase_at cs i ]

-- `__cache_get`: the first cache whose first and last times enclose the time.
unfoldable pub cache_get_covering : ℤ → List Cache → Run (Option Cache)
cache_get_covering time [] = done none
cache_get_covering time (c ∷ cs) =
    let rest = cache_get_covering time cs in
    do
      assert (not (nr_elems c == 0))
      first_elem ← cell (get_elem? c.elems 0)
      last_elem ← cell (last? c.elems)
      if leb_ℤ first_elem.time time && leb_ℤ time last_elem.time then done (some c) else rest

-- `(left + right) >> 1`
unfoldable pub midpoint : ℕ → ℕ → Run ℕ
midpoint left right = do sum ← int_add left right; done (sum / 2)

abbrev pub elem_off : Option CacheElem → Run ℕ
elem_off none = crash
elem_off (some e) = done e.off

-- The `while` loop and the read after it, with fuel: running out is a crash too.
unfoldable pub search : List CacheElem → ℤ → ℕ → ℕ → ℕ → Run ℕ
search elems time zero left right = crash
search elems time (suc fuel) left right = elim (ltb left right) [
  | false ↦ elem_off (get_elem? elems left)
  | true ↦ elim (midpoint left right) [
    | crash ↦ crash
    | done mid ↦ elim (get_elem? elems mid) [
      | none ↦ crash
      | some e ↦ elim (eqb_ℤ time e.time) [
        | true ↦ done e.off
        | false ↦ elim (ltb_ℤ time e.time) [
          | true ↦ search elems time fuel left mid
          | false ↦ search elems time fuel (mid + 1) right
        ]
      ]
    ]
  ]
]

-- The cache that was found, and `*off`.
unfoldable pub cache_get : ℤ → List Cache → Run (Option (Cache × ℕ))
cache_get time cs = cache_get_covering time cs >>= λ found. elim found [
  | none ↦ done none
  | some c ↦ do
    off ←
        if ltb 2 (nr_elems c)
        then search c.elems time (suc (nr_elems c)) 0 (nr_elems c)
        else elem_off (get_elem? c.elems 0)
    done (some (c, off))
]

abbrev pub int_of_bool : Bool → ℤ
int_of_bool true = pos 1
int_of_bool false = pos 0

unfoldable pub cache_elems_cmp : CacheElem → CacheElem → ℤ
cache_elems_cmp e1 e2 = int_of_bool (ltb_ℤ e2.time e1.time)

-- A full array grows by one trunk.
unfoldable pub grow : Cache → Run Cache
grow c =
    if nr_elems c == c.max_elems
    then (do m ← int_add c.max_elems records_trunk; done (record c { max_elems = m }))
    else done c

-- What follows the write: nothing for a first element, and a sort when it came out of order.
unfoldable pub settle : Qsort → List CacheElem → CacheElem → List CacheElem
settle q old new = elim (last? old) [
  | none ↦ old ++ new ∷ []
  | some last ↦
      if ltb_ℤ new.time last.time
      then q.sort cache_elems_cmp (old ++ new ∷ [])
      else (old ++ new ∷ [])
]

unfoldable pub cache_set : Qsort → Cache → ℤ → ℕ → Run Cache
cache_set q c time off = do
  grown ← grow c
  assert (ltb (nr_elems grown) grown.max_elems)
  done (record grown { elems = settle q grown.elems (record { time = time; off = off }) })

-- `elems[0].time`: the array is allocated with zeros.
unfoldable pub first_time : Cache → ℤ
first_time c = elim (get_elem? c.elems 0) [ none ↦ pos 0 | some e ↦ e.time ]

unfoldable pub cache_cmp : Cache → Cache → ℤ
cache_cmp c1 c2 = int_of_bool (ltb_ℤ (first_time c2) (first_time c1))

unfoldable pub cache_sort : Qsort → List Cache → List Cache
cache_sort q cs = q.sort cache_cmp cs

unfoldable pub cache_get_recent : List Cache → Option Cache
cache_get_recent cs = last? cs
