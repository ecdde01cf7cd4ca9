-- ===== src/Examples/Caches.antt =====
-- The theorems on indices and their table, on two small files.
use atophttpd.Prelude.{
  ℕ, ◌≡◌, refl, List, [], ◌∷◌, ◌++◌, Option, some, none, ℤ, pos, ◌≤ℤ◌, Bytes, codes, arith, All,
  Returns, done, str_eq, if◌then◌else◌, get_elem?,
}
use atophttpd.Cache.{
  Cache, CacheElem, new_cache, cache_find, cache_alloc, cache_free, cache_get, cache_get_covering,
  search, midpoint, cache_set,
}
use atophttpd.Cache.Valid.{IsAdded, cache_set-IsAdded}
use atophttpd.Cache.Get.{Answered, cache_get-Answered}
use atophttpd.Cache.Table.{cached, Distinct, cache_alloc_refines, cache_free_refines}
use atophttpd.Examples.Sorter.{sorter}

abbrev elem_at : ℕ → ℕ → CacheElem
elem_at t o = record { time = pos t; off = o }

abbrev monday : Cache
monday = record {
  name = codes "mon";
  flags = 0;
  max_elems = 360;
  elems = elem_at 100 480 ∷ elem_at 110 700 ∷ elem_at 120 900 ∷ [];
  st_size = 1000;
  st_mtim = 5;
}

abbrev tuesday : Cache
tuesday = record monday { name = codes "tue"; elems = elem_at 200 480 ∷ elem_at 210 600 ∷ [] }

abbrev week : List Cache
week = monday ∷ tuesday ∷ []

cache_get-week : cache_get (pos 105) week ≡ done (some (monday, 700))
unfolding cache_get cache_get_covering search midpoint atophttpd.Prelude.int_add
cache_get-week = refl

cache_get-Answered_example : Returns (cache_get (pos 105) week) (Answered (pos 105) week)
cache_get-Answered_example = cache_get-Answered (pos 105) week (omega arith)

cache_set-IsAdded_example :
    Returns
      (cache_set sorter monday (pos 130) 950)
      (λ d. IsAdded monday (pos 130) 950 d × (d.max_elems ≡ 360))
cache_set-IsAdded_example =
    cache_set-IsAdded sorter {c = monday} (omega arith) (omega arith) (pos 130) 950 (omega arith)

week-Distinct : Distinct week
unfolding str_eq
week-Distinct = ((refl, tt), (tt, tt))

cache_alloc_refines_example : Returns (cache_alloc (codes "wed") week) (λ r.
    Distinct r.1
    × (get_elem? r.1 r.0 ≡ some (new_cache (codes "wed")))
    × ((other : Bytes)
        → cached other r.1 ≡ (
            if str_eq (codes "wed") other
            then some (new_cache (codes "wed"))
            else cached other week)))
unfolding cached cache_find
cache_alloc_refines_example = cache_alloc_refines (codes "wed") week week-Distinct refl

cache_free_refines_example :
    Distinct (cache_free (codes "mon") week)
    × ((other : Bytes)
        → cached other (cache_free (codes "mon") week)
          ≡ (if str_eq (codes "mon") other then none else cached other week))
cache_free_refines_example = cache_free_refines (codes "mon") week week-Distinct
