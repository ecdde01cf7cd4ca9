-- ===== src/Cache/Valid.antt =====
-- The well-formed index, and what `cache_set` does to it.

use atophttpd.Prelude.{
  ℕ, ◌+◌, ◌≤◌, ◌<◌, ◌≡◌, refl, inl, inr, List, [], ◌∷◌, ◌++◌, ℤ, ◌≤ℤ◌, arith, last?, All, All-last,
  if◌then◌else◌, ◌==◌, ◌*◌, Option-cases, Returns, done, int_limit, int_add_lem, length-append,
}
use atophttpd.Qsort.{Qsort}
use atophttpd.Qsort.Order.{Ordered, Ordered-append}
use atophttpd.Cache.{Cache, CacheElem, nr_elems, records_trunk, grow, settle, cache_set}

abbrev pub elem_time : CacheElem → ℤ
elem_time e = e.time

-- The array has room for its records and at most one spare trunk, and the times ascend.
pub record IsValid (c : Cache) : Type 0 where
  pub room : nr_elems c ≤ c.max_elems
  pub spare : c.max_elems ≤ nr_elems c + records_trunk
  pub ascending : Ordered elem_time c.elems

module _ (q : Qsort) (old : List CacheElem) (e : CacheElem) where
  -- In order already: appended, not sorted.
  pub settle-append : All (λ x. x.time ≤ℤ e.time) old → settle q old e ≡ old ++ e ∷ []
  unfolding settle
  settle-append h = elim (Option-cases (last? old)) [
    | inl n ↦ rw (n, settle)
    | inr (l, n) ↦ ground (arith, n, All-last _ old h n)
  ]

-- `max_elems` after a call of `grow`.
abbrev pub grown_max : Cache → ℕ
grown_max c = if nr_elems c == c.max_elems then c.max_elems + records_trunk else c.max_elems

-- Below the largest `int` by two trunks there is room for one record more.
abbrev pub HasRoom : ℕ → Type 0
HasRoom n = n + 2 * records_trunk < int_limit

-- What `cache_set` leaves: a valid index of the same file with one record more, at its end.
pub record IsAdded (c : Cache) (time : ℤ) (off : ℕ) (d : Cache) : Type 0 where
  pub valid : IsValid d
  pub holds : d.elems ≡ c.elems ++ record { time = time; off = off } ∷ []
  pub name : d.name ≡ c.name
  pub flags : d.flags ≡ c.flags
  pub st_size : d.st_size ≡ c.st_size
  pub st_mtim : d.st_mtim ≡ c.st_mtim

module _ (q : Qsort) {c : Cache} (valid : IsValid c) (room : HasRoom (nr_elems c)) (time : ℤ)
    (off : ℕ) where
  abbrev added : CacheElem
  added = record { time = time; off = off }

  pub cache_set_lem :
      cache_set q c time off
      ≡ done (record c { max_elems = grown_max c; elems = settle q c.elems added })
  unfolding cache_set grow
  cache_set_lem = ground (
    arith,
    valid.room,
    valid.spare,
    int_add_lem c.max_elems records_trunk (omega (arith, valid.spare)),
  )

  -- A record that is not earlier than the others goes to the end, and nothing is sorted.
  pub cache_set-append :
      All (λ x. x.time ≤ℤ time) c.elems
      → cache_set q c time off
        ≡ done (record c { max_elems = grown_max c; elems = c.elems ++ added ∷ [] })
  cache_set-append h = rw (cache_set_lem, settle-append q c.elems added h)

  -- On a valid index with room below the largest int, a record that is not earlier than the others is
  -- added without a crash and without a sort: at the end, so that the order by time is kept, and
  -- inside the array, which grows by a trunk exactly when it is full.
  pub cache_set-IsAdded :
      All (λ x. x.time ≤ℤ time) c.elems
      → Returns (cache_set q c time off) (λ d. IsAdded c time off d × (d.max_elems ≡ grown_max c))
  cache_set-IsAdded h = rw (cache_set-append h) (
    record {
      valid = record {
        room = ground (arith, length-append c.elems (added ∷ []), valid.room, valid.spare);
        spare = ground (arith, length-append c.elems (added ∷ []), valid.room, valid.spare);
        ascending = Ordered-append elem_time c.elems added valid.ascending h;
      };
      holds = refl;
      name = refl;
      flags = refl;
      st_size = refl;
      st_mtim = refl;
    },
    refl,
  )
