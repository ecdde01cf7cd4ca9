-- ===== src/Rawlog/Rebuild.antt =====
-- `rawlog_rebuild_one`: a file that has grown since it was indexed.
use mathlib.Core.List.{head-eq_of_cons-eq, tail-eq_of_cons-eq}
use mathlib.Core.Option.{some-injective}
use atophttpd.Prelude.{
  ℕ, suc, ◌+◌, ◌<◌, ◌≡◌, refl, sym, ◌∙◌, ap, subst, List, [], ◌∷◌, ◌++◌, none, some, ℤ, pos, arith,
  length, length-append, last?, Returns, Returns-bind, Returns-map,
}
use atophttpd.Qsort.{Qsort}
use atophttpd.Qsort.Order.{Ordered}
use atophttpd.Cache.{Cache, CacheElem, nr_elems, new_cache}
use atophttpd.Cache.Valid.{IsValid, HasRoom, elem_time}
use atophttpd.Atop.{Atop, RawRecord, RawFile, IsFile, Stat, ok, full_read}
use atophttpd.Cache.Get.{last?_of_some}
use atophttpd.Rawlog.Parse.{update_stat_ok}
use atophttpd.Rawlog.{next_off, read_records, rebuild_from}
use atophttpd.Rawlog.Records.{
  Records, finish, step, Records-length, IsIndexed, read_records-IsIndexed,
}

-- The record of the last index element, and the records after it.
record Resumes (a : Atop) (f : RawFile) (e : CacheElem) (more : List CacheElem) : Type 0 where
  rr : RawRecord
  found : f.record_at e.off ≡ full_read rr
  rest : Records a f (next_off a e.off rr) more

module _ (a : Atop) (f : RawFile) where
  Records-Resumes :
      (es more : List CacheElem) {e : CacheElem} {off : ℕ} {all : List CacheElem}
      → Records a f off all
      → all ≡ es ++ more
      → last? es ≡ some e
      → Resumes a f e more
  Records-Resumes [] more r p l = absurd (cc l)
  Records-Resumes (x ∷ []) more (finish off n) p l = absurd (cc p)
  Records-Resumes (x ∷ []) more {e} (step off rr rest h r) p l =
      let e_off : off ≡ e.off = ap (λ c. c.off) (head-eq_of_cons-eq p ∙ some-injective _ _ l) in
      record {
        rr = rr;
        found = subst (λ o. f.record_at o ≡ full_read rr) e_off h;
        rest =
            subst (Records a f _) (tail-eq_of_cons-eq p)
              (subst (λ o. Records a f (next_off a o rr) rest) e_off r);
      }
  Records-Resumes (x ∷ y ∷ ys) more (finish off n) p l = absurd (cc p)
  Records-Resumes (x ∷ y ∷ ys) more (step off rr rest h r) p l =
      Records-Resumes (y ∷ ys) more r (tail-eq_of_cons-eq p) l

-- The result of a rebuild: success, and an index of all the records of the file.
abbrev pub Rebuilt : Stat → Cache → List CacheElem → ℤ × Cache → Type 0
Rebuilt st c more r =
    (r.0 ≡ pos 0)
    × IsValid r.1
    × (r.1.elems ≡ c.elems ++ more)
    × (r.1.name ≡ c.name)
    × (r.1.flags ≡ c.flags)
    × (r.1.st_size ≡ st.st_size)

module _ (a : Atop) (q : Qsort) (f : RawFile) (file : IsFile a f) (st : Stat)
    (stated : f.fstat ≡ ok st) (c : Cache) (valid : IsValid c) (start : ℕ) (more : List CacheElem)
    (some_elem : 0 < nr_elems c) (grown : Records a f start (c.elems ++ more))
    (ascending : Ordered elem_time (c.elems ++ more))
    (room : HasRoom (nr_elems c + length more)) where
  resumed :
      (e : CacheElem)
      → last? c.elems ≡ some e
      → Resumes a f e more
      → Returns (rebuild_from a q f c) (Rebuilt st c more)
  unfolding rebuild_from
  resumed e l s =
      rw (rebuild_from, l, s.found)
        (Returns-bind (IsIndexed c more) (Rebuilt st c more)
          (read_records a q f (suc f.len) (some s.rr) c (next_off a e.off s.rr)) _
          (read_records-IsIndexed a q f (suc f.len) (some s.rr) c s.rest enough valid room
            ascending)
          (λ d i. rw (update_stat_ok f st d stated) (
            refl,
            record { room = i.valid.room; spare = i.valid.spare; ascending = i.valid.ascending },
            i.holds,
            i.name,
            i.flags,
            refl,
          )))
    where
      enough : length more < suc f.len
      enough = omega (arith, Records-length a f file s.rest)

  pub rebuild_from-Rebuilt : Returns (rebuild_from a q f c) (Rebuilt st c more)
  rebuild_from-Rebuilt =
      let (e, l) = last?_of_some c.elems some_elem in
      resumed e l (Records-Resumes a f c.elems more grown refl l)

  -- When the index of an opened file is valid, not empty and holds the first of its records,
  -- `fstat` succeeds, no read of a record fails, the times of all records ascend, and they leave room
  -- below the largest int: the rest of a rebuild returns 0 and an index of all of them, in order and
  -- each once, which is the index that the loop of a first parse builds from the whole file.
  pub rebuild_from-eq-parse : Returns (rebuild_from a q f c) (λ r.
      Rebuilt st c more r
      × Returns
          (read_records a q f (suc f.len) none (new_cache c.name) start)
          (λ d. r.1.elems ≡ d.elems))
  rebuild_from-eq-parse =
      Returns-map (Rebuilt st c more) _ (rebuild_from a q f c)
        (λ r h. (
          h,
          Returns-map (IsIndexed (new_cache c.name) (c.elems ++ more)) _
              (read_records a q f (suc f.len) none (new_cache c.name) start)
              (λ d i. h.2 ∙ sym i.holds)
              (read_records-IsIndexed a q f (suc f.len) none (new_cache c.name) grown
                (omega (arith, Records-length a f file grown)) (omega arith)
                (omega (arith, length-append c.elems more)) ascending),
        ))
        rebuild_from-Rebuilt
