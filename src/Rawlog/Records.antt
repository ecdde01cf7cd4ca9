-- ===== src/Rawlog/Records.antt =====
-- The records of a rawlog file, and the loop that puts them into an index.

use atophttpd.Prelude.{
  ℕ, zero, suc, ◌+◌, ◌-◌, ◌≤◌, ◌<◌, ◌≡◌, refl, sym, ◌∙◌, ap, ap₂, subst, inl, inr, Option, List, [],
  ◌∷◌, ◌++◌, append-nil, append_assoc, some, arith, length, length-append, Returns, Returns-bind,
  Returns-map,
}
use atophttpd.Qsort.{Qsort}
use atophttpd.Qsort.Order.{Ordered, Ordered-before}
use atophttpd.Cache.{Cache, CacheElem, nr_elems, cache_set}
use atophttpd.Cache.Valid.{IsValid, IsAdded, HasRoom, elem_time, cache_set-IsAdded}
use atophttpd.Atop.{
  Atop, RawRecord, RawFile, IsFile, full_read, short_read, failed_read, Reading-cases,
}
use atophttpd.Rawlog.{next_off, read_records}

-- The index element of a record.
abbrev pub element : ℕ → RawRecord → CacheElem
element off rr = record { time = rr.curtime; off = off }

module _ (a : Atop) (f : RawFile) where
  -- The records from an offset up to the first read that comes out short, as index elements.
  pub data Records : ℕ → List CacheElem → Type 0 where
    finish : (off : ℕ) → f.record_at off ≡ short_read → Records off []
    step :
        (off : ℕ) (rr : RawRecord) (es : List CacheElem)
        → f.record_at off ≡ full_read rr
        → Records (next_off a off rr) es
        → Records off (element off rr ∷ es)

  Records-length_sub :
      IsFile a f → {off : ℕ} {es : List CacheElem} → Records off es → length es ≤ f.len - off
  Records-length_sub file (finish off n) = omega arith
  Records-length_sub file (step off rr es e r) =
      omega (arith, a.rawrecord_pos, file.inside off rr e, Records-length_sub file r)

  -- Every record starts inside the file, so there are at most as many as bytes.
  pub Records-length :
      IsFile a f → {off : ℕ} {es : List CacheElem} → Records off es → length es ≤ f.len
  Records-length file r = omega (arith, Records-length_sub file r)

  Records-exist_fuel :
      IsFile a f
      → ((off : ℕ) → ¬ (f.record_at off ≡ failed_read))
      → (k off : ℕ) → f.len < off + k
      → (es : List CacheElem) × Records off es
  Records-exist_fuel file reads zero off h = elim (Reading-cases (f.record_at off)) [
    | inl (rr, e) ↦ absurd (omega (arith, file.inside off rr e))
    | inr (inl n) ↦ ([], finish off n)
    | inr (inr n) ↦ absurd (reads off n)
  ]
  Records-exist_fuel file reads (suc k) off h = elim (Reading-cases (f.record_at off)) [
    | inl (rr, e) ↦
        let (es, r) =
          Records-exist_fuel file reads k (next_off a off rr) (omega (arith, a.rawrecord_pos)) in
        (element off rr ∷ es, step off rr es e r)
    | inr (inl n) ↦ ([], finish off n)
    | inr (inr n) ↦ absurd (reads off n)
  ]

  -- Every file whose reads do not fail has its list of records.
  pub Records-exist :
      IsFile a f
      → ((off : ℕ) → ¬ (f.record_at off ≡ failed_read))
      → (off : ℕ) → (es : List CacheElem) × Records off es
  Records-exist file reads off = Records-exist_fuel file reads (suc f.len) off (omega arith)

pub full_read-injective : (rr rr' : RawRecord) → full_read rr ≡ full_read rr' → rr ≡ rr'
full_read-injective rr rr' h = cc h

-- A file has no other list of records from one offset on.
pub Records-unique :
    (a : Atop) (f : RawFile) {i j : ℕ} {es es' : List CacheElem}
    → i ≡ j
    → Records a f i es
    → Records a f j es'
    → es ≡ es'
Records-unique a f p (finish off n) (finish off' n') = refl
Records-unique a f p (finish off n) (step off' rr' es' e' r') = absurd (cc (p, n, e'))
Records-unique a f p (step off rr es e r) (finish off' n') = absurd (cc (p, n', e))
Records-unique a f p (step off rr es e r) (step off' rr' es' e' r') =
    let same : rr ≡ rr' = full_read-injective _ _ (cc (p, e, e')) in
    ap₂ (◌∷◌) (ap₂ element p same) (Records-unique a f (ap₂ (next_off a) p same) r r')

-- The state of an index after a loop over records: valid, with the records behind the old ones.
pub record IsIndexed (c : Cache) (es : List CacheElem) (d : Cache) : Type 0 where
  pub valid : IsValid d
  pub holds : d.elems ≡ c.elems ++ es
  pub name : d.name ≡ c.name
  pub flags : d.flags ≡ c.flags
  pub st_size : d.st_size ≡ c.st_size
  pub st_mtim : d.st_mtim ≡ c.st_mtim

module _ (c : Cache) (off : ℕ) (rr : RawRecord) (es : List CacheElem) {c' : Cache}
    (added : IsAdded c rr.curtime off c') where
  whole : c'.elems ++ es ≡ c.elems ++ element off rr ∷ es
  whole = ap (λ l. l ++ es) added.holds ∙ append_assoc c.elems _ es

  IsIndexed-step : {d : Cache} → IsIndexed c' es d → IsIndexed c (element off rr ∷ es) d
  IsIndexed-step i = record {
    valid = i.valid;
    holds = i.holds ∙ whole;
    name = i.name ∙ added.name;
    flags = i.flags ∙ added.flags;
    st_size = i.st_size ∙ added.st_size;
    st_mtim = i.st_mtim ∙ added.st_mtim;
  }

  room_left : HasRoom (nr_elems c + suc (length es)) → HasRoom (nr_elems c' + length es)
  room_left room = omega (arith, ap length added.holds, length-append c.elems (element off rr ∷ []))

module _ (a : Atop) (q : Qsort) (f : RawFile) where
  -- With more fuel than records, no read of which fails, in order of time behind those of a valid
  -- index, and room below the largest int, the loop ends without a crash, and the index is valid and
  -- holds its old records and then those of the file.
  pub read_records-IsIndexed :
      (fuel : ℕ) (left : Option RawRecord) (c : Cache) {off : ℕ} {es : List CacheElem}
      → Records a f off es
      → length es < fuel
      → IsValid c
      → HasRoom (nr_elems c + length es)
      → Ordered elem_time (c.elems ++ es)
      → Returns (read_records a q f fuel left c off) (IsIndexed c es)
  unfolding read_records
  read_records-IsIndexed zero left c r lt v room o = absurd (omega arith)
  read_records-IsIndexed (suc fuel) left c (finish off n) lt v room o =
      rw (n, read_records)
        record {
          valid = v;
          holds = sym (append-nil c.elems);
          name = refl;
          flags = refl;
          st_size = refl;
          st_mtim = refl;
        }
  read_records-IsIndexed (suc fuel) left c (step off rr es e r) lt v room o =
      rw (e, read_records)
        (Returns-bind _ _ (cache_set q c rr.curtime off) _
          (cache_set-IsAdded q v (omega arith) rr.curtime off
            (Ordered-before elem_time c.elems (element off rr) es o))
          (λ c' (added, grown).
            Returns-map (IsIndexed c' es) _
              (read_records a q f fuel (some rr) c' (next_off a off rr))
              (λ d i. IsIndexed-step c off rr es added i)
              (read_records-IsIndexed fuel (some rr) c' r (omega arith) added.valid
                (room_left c off rr es added room)
                (subst (Ordered elem_time) (sym (whole c off rr es added)) o))))
