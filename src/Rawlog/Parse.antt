-- ===== src/Rawlog/Parse.antt =====
-- `rawlog_parse_one` on a file that has no index yet.
use Prim.Native.Nat.{bit_and}
use atophttpd.Prelude.{
  ℕ, suc, ◌≡◌, ◌↔◌, ◌⊎◌, refl, ap, true, false, List, [], ◌∷◌, ◌++◌, none, ℤ, pos, arith, length,
  set, Returns, Returns-bind, ◌<◌, Bytes, ◌==◌, if◌then◌else◌,
}
use atophttpd.Qsort.{Qsort}
use atophttpd.Qsort.Order.{Ordered}
use atophttpd.Cache.{Cache, CacheElem, nr_elems, new_cache, cache_find, cache_free}
use atophttpd.Cache.Valid.{IsValid, HasRoom, elem_time}
use atophttpd.Cache.Table.{
  cached, cached-cache_find, cache_free-append, cache_alloc_lem, get_elem?-length,
}
use atophttpd.Atop.{
  Atop, RawHeader, RawFile, IsFile, FileSystem, Stat, full_read, ok, minus, einval, has_flag,
}
use atophttpd.Rawlog.{
  rawlog_verify_rawheader, read_records, update_stat, fill_cache, parse_new, rawlog_parse_one,
}
use atophttpd.Rawlog.Records.{Records, Records-length, IsIndexed, read_records-IsIndexed}

-- What a header must hold: atop's magic, its struct sizes, and its version where it names one.
pub record IsAtopHeader (a : Atop) (rh : RawHeader) : Type 0 where
  pub magic : rh.magic ≡ a.mymagic
  pub rawheadlen : rh.rawheadlen ≡ a.sizeof_rawheader
  pub rawreclen : rh.rawreclen ≡ a.sizeof_rawrecord
  pub sstatlen : rh.sstatlen ≡ a.sizeof_sstat
  pub tstatlen : rh.tstatlen ≡ a.sizeof_tstat
  pub version : has_flag rh.aversion 0x8000 ≡ true → bit_and rh.aversion 0x7fff ≡ a.numvers

-- `rawlog_verify_rawheader` answers 0 exactly for a header of this atop, and -EINVAL for others.
pub rawlog_verify_rawheader_iff :
    (a : Atop) (rh : RawHeader)
    → ((rawlog_verify_rawheader a rh ≡ pos 0) ↔ IsAtopHeader a rh)
      × ((rawlog_verify_rawheader a rh ≡ pos 0) ⊎ (rawlog_verify_rawheader a rh ≡ minus einval))
unfolding rawlog_verify_rawheader
rawlog_verify_rawheader_iff a rh = ((mp, λ v. mpr v), ground arith)
  where
    mp : rawlog_verify_rawheader a rh ≡ pos 0 → IsAtopHeader a rh
    mp h = record {
      magic = ground arith;
      rawheadlen = ground arith;
      rawreclen = ground arith;
      sstatlen = ground arith;
      tstatlen = ground arith;
      version = λ v. ground arith;
    }

    mpr : IsAtopHeader a rh → rawlog_verify_rawheader a rh ≡ pos 0
    mpr v = ground (arith, v.version)

set-length {ℓ} :
    {A : Type ℓ} (xs : List A) (x y : A) → set (xs ++ x ∷ []) (length xs) y ≡ xs ++ y ∷ []
set-length [] x y = refl
set-length (z ∷ zs) x y = ap (◌∷◌ z) (set-length zs x y)

-- What the parse of a new file leaves: an index of its records at the end of the table, or the
-- table as it was if there are none.
abbrev pub Parsed : Bytes → RawHeader → Stat → List CacheElem → List Cache → ℤ × List Cache → Type 0
Parsed path rh st [] cs r = r ≡ (pos 0, cs)
Parsed path rh st (e ∷ es) cs r =
    (r.0 ≡ pos 0)
    × ((d : Cache) × (r.1 ≡ cs ++ d ∷ [])
        × IsValid d
        × (d.elems ≡ e ∷ es)
        × (d.name ≡ path)
        × (d.flags ≡ rh.supportflags)
        × (d.st_size ≡ st.st_size))

abbrev fresh : Bytes → RawHeader → Cache
fresh path rh = record (new_cache path) { flags = rh.supportflags }

abbrev pub stamped : Stat → Cache → Cache
stamped st d = record d { st_size = st.st_size; st_mtim = st.st_mtim }

pub update_stat_ok :
    (f : RawFile) (st : Stat) (d : Cache)
    → f.fstat ≡ ok st
    → update_stat f d ≡ (pos 0, stamped st d)
unfolding update_stat
update_stat_ok f st d h = rw (h, update_stat)

filled :
    (path : Bytes) (rh : RawHeader) (st : Stat) (cs : List Cache) (d : Cache) (es : List CacheElem)
    → cached path cs ≡ none
    → IsIndexed (fresh path rh) es d
    → Parsed path rh st es cs (
      pos 0,
      if nr_elems (stamped st d) == 0
          then cache_free path (cs ++ stamped st d ∷ [])
          else cs ++ stamped st d ∷ [],
    )
filled path rh st cs d [] absent i =
    let none_left : (nr_elems d == 0) ≡ true = ground (arith, ap length i.holds) in
    rw (none_left, cache_free-append path cs (stamped st d) absent i.name)
filled path rh st cs d (e ∷ es) absent i =
    let some_left : (nr_elems d == 0) ≡ false = ground (arith, ap length i.holds) in
    rw some_left (refl, (stamped st d, refl, stamped_valid, i.holds, i.name, i.flags, refl))
  where
    stamped_valid : IsValid (stamped st d)
    stamped_valid = record {
      room = i.valid.room;
      spare = i.valid.spare;
      ascending = i.valid.ascending;
    }

module _ (a : Atop) (q : Qsort) (fs : FileSystem) (path : Bytes) (f : RawFile) (rh : RawHeader)
    (off : ℕ) (st : Stat) {es : List CacheElem} (cs : List Cache)
    (no_index : cache_find path cs ≡ none) (opened : fs.open_file path ≡ ok f)
    (is_file : IsFile a f) (read_header : f.header ≡ full_read rh) (accepted : IsAtopHeader a rh)
    (told : f.tell ≡ ok off) (stated : f.fstat ≡ ok st) (records : Records a f off es)
    (ascending : Ordered elem_time es) (room : HasRoom (length es)) where
  fresh-IsValid : IsValid (fresh path rh)
  fresh-IsValid = omega arith

  enough : length es < suc f.len
  enough = omega (arith, Records-length a f is_file records)

  -- When a file without an index is opened, its header is read and accepted, `lseek` and `fstat`
  -- succeed, no read of a record fails, the times of its records ascend and they leave room below
  -- the largest int, `rawlog_parse_one` returns 0 and appends one valid index that holds exactly its
  -- records, in the order of the file, or leaves the table as it was when there are none.
  pub rawlog_parse_one-Parsed : Returns (rawlog_parse_one a q fs path cs) (Parsed path rh st es cs)
  unfolding rawlog_parse_one parse_new fill_cache
  rawlog_parse_one-Parsed =
      rw
        (
          no_index,
          rawlog_parse_one,
          opened,
          parse_new,
          read_header,
          (rawlog_verify_rawheader_iff a rh).0.1 accepted,
          cache_alloc_lem path cs no_index,
          get_elem?-length,
          told,
        )
        (rw (set-length, fill_cache, get_elem?-length)
          (Returns-bind (IsIndexed (fresh path rh) es) _
            (read_records a q f (suc f.len) none (fresh path rh) off) _
            (read_records-IsIndexed a q f (suc f.len) none (fresh path rh) records enough
              fresh-IsValid (omega (arith, room)) ascending)
            (λ d i.
              rw (stated, update_stat_ok f st d stated, set-length, set-length)
                (filled path rh st cs d es (cached-cache_find path cs no_index) i))))
