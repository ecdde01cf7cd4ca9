-- ===== src/Rawlog/Followed.antt =====
-- The table of indices beside the files that it was read from: `rawlog_parse_one`,
-- `rawlog_parse_all`.
pub mod Folder
use mathlib.Core.Option.{some-injective}
use atophttpd.Prelude.{
  ℕ, zero, suc, ◌+◌, ◌≤◌, ◌<◌, ◌≡◌, ap, subst, inl, inr, Bool, List, [], ◌∷◌, ◌++◌, append-nil,
  none, some, ℤ, pos, eqb_ℤ, Bytes, codes, arith, length, length-append, get_elem?_total, set, All,
  All-append, All-get, All-map, Bool-cases, Option-cases, int_limit, Returns, Returns-bind,
  Returns-map, Returns-if, ◌==◌, str_eq,
}
use atophttpd.Qsort.{Qsort}
use atophttpd.Qsort.Order.{Ordered, All-perm}
use atophttpd.Cache.{Cache, CacheElem, nr_elems, cache_find, cache_cmp, cache_sort}
use atophttpd.Cache.Get.{IsServed}
use atophttpd.Cache.Valid.{IsValid, elem_time}
use atophttpd.Atop.{
  Atop, RawHeader, RawFile, IsFile, FileSystem, Stat, Sys, Sys-cases, ok, failed_read,
}
use atophttpd.Rawlog.{
  rawlog_verify_rawheader, rebuild_from, rawlog_rebuild_one, parse_cached, parse_new,
  rawlog_parse_one, parse_entries, rawlog_parse_all, path_max,
}
use atophttpd.Rawlog.Records.{Records, Records-exist}
use atophttpd.Rawlog.Rebuild.{Rebuilt, rebuild_from-Rebuilt}
use atophttpd.Rawlog.Parse.{Parsed, rawlog_verify_rawheader_iff, rawlog_parse_one-Parsed}

-- A log: no call on it fails, no read among them, and it holds at most 2^30 records, in the order
-- of their times.
pub record IsLog (a : Atop) (f : RawFile) : Type 0 where
  pub is_file : IsFile a f
  pub header_reads : ¬ (f.header ≡ failed_read)
  pub reads : (off : ℕ) → ¬ (f.record_at off ≡ failed_read)
  pub start : ℕ
  pub told : f.tell ≡ ok start
  pub st : Stat
  pub stated : f.fstat ≡ ok st
  pub ascending : (es : List CacheElem) → Records a f start es → Ordered elem_time es
  pub few : (es : List CacheElem) → Records a f start es → length es + length es ≤ int_limit

-- The names that a folder answers fit into `name` behind its path, with their terminating zeros.
abbrev pub NamesFit : (Bytes → Sys (List (Bool × Bytes))) → Bytes → Type 0
NamesFit opendir path =
    (entries : List (Bool × Bytes))
    → opendir path ≡ ok entries
    → All (λ entry. length (path ++ codes "/" ++ entry.1) < path_max) entries

-- Every file that can be opened is a log.
abbrev pub AreLogs : Atop → FileSystem → Type 0
AreLogs a fs = (name : Bytes) (f : RawFile) → fs.open_file name ≡ ok f → IsLog a f

-- The file holds the records at its start, and more behind them.
pub record Extends (a : Atop) (f : RawFile) (es : List CacheElem) : Type 0 where
  pub start : ℕ
  pub told : f.tell ≡ ok start
  pub more : List CacheElem
  pub records : Records a f start (es ++ more)

-- An index that holds the first records of its file, at least one, in order.
pub record Follows (a : Atop) (fs : FileSystem) (c : Cache) : Type 0 where
  pub f : RawFile
  pub opened : fs.open_file c.name ≡ ok f
  pub file : Extends a f c.elems
  pub valid : IsValid c
  pub some_elem : 0 < nr_elems c

-- Files stay, and only grow at their ends.
abbrev pub Grows : Atop → FileSystem → FileSystem → Type 0
Grows a fs fs' =
    (name : Bytes) (f : RawFile)
    → fs.open_file name ≡ ok f
    → (f' : RawFile) × (fs'.open_file name ≡ ok f')
      × ((es : List CacheElem) → Extends a f es → Extends a f' es)

pub Grows-Follows :
    (a : Atop) (fs fs' : FileSystem)
    → Grows a fs fs'
    → (c : Cache) → Follows a fs c
    → Follows a fs' c
Grows-Follows a fs fs' g c h =
    let (f', opened, longer) = g c.name h.f h.opened in
    record {
      f = f';
      opened = opened;
      file = longer c.elems h.file;
      valid = h.valid;
      some_elem = h.some_elem;
    }

-- One start, whoever asks.
start_unique : (f : RawFile) {i j : ℕ} → f.tell ≡ ok i → f.tell ≡ ok j → i ≡ j
start_unique f h k = cc (h, k)

module _ (a : Atop) (fs : FileSystem) (logs : AreLogs a fs) where
  module _ (c : Cache) (h : Follows a fs c) where
    abbrev log : IsLog a h.f
    log = logs c.name h.f h.opened

    all_records : Records a h.f log.start (c.elems ++ h.file.more)
    all_records =
        subst (λ s. Records a h.f s (c.elems ++ h.file.more))
          (start_unique h.f h.file.told log.told) h.file.records

    pub Follows-IsServed : IsServed c
    Follows-IsServed = record {
      valid = h.valid;
      some_elem = h.some_elem;
      small = omega (arith, log.few _ all_records, length-append c.elems h.file.more);
    }

    module _ (q : Qsort) where
      pub rawlog_rebuild_one-Follows : Returns (rawlog_rebuild_one a q fs c) (λ r. Follows a fs r.1)
      unfolding rawlog_rebuild_one
      rawlog_rebuild_one-Follows =
          rw (h.opened, rawlog_rebuild_one)
            (Returns-map (Rebuilt log.st c h.file.more) _ (rebuild_from a q h.f c)
              (λ r (ret, valid, elems, name, flags, size). record {
                f = h.f;
                opened = rw (name) h.opened;
                file = record {
                  start = log.start;
                  told = log.told;
                  more = [];
                  records = rw (append-nil, elems) all_records;
                };
                valid = valid;
                some_elem =
                    omega (arith, ap length elems, length-append c.elems h.file.more, h.some_elem);
              })
              (rebuild_from-Rebuilt a q h.f log.is_file log.st log.stated c h.valid log.start
                h.file.more h.some_elem all_records (log.ascending _ all_records)
                (omega (arith, log.few _ all_records, length-append c.elems h.file.more))))
