-- ===== src/Examples/Files.antt =====
-- The theorems on rawlog files, on a file of three records and the file before the last of them.
use atophttpd.Prelude.{
  ℕ, ◌≡◌, ◌↔◌, ◌⊎◌, refl, [], ◌∷◌, some, none, pos, codes, arith, Returns, ◌==◌, if◌then◌else◌,
}
use atophttpd.Cache.{Cache, CacheElem, new_cache, cache_find}
use atophttpd.Atop.{
  Atop, RawHeader, RawRecord, RawFile, IsFile, FileSystem, Reading, full_read, short_read, ok,
  minus, einval,
}
use atophttpd.Rawlog.{rawlog_verify_rawheader, read_records, rebuild_from, rawlog_parse_one}
use atophttpd.Rawlog.Records.{Records, finish, step, IsIndexed, read_records-IsIndexed}
use atophttpd.Rawlog.Parse.{
  IsAtopHeader, rawlog_verify_rawheader_iff, Parsed, rawlog_parse_one-Parsed,
}
use atophttpd.Rawlog.Rebuild.{Rebuilt, rebuild_from-eq-parse}
use atophttpd.Examples.Sorter.{sorter}

abbrev pub atop : Atop
atop = record {
  mymagic = 0xfeedbeef;
  numvers = 0x208;
  sizeof_rawheader = 480;
  sizeof_rawrecord = 96;
  sizeof_sstat = 1000;
  sizeof_tstat = 800;
  rawlogng = 0x1;
  rracctactive = 0x20;
  rriostat = 0x40;
  rrnetatop = 0x10;
  rrnetatopd = 0x20;
  rrcgrstat = 0x80;
  rrdockstat = 0x100;
  rrgpustat = 0x200;
  acctactive = 0x1;
  iostat = 0x4;
  netatop = 0x10;
  netatopd = 0x20;
  cgroupv2 = 0x100;
  dockstat = 0x40;
  gpustat = 0x80;
  rawrecord_pos = omega arith;
}

abbrev pub header : RawHeader
header = record {
  magic = 0xfeedbeef;
  aversion = 0x8208;
  rawheadlen = 480;
  rawreclen = 96;
  supportflags = 0x1;
  sstatlen = 1000;
  tstatlen = 800;
}

-- A record with 4 bytes of each compressed part.
abbrev pub record_of : ℕ → RawRecord
record_of t = record {
  curtime = pos t;
  flags = 0x60;
  scomplen = 4;
  pcomplen = 4;
  interval = 10;
  ndeviat = 2;
  nactproc = 1;
  totproc = 2;
  totrun = 0;
  totslpi = 0;
  totslpu = 0;
  totzomb = 0;
  nexit = 0;
  noverflow = 0;
}

abbrev three : ℕ → Reading RawRecord
three off =
    if off == 480
    then full_read (record_of 100)
    else if off == 584
    then full_read (record_of 110)
    else if off == 688
    then full_read (record_of 120)
    else short_read

abbrev pub file : RawFile
file = record {
  len = 792;
  header = full_read header;
  tell = ok 480;
  record_at = three;
  bytes_at = λ off n. some [];
  fstat = ok (record { st_size = 792; st_mtim = 7 });
}

abbrev pub files : FileSystem
files = record {
  open_file = λ path. ok file;
  stat = λ path. ok (record { st_size = 792; st_mtim = 7 });
}

pub file-IsFile : IsFile atop file
file-IsFile = record { inside = λ off rr h. ground arith }

abbrev pub elem_at : ℕ → ℕ → CacheElem
elem_at t o = record { time = pos t; off = o }

pub file-Records : Records atop file 480 (elem_at 100 480 ∷ elem_at 110 584 ∷ elem_at 120 688 ∷ [])
file-Records =
    step 480 (record_of 100) _ refl
      (step 584 (record_of 110) _ refl (step 688 (record_of 120) _ refl (finish 792 refl)))

abbrev pub old_index : Cache
old_index = record (new_cache (codes "log")) { elems = elem_at 100 480 ∷ elem_at 110 584 ∷ [] }

header-IsAtopHeader : IsAtopHeader atop header
header-IsAtopHeader = record {
  magic = refl;
  rawheadlen = refl;
  rawreclen = refl;
  sstatlen = refl;
  tstatlen = refl;
  version = λ v. refl;
}

rawlog_verify_rawheader_iff_example :
    ((rawlog_verify_rawheader atop header ≡ pos 0) ↔ IsAtopHeader atop header)
    × ((rawlog_verify_rawheader atop header ≡ pos 0)
        ⊎ (rawlog_verify_rawheader atop header ≡ minus einval))
rawlog_verify_rawheader_iff_example = rawlog_verify_rawheader_iff atop header

read_records-IsIndexed_example :
    Returns (read_records atop sorter file 793 none (new_cache (codes "log")) 480) (
      IsIndexed
        (new_cache (codes "log"))
        (elem_at 100 480 ∷ elem_at 110 584 ∷ elem_at 120 688 ∷ []))
read_records-IsIndexed_example =
    read_records-IsIndexed atop sorter file 793 none (new_cache (codes "log")) file-Records
      (omega arith) (omega arith) (omega arith) (omega arith)

rawlog_parse_one-Parsed_example : Returns (rawlog_parse_one atop sorter files (codes "log") []) (
    Parsed
      (codes "log")
      header
      (record { st_size = 792; st_mtim = 7 })
      (elem_at 100 480 ∷ elem_at 110 584 ∷ elem_at 120 688 ∷ [])
      [])
unfolding cache_find
rawlog_parse_one-Parsed_example =
    rawlog_parse_one-Parsed atop sorter files (codes "log") file header 480
      (record { st_size = 792; st_mtim = 7 }) [] refl refl file-IsFile refl header-IsAtopHeader refl
      refl file-Records (omega arith) (omega arith)

rebuild_from-eq-parse_example : Returns (rebuild_from atop sorter file old_index) (λ r.
    Rebuilt (record { st_size = 792; st_mtim = 7 }) old_index (elem_at 120 688 ∷ []) r
    × Returns
        (read_records atop sorter file 793 none (new_cache (codes "log")) 480)
        (λ d. r.1.elems ≡ d.elems))
rebuild_from-eq-parse_example =
    rebuild_from-eq-parse atop sorter file file-IsFile (record { st_size = 792; st_mtim = 7 }) refl
      old_index (omega arith) 480 (elem_at 120 688 ∷ []) (omega arith) file-Records (omega arith)
      (omega arith)
