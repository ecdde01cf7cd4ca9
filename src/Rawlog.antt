-- ===== src/Rawlog.antt =====
-- rawlog.c: the indices of the rawlog files of a folder.
pub mod Records
pub mod Rebuild
pub mod Parse
pub mod Followed
pub mod Fetch
use Prim.Native.Nat.{bit_and}
use atophttpd.Prelude.{
  ℕ, zero, suc, ◌+◌, Bool, true, false, not, ◌&&◌, ◌||◌, List, [], ◌∷◌, ◌++◌, Option, none, some, ℤ,
  pos, eqb_ℤ, Bytes, codes, ltb, ◌==◌, if◌then◌else◌, length, get_elem?, set, last?, Run, done,
  crash, ◌>>=◌, ◌>>◌, assert, cell,
}
use atophttpd.Qsort.{Qsort}
use atophttpd.Cache.{Cache, nr_elems, cache_find, cache_alloc, cache_free, cache_set, cache_sort}
use atophttpd.Atop.{
  Atop, RawHeader, RawRecord, RawFile, FileSystem, Stat, Sys, full_read, short_read, failed_read,
  ok, failed, minus, einval, has_flag,
}

-- `fstat`, and the size and time that the index keeps.
unfoldable pub update_stat : RawFile → Cache → ℤ × Cache
update_stat f cache = elim f.fstat [
  | failed e ↦ (minus e, cache)
  | ok st ↦ (pos 0, record cache { st_size = st.st_size; st_mtim = st.st_mtim })
]

-- PATH_MAX of Linux
abbrev pub path_max : ℕ
path_max = 4096

module _ (a : Atop) where
  unfoldable pub rawlog_verify_rawheader : RawHeader → ℤ
  rawlog_verify_rawheader rh =
      if not (rh.magic == a.mymagic)
      then minus einval
      else if not (rh.rawheadlen == a.sizeof_rawheader)
          || not (rh.rawreclen == a.sizeof_rawrecord)
          || not (rh.sstatlen == a.sizeof_sstat)
          || not (rh.tstatlen == a.sizeof_tstat)
      then minus einval
      else if has_flag rh.aversion 0x8000 && not (bit_and rh.aversion 0x7fff == a.numvers)
      then minus einval
      else pos 0

  abbrev pub next_off : ℕ → RawRecord → ℕ
  next_off off rr = off + a.sizeof_rawrecord + rr.scomplen + rr.pcomplen

  module _ (q : Qsort) where
    -- The loop over the records from an offset on, with fuel: running out is a crash. The test
    -- `len < sizeof(rr)` is one of unsigned numbers, so a read that fails counts as a full one: `rr`
    -- is then what the read before it has left, or, with none before it, nothing that was set.
    unfoldable pub read_records : RawFile → ℕ → Option RawRecord → Cache → ℕ → Run Cache
    read_records f zero left cache off = crash
    read_records f (suc fuel) left cache off = elim (f.record_at off) [
      | short_read ↦ done cache
      | full_read rr ↦ do
        cache' ← cache_set q cache rr.curtime off
        read_records f fuel (some rr) cache' (next_off off rr)
      | failed_read ↦ elim left [
        | none ↦ crash
        | some rr ↦ do
          cache' ← cache_set q cache rr.curtime off
          read_records f fuel (some rr) cache' (next_off off rr)
      ]
    ]

    -- The part of `rawlog_rebuild_one` after `open`.
    unfoldable pub rebuild_from : RawFile → Cache → Run (ℤ × Cache)
    rebuild_from f cache = do
      elem ← cell (last? cache.elems)
      elim (f.record_at elem.off) [
        | short_read ↦ done (pos 0, cache)
        | failed_read ↦ crash
        | full_read rr ↦ do
          cache' ← read_records f (suc f.len) (some rr) cache (next_off elem.off rr)
          done (update_stat f cache')
      ]

    module _ (fs : FileSystem) where
      unfoldable pub rawlog_rebuild_one : Cache → Run (ℤ × Cache)
      rawlog_rebuild_one cache = elim (fs.open_file cache.name) [
        | failed e ↦ done (minus e, cache)
        | ok f ↦ rebuild_from f cache
      ]

      -- The first branch of `rawlog_parse_one`: the path has an index already.
      unfoldable pub parse_cached : Bytes → ℕ → List Cache → Run (ℤ × List Cache)
      parse_cached path i cs = do
        cache ← cell (get_elem? cs i)
        elim (fs.stat path) [
          | failed e ↦ done (minus e, cs)
          | ok st ↦
              if cache.st_size == st.st_size
              then done (pos 0, cs)
              else do r ← rawlog_rebuild_one cache; done (r.0, set cs i r.1)
        ]

      -- Steps 3 and 4 for the new cache at position `i`.
      unfoldable pub fill_cache : Bytes → RawFile → ℕ → ℕ → List Cache → Run (ℤ × List Cache)
      fill_cache path f off i cs = do
        cache ← cell (get_elem? cs i)
        cache' ← read_records f (suc f.len) none cache off
        let (ret, cache'') = update_stat f cache'
        let cs' = set cs i cache''
        elim f.fstat [
          | failed e ↦ done (ret, cs')
          | ok st ↦ done (ret, if nr_elems cache'' == 0 then cache_free path cs' else cs')
        ]

      -- The rest of `rawlog_parse_one`: the file has no index yet. When the read of the header fails,
      -- its test of unsigned numbers takes it for a full one, and `rh` was never set.
      unfoldable pub parse_new : Bytes → RawFile → List Cache → Run (ℤ × List Cache)
      parse_new path f cs = elim f.header [
        | short_read ↦ done (minus einval, cs)
        | failed_read ↦ crash
        | full_read rh ↦ elim (eqb_ℤ (rawlog_verify_rawheader rh) (pos 0)) [
          | false ↦ done (rawlog_verify_rawheader rh, cs)
          | true ↦ do
            r ← cache_alloc path cs
            cache ← cell (get_elem? r.1 r.0)
            let cs' = set r.1 r.0 (record cache { flags = rh.supportflags })
            elim f.tell [ failed e ↦ done (minus e, cs') | ok off ↦ fill_cache path f off r.0 cs' ]
        ]
      ]

      unfoldable pub rawlog_parse_one : Bytes → List Cache → Run (ℤ × List Cache)
      rawlog_parse_one path cs = elim (cache_find path cs) [
        | some i ↦ parse_cached path i cs
        | none ↦ elim (fs.open_file path) [
          | failed e ↦ done (minus e, cs)
          | ok f ↦ parse_new path f cs
        ]
      ]

      -- The loop over the entries of the folder: a regular file's name, or another entry. The path
      -- and its terminating zero are written into `name`.
      unfoldable pub parse_entries : Bytes → List (Bool × Bytes) → List Cache → Run (List Cache)
      parse_entries path [] cs = done cs
      parse_entries path ((regular, d_name) ∷ rest) cs =
          let skip = parse_entries path rest cs in
          if regular
          then (do
            assert (ltb (length (path ++ codes "/" ++ d_name)) path_max)
            r ← rawlog_parse_one (path ++ codes "/" ++ d_name) cs
            parse_entries path rest r.1)
          else skip

      unfoldable pub rawlog_parse_all :
          (Bytes → Sys (List (Bool × Bytes))) → Bytes → List Cache → Run (ℤ × List Cache)
      rawlog_parse_all opendir path cs = elim (opendir path) [
        | failed e ↦ done (minus e, cs)
        | ok entries ↦ do cs' ← parse_entries path entries cs; done (pos 0, cache_sort q cs')
      ]
