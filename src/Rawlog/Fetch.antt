-- ===== src/Rawlog/Fetch.antt =====
-- The second half of rawlog.c: `rawlog_get_record` and what it calls.
pub mod Tasks
pub mod Ends
pub mod Kept
use Prim.Native.Nat.{bit_or}
use atophttpd.Prelude.{
  ℕ, zero, suc, ◌+◌, ◌*◌, ◌%◌, ◌^◌, Bool, true, false, ◌&&◌, List, [], ◌∷◌, ◌++◌, Option, none,
  some, ℤ, pos, ltb_ℤ, Bytes, ltb, leb, if◌then◌else◌, length, last?, Run, done, crash, ◌>>=◌, ◌>>◌,
  assert, cell,
}
use atophttpd.Cache.{Cache, cache_get, cache_get_recent}
use atophttpd.Atop.{
  Atop, RawRecord, RawFile, FileSystem, Sys, full_read, short_read, failed_read, ok, failed, minus,
  enomem, eio, enodata, has_flag, or_if,
}

-- What is taken from atop and zlib: the array of tasks that a buffer holds, and `uncompress` into
-- a buffer of some size.
pub record Format : Type 1 where
  pub Tstat : Type 0
  pub isproc : Tstat → Bool
  pub wasinactive : Tstat → Bool
  pub tasks : ℕ → Bytes → List Tstat
  pub uncompress : ℕ → Bytes → Option Bytes

-- Which calls of `malloc` give memory.
pub record Mallocs : Type 0 where
  pub for_sstat : Bool
  pub for_sstat_input : Bool
  pub for_taskall : Bool
  pub for_procall : Bool
  pub for_procactive : Bool
  pub for_task_input : Bool

-- struct devtstat: a pointer to a task is its position in `taskall`.
pub record Devtstat (fmt : Format) : Type 0 where
  pub taskall : List fmt.Tstat
  pub procall : List ℕ
  pub procactive : List ℕ
  pub ntaskactive : ℕ
  pub totrun : ℕ
  pub totslpi : ℕ
  pub totslpu : ℕ
  pub totzombie : ℕ

-- The negative result is the `errno` of `failed`; the bytes come from a position of the file.
unfoldable pub rawlog_uncompress_record : Format → Bool → RawFile → ℕ → ℕ → ℕ → Sys Bytes
rawlog_uncompress_record fmt malloced f position outlen inlen = elim malloced [
  | false ↦ failed enomem
  | true ↦ elim (f.bytes_at position inlen) [
    | none ↦ failed eio
    | some inbuf ↦ elim (fmt.uncompress outlen inbuf) [
      | none ↦ failed enodata
      | some data_ ↦ ok data_
    ]
  ]
]

unfoldable pub rawlog_record_flags : Atop → ℕ → ℕ → ℕ
rawlog_record_flags a hflags rflags =
    let ng = has_flag hflags a.rawlogng in
    let ret1 = or_if (ng && has_flag rflags a.rracctactive) 0 a.acctactive in
    let ret2 = or_if (ng && has_flag rflags a.rriostat) ret1 a.iostat in
    let ret3 = or_if (has_flag rflags a.rrnetatop) ret2 a.netatop in
    let ret4 = or_if (has_flag rflags a.rrnetatopd) ret3 a.netatopd in
    let ret5 = or_if (has_flag rflags a.rrcgrstat) ret4 a.cgroupv2 in
    let ret6 = or_if (has_flag rflags a.rrdockstat) ret5 a.dockstat in
    or_if (has_flag rflags a.rrgpustat) ret6 a.gpustat

-- `procall`, `procactive` and `ntaskactive`
abbrev pub Lists : Type 0
Lists = List ℕ × List ℕ × ℕ

module _ (fmt : Format) (totproc nactproc : ℕ) where
  -- The body of the loop for the task at a position; the arrays have room for `totproc` and
  -- `nactproc` pointers.
  unfoldable pub add_task : ℕ → fmt.Tstat → Lists → Run Lists
  add_task i tstat (procall, procactive, active) = elim (fmt.isproc tstat) [
    | false ↦ done (procall, procactive, if fmt.wasinactive tstat then active else suc active)
    | true ↦ do
      assert (ltb (length procall) totproc)
      elim (fmt.wasinactive tstat) [
        | true ↦ done (procall ++ i ∷ [], procactive, active)
        | false ↦ do
          assert (ltb (length procactive) nactproc)
          done (procall ++ i ∷ [], procactive ++ i ∷ [], suc active)
      ]
  ]

  unfoldable pub build_devtstat : ℕ → List fmt.Tstat → Lists → Run Lists
  build_devtstat i [] lists = done lists
  build_devtstat i (tstat ∷ rest) lists = do
    lists' ← add_task i tstat lists
    build_devtstat (suc i) rest lists'

module _ (a : Atop) (fmt : Format) (m : Mallocs) where
  -- The step behind the allocations and the uncompression.
  unfoldable pub fill_devtstat : RawRecord → List fmt.Tstat → Run (Devtstat fmt)
  fill_devtstat rr taskall = do
    (procall, procactive, active) ← build_devtstat fmt rr.totproc rr.nactproc 0 taskall ([], [], 0)
    done record {
      taskall = taskall;
      procall = procall;
      procactive = procactive;
      ntaskactive = active;
      totrun = rr.totrun;
      totslpi = rr.totslpi;
      totslpu = rr.totslpu;
      totzombie = rr.totzomb;
    }

  unfoldable pub rawlog_get_devtstat : RawFile → ℕ → RawRecord → Run (Sys (Devtstat fmt))
  rawlog_get_devtstat f position rr =
      if m.for_taskall && m.for_procall && m.for_procactive
      then (elim (rawlog_uncompress_record fmt m.for_task_input f position
          (a.sizeof_tstat * rr.ndeviat) rr.pcomplen) [
            | failed e ↦ done (failed e)
            | ok data_ ↦ do
              devtstat ← fill_devtstat rr (fmt.tasks rr.ndeviat data_)
              done (ok devtstat)
          ])
      else done (failed enomem)

  unfoldable pub rawlog_get_sstat : RawFile → ℕ → ℕ → Sys Bytes
  rawlog_get_sstat f position len =
      rawlog_uncompress_record fmt m.for_sstat_input f position a.sizeof_sstat len

  -- An `off_t` whose low 32 bits are a negative `int`.
  unfoldable pub is_negative_int : ℕ → Bool
  is_negative_int off = leb (2 ^ 31) (off % 2 ^ 32)

  module _ {W : Type 0} (fs : FileSystem) (lseek : RawFile → ℕ → Sys ℕ) (stale_errno : ℕ)
      (jsonout : ℕ → Bytes → RawRecord → Devtstat fmt → Bytes → W → Run W) where
    -- The record is read, and shown.
    unfoldable pub show_at : Cache → ℕ → RawFile → Bytes → W → Run (ℤ × W)
    show_at cache off f labels w = elim (f.record_at off) [
      | short_read ↦ done (minus eio, w)
      | failed_read ↦ done (minus eio, w)
      | full_read rr ↦ elim (rawlog_get_sstat f (off + a.sizeof_rawrecord) rr.scomplen) [
        | failed e ↦ done (minus e, w)
        | ok sstat ↦ rawlog_get_devtstat f (off + a.sizeof_rawrecord + rr.scomplen) rr >>= λ got.
            elim got [
              | failed e ↦ done (minus e, w)
              | ok devtstat ↦ do
                w' ← jsonout (rawlog_record_flags a cache.flags rr.flags) labels rr devtstat sstat w
                done (pos 0, w')
            ]
      ]
    ]

    -- What follows the label `found`. The offset that `lseek` answers is kept in an `int`, and a
    -- negative one is taken for a failure, with whatever `errno` is left.
    unfoldable pub fetch : Cache → ℕ → Bytes → W → Run (ℤ × W)
    fetch cache off labels w = elim (fs.open_file cache.name) [
      | failed e ↦ done (minus e, w)
      | ok f ↦ elim (lseek f off) [
        | failed e ↦ done (minus e, w)
        | ok moved ↦ elim (is_negative_int moved) [
          | true ↦ done (minus stale_errno, w)
          | false ↦ show_at cache moved f labels w
        ]
      ]
    ]

    -- No cache covers the time: a time after all records gets the last record of the last file.
    unfoldable pub get_recent_record : ℤ → Bytes → List Cache → W → Run (ℤ × W)
    get_recent_record ts labels cs w = elim (cache_get_recent cs) [
      | none ↦ done (minus eio, w)
      | some cache ↦ do
        recent ← cell (last? cache.elems)
        if ltb_ℤ ts recent.time then done (minus eio, w) else fetch cache recent.off labels w
    ]

    unfoldable pub rawlog_get_record : ℤ → Bytes → List Cache → W → Run (ℤ × W)
    rawlog_get_record ts labels cs w = elim m.for_sstat [
      | false ↦ done (minus enomem, w)
      | true ↦ cache_get ts cs >>= λ found. elim found [
        | some (cache, off) ↦ fetch cache off labels w
        | none ↦ get_recent_record ts labels cs w
      ]
    ]
