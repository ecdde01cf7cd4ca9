-- ===== src/Rawlog/Fetch/Ends.antt =====
-- How `rawlog_get_record` ends: with a cause of failure, or with a record of a file that is shown.
use atophttpd.Prelude.{
  ℕ, ◌+◌, ◌*◌, ◌≤◌, ◌≡◌, ◌%◌, ◌^◌, leb→le, subst, inl, inr, refl, true, Bool, ◌&&◌, List, ℤ, pos,
  ltb_ℤ, Bytes, length, last?, Run, done, ◌>>=◌, Returns, Returns-bind, Returns-bind_eq, Returns-if,
  All, All-last, Bool-cases, Option-cases,
}
use atophttpd.Cache.{Cache, cache_get, cache_get_recent}
use atophttpd.Cache.Get.{IsServed, cache_get-Answered, last?_of_some}
use atophttpd.Atop.{
  Atop, RawRecord, RawFile, FileSystem, Sys, Sys-cases, ok, failed, minus, eio, enomem, enodata,
  full_read, Reading-cases,
}
use atophttpd.Rawlog.Fetch.{
  Format, Mallocs, Devtstat, fill_devtstat, rawlog_record_flags, rawlog_uncompress_record,
  rawlog_get_sstat, rawlog_get_devtstat, is_negative_int, show_at, fetch, get_recent_record,
  rawlog_get_record,
}
use atophttpd.Rawlog.Fetch.Tasks.{positions, is_active_proc, build_devtstat-positions}

-- No record of a file understates its processes.
abbrev pub CountsFit : Format → RawFile → Type 0
CountsFit fmt f =
    (off : ℕ) (rr : RawRecord) (data_ : Bytes)
    → f.record_at off ≡ full_read rr
    → (length (positions fmt.isproc 0 (fmt.tasks rr.ndeviat data_)) ≤ rr.totproc)
      × (length (positions (is_active_proc fmt) 0 (fmt.tasks rr.ndeviat data_)) ≤ rr.nactproc)

-- A record of a file, with what is uncompressed behind it.
pub record Stored (a : Atop) (fmt : Format) (m : Mallocs) (fs : FileSystem) (rr : RawRecord)
    (d : Devtstat fmt) (sstat : Bytes) : Type 0 where
  pub name : Bytes
  pub f : RawFile
  pub off : ℕ
  pub opened : fs.open_file name ≡ ok f
  pub at : f.record_at off ≡ full_read rr
  pub has_sstat : rawlog_get_sstat a fmt m f (off + a.sizeof_rawrecord) rr.scomplen ≡ ok sstat
  pub has_devtstat :
      rawlog_get_devtstat a fmt m f (off + a.sizeof_rawrecord + rr.scomplen) rr ≡ done (ok d)

module _ (fs : FileSystem) (lseek : RawFile → ℕ → Sys ℕ) (stale_errno : ℕ) where
  -- Why a request fails with an `errno`: there is no memory, nothing to read or nothing that
  -- `uncompress` takes; the file cannot be opened, `lseek` fails, or bit 31 of its answer is set, and
  -- `errno` is an old one.
  pub data Cause : ℕ → Type 0 where
    no_memory : Cause enomem
    no_input : Cause eio
    no_data : Cause enodata
    not_opened : (name : Bytes) (e : ℕ) → fs.open_file name ≡ failed e → Cause e
    not_moved : (f : RawFile) (off e : ℕ) → lseek f off ≡ failed e → Cause e
    wrapped :
        (f : RawFile) (off moved : ℕ)
        → lseek f off ≡ ok moved
        → 2 ^ 31 ≤ moved % 2 ^ 32
        → Cause stale_errno

failed-injective : {A : Type 0} (got : Sys A) (n e : ℕ) → got ≡ failed n → got ≡ failed e → n ≡ e
failed-injective got n e h k = cc (h, k)

module _ (a : Atop) (fmt : Format) (m : Mallocs) {W : Type 0} (fs : FileSystem)
    (lseek : RawFile → ℕ → Sys ℕ) (stale_errno : ℕ)
    (jsonout : ℕ → Bytes → RawRecord → Devtstat fmt → Bytes → W → Run W) (Ends : ℤ × W → Type 0)
    (w : W) (fails : (e : ℕ) → Cause fs lseek stale_errno e → Ends (minus e, w)) (labels : Bytes)
    (shows : (flags : ℕ) (rr : RawRecord) (d : Devtstat fmt) (sstat : Bytes)
      → Stored a fmt m fs rr d sstat
      → Returns (jsonout flags labels rr d sstat w) (λ w'. Ends (pos 0, w')))
    (counts : (name : Bytes) (f : RawFile) → fs.open_file name ≡ ok f → CountsFit fmt f) where
  abbrev Caused : {A : Type 0} → Sys A → Type 0
  Caused got = (e : ℕ) → got ≡ failed e → Cause fs lseek stale_errno e

  failed-Cause :
      {A : Type 0} (got : Sys A) (n : ℕ)
      → got ≡ failed n
      → Cause fs lseek stale_errno n
      → Caused got
  failed-Cause got n h c e k = subst (Cause fs lseek stale_errno) (failed-injective got n e h k) c

  rawlog_uncompress_record-Caused :
      (malloced : Bool) (f : RawFile) (position outlen inlen : ℕ)
      → Caused (rawlog_uncompress_record fmt malloced f position outlen inlen)
  unfolding rawlog_uncompress_record
  rawlog_uncompress_record-Caused malloced f position outlen inlen = elim (Bool-cases malloced) [
    | inr n ↦ rw (n, rawlog_uncompress_record) (failed-Cause _ enomem refl no_memory)
    | inl y ↦ elim (Option-cases (f.bytes_at position inlen)) [
      | inl n ↦ rw (y, n, rawlog_uncompress_record) (failed-Cause _ eio refl no_input)
      | inr (inbuf, k) ↦ elim (Option-cases (fmt.uncompress outlen inbuf)) [
        | inl n ↦ rw (y, k, n, rawlog_uncompress_record) (failed-Cause _ enodata refl no_data)
        | inr (data_, u) ↦ rw (y, k, u, rawlog_uncompress_record) (λ e h. absurd (cc h))
      ]
    ]
  ]

  rawlog_get_sstat-Caused :
      (f : RawFile) (position len : ℕ) → Caused (rawlog_get_sstat a fmt m f position len)
  unfolding rawlog_get_sstat
  rawlog_get_sstat-Caused f position len =
      rawlog_uncompress_record-Caused m.for_sstat_input f position a.sizeof_sstat len

  wrapped_bit : (moved : ℕ) → is_negative_int a fmt m moved ≡ true → 2 ^ 31 ≤ moved % 2 ^ 32
  unfolding is_negative_int
  wrapped_bit moved h = leb→le _ _ h

  fill_devtstat-Returns :
      (rr : RawRecord) (ts : List fmt.Tstat)
      → length (positions fmt.isproc 0 ts) ≤ rr.totproc
      → length (positions (is_active_proc fmt) 0 ts) ≤ rr.nactproc
      → Returns (fill_devtstat a fmt m rr ts) (λ _. Unit)
  unfolding fill_devtstat
  fill_devtstat-Returns rr ts h h' =
      rw (build_devtstat-positions fmt rr.totproc rr.nactproc ts h h') tt

  module _ (name : Bytes) (f : RawFile) (opened : fs.open_file name ≡ ok f) where
    uncompressed :
        (position off : ℕ) (rr : RawRecord)
        → f.record_at off ≡ full_read rr
        → Returns
            (elim (rawlog_uncompress_record fmt m.for_task_input f position
              (a.sizeof_tstat * rr.ndeviat)
              rr.pcomplen) [
                | failed e ↦ done (failed e)
                | ok data_ ↦ fill_devtstat a fmt m rr (fmt.tasks rr.ndeviat data_) >>= λ devtstat.
                    done (ok devtstat)
              ])
            Caused
    uncompressed position off rr e =
        elim (Sys-cases (
          rawlog_uncompress_record fmt m.for_task_input f position (a.sizeof_tstat * rr.ndeviat)
            rr.pcomplen)) [
              | inl (n, k) ↦ rw (k) (
                  failed-Cause _ n refl (
                    rawlog_uncompress_record-Caused m.for_task_input f position
                      (a.sizeof_tstat * rr.ndeviat) rr.pcomplen n k))
              | inr (data_, k) ↦
                  let c = counts name f opened off rr data_ e in
                  rw (k) (
                    Returns-bind _ _ (fill_devtstat a fmt m rr (fmt.tasks rr.ndeviat data_)) _
                      (fill_devtstat-Returns rr (fmt.tasks rr.ndeviat data_) c.0 c.1)
                      (λ d _ e h. absurd (cc h)))
            ]

    rawlog_get_devtstat-Returns :
        (position off : ℕ) (rr : RawRecord)
        → f.record_at off ≡ full_read rr
        → Returns (rawlog_get_devtstat a fmt m f position rr) Caused
    unfolding rawlog_get_devtstat
    rawlog_get_devtstat-Returns position off rr e =
        Returns-if _ (m.for_taskall && m.for_procall && m.for_procactive) _ _
          (uncompressed position off rr e) (failed-Cause _ enomem refl no_memory)

    show_at-Ends :
        (cache : Cache) (off : ℕ)
        → Returns (show_at a fmt m fs lseek stale_errno jsonout cache off f labels w) Ends
    unfolding show_at
    show_at-Ends cache off = elim (Reading-cases (f.record_at off)) [
      | inr (inl n) ↦ rw (n, show_at) (fails eio no_input)
      | inr (inr n) ↦ rw (n, show_at) (fails eio no_input)
      | inl (rr, e) ↦
          rw (e, show_at)
            (elim (Sys-cases (rawlog_get_sstat a fmt m f (off + a.sizeof_rawrecord) rr.scomplen)) [
              | inl (n, k) ↦
                  rw (k)
                    (fails n (rawlog_get_sstat-Caused f (off + a.sizeof_rawrecord) rr.scomplen n k))
              | inr (sstat, k) ↦ rw (k) (
                  Returns-bind_eq _ _
                    (rawlog_get_devtstat a fmt m f (off + a.sizeof_rawrecord + rr.scomplen) rr) _
                    (rawlog_get_devtstat-Returns (off + a.sizeof_rawrecord + rr.scomplen) off rr e)
                    (λ got e' caused. elim (Sys-cases got) [
                      | inl (n, g) ↦ rw (g) (fails n (caused n g))
                      | inr (d, g) ↦ rw (g) (
                          Returns-bind _ _
                            (jsonout (rawlog_record_flags a cache.flags rr.flags) labels rr d sstat
                              w)
                            _
                            (shows (rawlog_record_flags a cache.flags rr.flags) rr d sstat record {
                              name = name;
                              f = f;
                              off = off;
                              opened = opened;
                              at = e;
                              has_sstat = k;
                              has_devtstat = rw (g) at e';
                            })
                            (λ w' h. h))
                    ]))
            ])
    ]

  fetch-Ends :
      (cache : Cache) (off : ℕ)
      → Returns (fetch a fmt m fs lseek stale_errno jsonout cache off labels w) Ends
  unfolding fetch
  fetch-Ends cache off = elim (Sys-cases (fs.open_file cache.name)) [
    | inl (n, k) ↦ rw (k, fetch) (fails n (not_opened cache.name n k))
    | inr (f, opened) ↦ elim (Sys-cases (lseek f off)) [
      | inl (n, k) ↦ rw (opened, k, fetch) (fails n (not_moved f off n k))
      | inr (moved, k) ↦ elim (Bool-cases (is_negative_int a fmt m moved)) [
        | inl y ↦
            rw (opened, k, y, fetch)
              (fails stale_errno (wrapped f off moved k (wrapped_bit moved y)))
        | inr y ↦ rw (opened, k, y, fetch) (show_at-Ends cache.name f opened cache moved)
      ]
    ]
  ]

  get_recent_record-Ends :
      (ts : ℤ) (cs : List Cache)
      → All IsServed cs
      → Returns (get_recent_record a fmt m fs lseek stale_errno jsonout ts labels cs w) Ends
  unfolding get_recent_record cache_get_recent
  get_recent_record-Ends ts cs h = elim (Option-cases (last? cs)) [
    | inl n ↦ rw (n, get_recent_record) (fails eio no_input)
    | inr (c, e) ↦
        let served = All-last IsServed cs h e in
        let (recent, l) = last?_of_some c.elems served.some_elem in
        rw (e, get_recent_record, l)
          (Returns-if _ (ltb_ℤ ts recent.time) _ _ (fails eio no_input) (fetch-Ends c recent.off))
  ]

  -- A request ends in one of the ways that have been given.
  pub rawlog_get_record-Ends :
      (ts : ℤ) (cs : List Cache)
      → All IsServed cs
      → Returns (rawlog_get_record a fmt m fs lseek stale_errno jsonout ts labels cs w) Ends
  unfolding rawlog_get_record
  rawlog_get_record-Ends ts cs h = elim (Bool-cases m.for_sstat) [
    | inr n ↦ rw (n, rawlog_get_record) (fails enomem no_memory)
    | inl y ↦
        rw (y, rawlog_get_record)
          (Returns-bind _ _ (cache_get ts cs) _ (cache_get-Answered ts cs h) (λ found _.
            elim (Option-cases found) [
              | inl n ↦ rw (n) (get_recent_record-Ends ts cs h)
              | inr (c, e) ↦ rw (e) (fetch-Ends c.0 c.1)
            ]))
  ]
