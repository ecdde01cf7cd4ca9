-- ===== src/Rawlog/Fetch/Kept.antt =====
-- `rawlog_get_record`: what an answer below 0 and an answer 0 mean.
use atophttpd.Prelude.{
  ℕ, zero, suc, ◌≡◌, ◌⊎◌, inl, inr, refl, true, List, ℤ, pos, ltb_ℤ, Bytes, if◌then◌else◌, Run,
  done, crash, Returns, Returns-map, All, arith,
}
use atophttpd.Cache.{Cache}
use atophttpd.Cache.Get.{IsServed}
use atophttpd.Atop.{Atop, RawRecord, RawFile, FileSystem, Sys, ok, minus}
use atophttpd.Rawlog.Fetch.{Format, Mallocs, Devtstat, rawlog_get_record}
use atophttpd.Rawlog.Fetch.Ends.{CountsFit, Stored, Cause, rawlog_get_record-Ends}

Returns-with :
    {A : Type 0} (P : A → Type 0) (r : Run A) → Returns r P → Returns r (λ x. (r ≡ done x) × P x)
Returns-with P (done x) h = (refl, h)
Returns-with P crash h = h

module _ (a : Atop) (fmt : Format) (m : Mallocs) {W : Type 0} (fs : FileSystem)
    (lseek : RawFile → ℕ → Sys ℕ) (stale_errno : ℕ)
    (jsonout : ℕ → Bytes → RawRecord → Devtstat fmt → Bytes → W → Run W) (Sent : W → Type 0) (w : W)
    (sends : (flags : ℕ) (labels : Bytes) (rr : RawRecord) (d : Devtstat fmt) (sstat : Bytes)
      → Stored a fmt m fs rr d sstat
      → Returns (jsonout flags labels rr d sstat w) Sent)
    (counts : (name : Bytes) (f : RawFile) → fs.open_file name ≡ ok f → CountsFit fmt f) where
  -- A failure has its cause, and nothing was done; or a record that is stored was shown.
  abbrev pub Shown : Bytes → ℤ × W → Type 0
  Shown labels r =
      ((e : ℕ) × Cause fs lseek stale_errno e × (r ≡ (minus e, w)))
      ⊎ ((r.0 ≡ pos 0)
          × ((flags : ℕ) × (rr : RawRecord) × (d : Devtstat fmt) × (sstat : Bytes) × Stored a fmt m
                fs rr d sstat
              × (jsonout flags labels rr d sstat w ≡ done r.1)
              × Sent r.1))

  pub rawlog_get_record-Shown :
      (ts : ℤ) (labels : Bytes) (cs : List Cache)
      → All IsServed cs
      → Returns
          (rawlog_get_record a fmt m fs lseek stale_errno jsonout ts labels cs w)
          (Shown labels)
  rawlog_get_record-Shown ts labels cs served =
      rawlog_get_record-Ends a fmt m fs lseek stale_errno jsonout (Shown labels) w
        (λ e cause. inl (e, cause, refl)) labels
        (λ flags rr d sstat stored.
          Returns-map _ _ (jsonout flags labels rr d sstat w)
            (λ w' h. inr (refl, (flags, rr, d, sstat, stored, h.0, h.1)))
            (Returns-with Sent (jsonout flags labels rr d sstat w)
              (sends flags labels rr d sstat stored)))
        counts ts cs served

  module _ (stays : Sent w) where
    -- Below 0 nothing was done.
    abbrev Kept : ℤ × W → Type 0
    Kept r = if ltb_ℤ r.0 (pos 0) then r.1 ≡ w else Sent r.1

    failed-Kept : (e : ℕ) → Kept (minus e, w)
    failed-Kept zero = stays
    failed-Kept (suc e) =
        let neg : ltb_ℤ (minus (suc e)) (pos 0) ≡ true = ground arith in rw (neg) refl

    Shown-Kept : (labels : Bytes) (r : ℤ × W) → Shown labels r → Kept r
    Shown-Kept labels r (inl (e, cause, p)) = rw (p) (failed-Kept e)
    Shown-Kept labels r (inr (ret, (flags, rr, d, sstat, stored, shown, sent))) = rw (ret) sent

    pub rawlog_get_record-Kept :
        (ts : ℤ) (labels : Bytes) (cs : List Cache)
        → All IsServed cs
        → Returns (rawlog_get_record a fmt m fs lseek stale_errno jsonout ts labels cs w) Kept
    rawlog_get_record-Kept ts labels cs served =
        Returns-map (Shown labels) Kept
          (rawlog_get_record a fmt m fs lseek stale_errno jsonout ts labels cs w)
          (Shown-Kept labels) (rawlog_get_record-Shown ts labels cs served)
