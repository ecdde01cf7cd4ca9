-- ===== src/Rawlog/Followed/Folder.antt =====
-- `rawlog_parse_one` and `rawlog_parse_all` on a table whose indices follow their files.
use mathlib.Core.Option.{some-injective}
use atophttpd.Prelude.{
  ℕ, zero, suc, ◌<◌, ltb, lt→ltb, true, ◌≡◌, ap, inl, inr, Bool, List, [], ◌∷◌, ◌++◌, append-nil,
  none, some, ℤ, pos, eqb_ℤ, Bytes, codes, arith, length, get_elem?_total, set, All, All-append,
  All-get, All-map, Bool-cases, Option-cases, Returns, Returns-bind, Returns-map, Returns-if, ◌==◌,
  str_eq,
}
use atophttpd.Qsort.{Qsort}
use atophttpd.Qsort.Order.{All-perm}
use atophttpd.Cache.{Cache, CacheElem, cache_find, cache_cmp, cache_sort}
use atophttpd.Cache.Get.{IsServed}
use atophttpd.Atop.{Atop, RawHeader, RawFile, FileSystem, Sys, Sys-cases, ok, Reading-cases}
use atophttpd.Rawlog.{
  rawlog_verify_rawheader, rawlog_rebuild_one, parse_cached, parse_new, rawlog_parse_one,
  parse_entries, rawlog_parse_all, path_max,
}
use atophttpd.Rawlog.Records.{Records, Records-exist}
use atophttpd.Rawlog.Parse.{Parsed, rawlog_verify_rawheader_iff, rawlog_parse_one-Parsed}
use atophttpd.Rawlog.Followed.{
  NamesFit, IsLog, AreLogs, Follows, Follows-IsServed, rawlog_rebuild_one-Follows,
}

All-set :
    {A : Type 0} (P : A → Type 0) (xs : List A) (i : ℕ) (v : A)
    → All P xs
    → P v
    → All P (set xs i v)
All-set P [] i v h p = tt
All-set P (x ∷ xs) zero v h p = (p, h.1)
All-set P (x ∷ xs) (suc i) v h p = (h.0, All-set P xs i v h.1 p)

cache_find-lt :
    (name : Bytes) (cs : List Cache) {i : ℕ} → cache_find name cs ≡ some i → i < length cs
unfolding cache_find
cache_find-lt name [] e = cc e
cache_find-lt name (c ∷ cs) e = elim (Bool-cases (str_eq c.name name)) [
  | inl y ↦ omega (arith, some-injective _ _ (rw (y, cache_find) at e))
  | inr n ↦ elim (Option-cases (cache_find name cs)) [
    | inl k ↦ absurd (cc (rw (n, k, cache_find) at e))
    | inr (j, k) ↦
        omega (arith, some-injective _ _ (rw (n, k, cache_find) at e), cache_find-lt name cs k)
  ]
]

module _ (a : Atop) (q : Qsort) (fs : FileSystem) (logs : AreLogs a fs) where
  abbrev AllFollow : ℤ × List Cache → Type 0
  AllFollow r = All (Follows a fs) r.1

  module _ (path : Bytes) (cs : List Cache) (h : All (Follows a fs) cs) where
    parse_cached-AllFollow :
        (i : ℕ) → i < length cs → Returns (parse_cached a q fs path i cs) AllFollow
    unfolding parse_cached
    parse_cached-AllFollow i l =
        let (c, e) = get_elem?_total cs i l in
        elim (Sys-cases (fs.stat path)) [
          | inl (n, k) ↦ rw (e, parse_cached, k) h
          | inr (st, k) ↦
              rw (e, parse_cached, k)
                (Returns-if _ (c.st_size == st.st_size) _ _ h (
                  Returns-bind _ _ (rawlog_rebuild_one a q fs c) _
                    (rawlog_rebuild_one-Follows a fs logs c (All-get _ cs i h e) q)
                    (λ r f. All-set _ cs i r.1 h f)))
        ]

    module _ (f : RawFile) (opened : fs.open_file path ≡ ok f) where
      abbrev this : IsLog a f
      this = logs path f opened

      Parsed-AllFollow :
          (rh : RawHeader) (es : List CacheElem)
          → Records a f this.start es
          → (r : ℤ × List Cache) → Parsed path rh this.st es cs r
          → AllFollow r
      Parsed-AllFollow rh [] rs r p = rw (p) h
      Parsed-AllFollow rh (e ∷ es) rs r (ret, (d, added, valid, d_elems, name, flags, size)) =
          rw (added) (
            All-append _ cs (d ∷ []) h (
              record {
                f = f;
                opened = rw (name) opened;
                file = record {
                  start = this.start;
                  told = this.told;
                  more = [];
                  records = rw (append-nil, d_elems) rs;
                };
                valid = valid;
                some_elem = omega (arith, ap length d_elems);
              },
              tt,
            ))

      rawlog_parse_one-AllFollow :
          cache_find path cs ≡ none → Returns (rawlog_parse_one a q fs path cs) AllFollow
      unfolding rawlog_parse_one parse_new
      rawlog_parse_one-AllFollow absent = elim (Reading-cases f.header) [
        | inr (inl n) ↦ rw (absent, rawlog_parse_one, opened, parse_new, n) h
        | inr (inr n) ↦ absurd (this.header_reads n)
        | inl (rh, k) ↦ elim (Bool-cases (eqb_ℤ (rawlog_verify_rawheader a rh) (pos 0))) [
          | inr n ↦ rw (absent, rawlog_parse_one, opened, parse_new, k, n) h
          | inl y ↦
              let (es, rs) = Records-exist a f this.is_file this.reads this.start in
              Returns-map _ _ (rawlog_parse_one a q fs path cs) (Parsed-AllFollow rh es rs) (
                rawlog_parse_one-Parsed a q fs path f rh this.start this.st cs absent opened
                  this.is_file k ((rawlog_verify_rawheader_iff a rh).0.0 (ground arith)) this.told
                  this.stated rs (this.ascending es rs) (omega (arith, this.few es rs)))
        ]
      ]

    parse_one-AllFollow : Returns (rawlog_parse_one a q fs path cs) AllFollow
    unfolding rawlog_parse_one
    parse_one-AllFollow = elim (Option-cases (cache_find path cs)) [
      | inr (i, e) ↦ rw (e, rawlog_parse_one) (parse_cached-AllFollow i (cache_find-lt path cs e))
      | inl absent ↦ elim (Sys-cases (fs.open_file path)) [
        | inl (n, k) ↦ rw (absent, rawlog_parse_one, k) h
        | inr (f, k) ↦ rawlog_parse_one-AllFollow f k absent
      ]
    ]

  parse_entries-AllFollow :
      (path : Bytes) (entries : List (Bool × Bytes)) (cs : List Cache)
      → All (λ entry. length (path ++ codes "/" ++ entry.1) < path_max) entries
      → All (Follows a fs) cs
      → Returns (parse_entries a q fs path entries cs) (All (Follows a fs))
  unfolding parse_entries
  parse_entries-AllFollow path [] cs fit h = h
  parse_entries-AllFollow path ((regular, d_name) ∷ rest) cs fit h =
      let room : ltb (length (path ++ codes "/" ++ d_name)) path_max ≡ true = lt→ltb _ _ fit.0 in
      Returns-if _ regular _ _
        (rw (room) (
          Returns-bind _ _ (rawlog_parse_one a q fs (path ++ codes "/" ++ d_name) cs) _
            (parse_one-AllFollow (path ++ codes "/" ++ d_name) cs h)
            (λ r k. parse_entries-AllFollow path rest r.1 fit.1 k)))
        (parse_entries-AllFollow path rest cs fit.1 h)

  -- On a table whose indices hold the first records of their files, when no call on a file that can
  -- be opened fails and their records are at most 2^30 in order of time, when no name of the folder
  -- is too long for `name`, and as far as `qsort` rearranges the table: `rawlog_parse_all` never
  -- crashes, and leaves such a table; so every index can be searched.
  pub rawlog_parse_all-Follows :
      (opendir : Bytes → Sys (List (Bool × Bytes))) (path : Bytes) (cs : List Cache)
      → NamesFit opendir path
      → All (Follows a fs) cs
      → Returns
          (rawlog_parse_all a q fs opendir path cs)
          (λ r. All (Follows a fs) r.1 × All IsServed r.1)
  unfolding rawlog_parse_all cache_sort
  rawlog_parse_all-Follows opendir path cs fit h = elim (Sys-cases (opendir path)) [
    | inl (n, k) ↦ rw (k, rawlog_parse_all) (h, served cs h)
    | inr (entries, k) ↦
        rw (k, rawlog_parse_all)
          (Returns-bind _ _ (parse_entries a q fs path entries cs) _
            (parse_entries-AllFollow path entries cs (fit entries k) h)
            (λ cs' h'.
              let sorted = All-perm (Follows a fs) (q.sort_perm cache_cmp cs') h' in
              (sorted, served _ sorted)))
  ]
    where
      served : (ds : List Cache) → All (Follows a fs) ds → All IsServed ds
      served ds k = All-map _ _ ds (λ d f. Follows-IsServed a fs logs d f) k
