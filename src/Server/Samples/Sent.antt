-- ===== src/Server/Samples/Sent.antt =====
-- A request for a sample is answered once, and the connection closed, or nothing is done.
use atophttpd.Prelude.{
  ℕ, suc, ◌-◌, ◌*◌, ◌^◌, ◌≤◌, ◌≡◌, refl, ap, ◌∙◌, inl, inr, Bool, true, List, [], ◌∷◌, ◌++◌, map,
  some, ℤ, pos, ltb_ℤ, Bytes, length, length-append, All, All-map, arith, Run, done, crash,
  if◌then◌else◌, Returns, Returns-bind, Returns-map, IfReturns, Bool-cases,
}
use atophttpd.Atop.{Atop, RawRecord, RawFile, FileSystem, Sys, ok}
use atophttpd.Cache.{Cache}
use atophttpd.Cache.Get.{IsServed}
use atophttpd.Connection.{Transport}
use atophttpd.Output.{Output, output_all, output_samp_done}
use atophttpd.Output.Bounds.{joined, output_all-joined, output_samp_done_lem}
use atophttpd.Output.Ready.{IsReady}
use atophttpd.Http.Response.{
  SockOpts, Encoding, plain, deflate, html, http_404, http_answer_404, http_response_200,
  http_show_samp_done,
}
use atophttpd.Http.Response.Once.{ClosedOnce, Closed, http_response_200_lem}
use atophttpd.Json.Sample.{Sstat, Tstat}
use atophttpd.Printf.{num, str, snprintf}
use atophttpd.Json.Lines.{Env}
use atophttpd.Json.Lines.Leads.{joined-append}
use atophttpd.Json.Out.{
  Labeldef, Prifunc, accepted, jsondef, labeldef, clean_task, print_valid, general_format,
  sample_texts, jsonout,
}
use atophttpd.Json.Out.Choose.{
  Entries, jsondef-Entries, jsondef-length, refused_short, Choice-cases,
}
use atophttpd.Json.WellFormed.Table.{LabelFits}
use atophttpd.Json.WellFormed.Whole.{GeneralFits, general-After, jsonout-Sends}
use atophttpd.Rawlog.Fetch.{Format, Mallocs, Devtstat}
use atophttpd.Rawlog.Fetch.Ends.{CountsFit, Stored}
use atophttpd.Rawlog.Fetch.Kept.{rawlog_get_record-Kept}
use atophttpd.Server.Samples.{
  WithOutput, with_output, Decoder, attach, send, jsonout_on, get_record,
}

-- Whatever is sent, the connection is closed once.
send-Closed :
    (t : Transport) (o : SockOpts) (compress : Bytes → Bool × Bytes) (encoding : Encoding)
    (ob : Bytes) (c : t.Conn)
    → t.is_open c ≡ true
    → Returns (http_show_samp_done t o compress encoding ob c) (Closed t c)
unfolding http_show_samp_done http_answer_404
send-Closed t o compress plain ob c h =
    Returns-map _ _ (http_response_200 t o c ob plain html) (λ d r. r.0)
      (http_response_200_lem t o c h ob plain html)
send-Closed t o compress deflate ob c h = elim (Bool-cases (compress ob).0) [
  | inl y ↦ rw (y) (
      Returns-map _ _ (http_response_200 t o c (compress ob).1 deflate html) (λ d r. r.0)
        (http_response_200_lem t o c h (compress ob).1 deflate html))
  | inr n ↦
      let w = t.write_open c http_404 h in
      rw (n) (
        Returns-map _ _ (http_response_200 t o (http_answer_404 t o c) (compress ob).1 deflate html)
          (λ d r. (r.0.0, r.0.1 ∙ ap suc w.1))
          (http_response_200_lem t o (http_answer_404 t o c) w.0 (compress ob).1 deflate html))
]

abbrev closing : Bytes
closing = b'}' ∷ 10 ∷ []

-- A megabyte times 16.
abbrev pub label_room : ℕ
label_room = 16777216

-- What is asked of a sample: it fits under every label, and no label prints more than its room.
module _ (a : Atop) (env : Env) (flags : ℕ) (ss : Sstat) (tasks : List Tstat) where
  abbrev pub IsRoomy : Bytes → Prifunc → Type 0
  IsRoomy label prifunc = Returns (prifunc flags ss tasks) (λ ts. length (joined ts) ≤ label_room)

  abbrev pub SampleFits : Type 0
  SampleFits =
      Entries (λ label prifunc. LabelFits a env flags ss tasks label × IsRoomy label prifunc)
        (labeldef a env)

  print_valid-length :
      (ds : List (Labeldef Prifunc))
      → Entries IsRoomy ds
      → Returns (print_valid flags ss tasks ds) (λ ts. length (joined ts) ≤ label_room * length ds)
  unfolding print_valid
  print_valid-length [] h = omega arith
  print_valid-length (d ∷ ds) h = elim (Bool-cases d.valid) [
    | inl y ↦
        rw (y, print_valid)
          (Returns-bind _ _ (d.prifunc flags ss tasks) _ h.0 (λ ts l.
            Returns-bind _ _ (print_valid flags ss tasks ds) _ (print_valid-length ds h.1) (λ us k.
              omega (
                arith,
                l,
                k,
                ap length (joined-append ts us),
                length-append (joined ts) (joined us),
              ))))
    | inr n ↦
        rw (n, print_valid)
          (Returns-map _ _ (print_valid flags ss tasks ds) (λ ts k. omega (arith, k))
            (print_valid-length ds h.1))
  ]

length-labeldef : (a : Atop) (env : Env) → length (labeldef a env) ≡ 25
unfolding labeldef
length-labeldef a env = refl

module _ (a : Atop) (env : Env) (flags : ℕ) (ss : Sstat) (curtime numsecs : ℤ)
    (taskall : List Tstat) (pd : Bytes) (general : GeneralFits env curtime numsecs)
    (fits : SampleFits a env flags ss (map (clean_task env) taskall)) where
  sample_texts-length :
      (ds : List (Labeldef Prifunc))
      → jsondef pd (labeldef a env) ≡ accepted ds
      → Returns
          (sample_texts env flags curtime numsecs taskall ss ds)
          (λ ts. length (joined ts) ≤ 2 ^ 30 - 1)
  unfolding sample_texts
  sample_texts-length ds e =
      let tasks = map (clean_task env) taskall in
      let roomy =
        jsondef-Entries (IsRoomy a env flags ss tasks) pd (labeldef a env) ds
          (All-map _ _ (labeldef a env) (λ d h. h.1) fits) e in
      let number = jsondef-length pd (labeldef a env) ds e ∙ length-labeldef a env in
      Returns-bind _ _
        (snprintf 256 general_format (str env.nodename ∷ num curtime ∷ num numsecs ∷ [])) _
        (general-After a env flags ss curtime numsecs general)
        (λ t (r, short).
          Returns-bind _ _ (print_valid flags ss tasks ds) _
            (print_valid-length a env flags ss tasks ds roomy)
            (λ ts l. omega (
              arith,
              short,
              rw (number) at l,
              length-append t (joined (ts ++ closing ∷ [])),
              ap length (joined-append ts (closing ∷ [])),
              length-append (joined ts) closing,
            )))

  -- What the callback does happens in `jsonout`, whatever the labels are.
  jsonout-Does :
      {W : Type 0} (callback : Output → W → Run W) (Q : W → Type 0) (op : Output) (w : W)
      → IsReady op
      → ((op' : Output) → Returns (callback op' w) Q)
      → Returns
          (jsonout a env (some callback) flags pd curtime numsecs taskall ss op w)
          (λ r. Q r.2)
  unfolding jsonout
  jsonout-Does callback Q op w (b, empty) does = elim (Choice-cases (jsondef pd (labeldef a env))) [
    | inl (ds, e) ↦
        let valid =
          All-map _ _ ds (λ d h v. h)
            (jsondef-Entries
              (λ label prifunc. LabelFits a env flags ss (map (clean_task env) taskall) label) pd
              (labeldef a env) ds (All-map _ _ (labeldef a env) (λ d h. h.0) fits) e) in
        Returns-map _ _ (jsonout a env (some callback) flags pd curtime numsecs taskall ss op w)
          (λ r h. h.1.1)
          (jsonout-Sends a env flags ss callback Q curtime numsecs taskall pd ds op w e general
            valid (sample_texts-length ds e) b empty (λ op' b' json. does op'))
    | inr (err, e) ↦
        let l : length err ≤ 63 = refused_short pd err (labeldef a env) e in
        rw (e, jsonout)
          (Returns-bind _ _ (output_all op (err ∷ [])) _
            (output_all-joined (err ∷ []) b (omega (arith, l), tt)
              (rw (empty) (omega (arith, l, length-append err []))))
            (λ op' (b', k).
              Returns-bind _ _ (output_samp_done (some callback) op' w) _
                (output_samp_done_lem callback op' w Q b' (does op')) (λ r h. h.1)))
  ]

attach-Returns :
    {C : Type 0} (Q : C → Type 0) (r : Run (ℤ × Output × C)) (h : IfReturns r (λ x. IsReady x.1))
    → Returns r (λ x. Q x.2)
    → Returns (attach r h) (λ w. Q w.conn)
attach-Returns Q (done (ret, op, conn)) h q = q
attach-Returns Q crash h q = q

-- Every sample that the files hold fits, under every label.
abbrev pub StoredFits :
    (a : Atop) (env : Env) (fmt : Format) → Decoder fmt → Mallocs → FileSystem → Type 0
StoredFits a env fmt dec m fs =
    (flags : ℕ) (rr : RawRecord) (d : Devtstat fmt) (sstat : Bytes)
    → Stored a fmt m fs rr d sstat
    → GeneralFits env rr.curtime (pos rr.interval)
      × SampleFits a env flags (dec.sstat_of sstat)
          (map (clean_task env) (map dec.tstat_of d.taskall))

module _ (t : Transport) (o : SockOpts) (compress : Bytes → Bool × Bytes) (a : Atop) (env : Env)
    (fmt : Format) (dec : Decoder fmt) (m : Mallocs) (fs : FileSystem) where
  module _ (lseek : RawFile → ℕ → Sys ℕ) (stale_errno : ℕ) (encoding : Encoding)
      (w : WithOutput t.Conn) (open_ : t.is_open w.conn ≡ true)
      (stored : StoredFits a env fmt dec m fs)
      (counts : (name : Bytes) (f : RawFile) → fs.open_file name ≡ ok f → CountsFit fmt f) where
    jsonout_on-ClosedOnce :
        (flags : ℕ) (labels : Bytes) (rr : RawRecord) (d : Devtstat fmt) (sstat : Bytes)
        → Stored a fmt m fs rr d sstat
        → Returns
            (jsonout_on t o compress a env encoding fmt dec flags labels rr d sstat w)
            (ClosedOnce (with_output t) w)
    unfolding jsonout_on
    jsonout_on-ClosedOnce flags labels rr d sstat s =
        let (general, fits) = stored flags rr d sstat s in
        attach-Returns (ClosedOnce t w.conn) _ _ (
          jsonout-Does a env flags (dec.sstat_of sstat) rr.curtime (pos rr.interval)
            (map dec.tstat_of d.taskall) labels general fits (send t o compress a env encoding)
            (ClosedOnce t w.conn) w.op w.conn w.ready
            (λ op'.
              Returns-map _ _ (send t o compress a env encoding op' w.conn) (λ c k. inr k)
                (send-Closed t o compress encoding op'.contents w.conn open_)))

    pub get_record-Kept :
        (cs : List Cache) (ts : ℤ) (labels : Bytes)
        → All IsServed cs
        → Returns
            (get_record t o compress a env encoding fmt dec m fs lseek stale_errno cs ts labels w)
            (λ r. if ltb_ℤ r.0 (pos 0) then r.1 ≡ w else ClosedOnce (with_output t) w r.1)
    unfolding get_record
    get_record-Kept cs ts labels served =
        rawlog_get_record-Kept a fmt m fs lseek stale_errno
          (jsonout_on t o compress a env encoding fmt dec) (ClosedOnce (with_output t) w) w
          jsonout_on-ClosedOnce counts (inl (open_, refl)) ts labels cs served
