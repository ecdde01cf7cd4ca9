-- ===== src/Server/Samples.antt =====
-- `rawlog_get_record` as the server calls it: with `jsonout`, the buffer `defop` that it fills, and
-- `http_show_samp_done`, which sends the buffer.
pub mod Sent
use atophttpd.Prelude.{
  ℕ, ◌≡◌, refl, ap, List, [], ◌∷◌, map, Option, none, some, ℤ, pos, Bytes, Bool, Run, done, crash,
  ◌>>=◌, IfReturns, IfReturns-bind, IfReturns-any, inl, inr,
}
use atophttpd.Atop.{Atop, RawRecord, RawFile, FileSystem, Sys, minus, einval}
use atophttpd.Cache.{Cache}
use atophttpd.Connection.{Transport}
use atophttpd.Output.{Output, output_all, output_samp_done}
use atophttpd.Output.Bounds.{IsBuffer}
use atophttpd.Json.Out.Choose.{Choice-cases}
use atophttpd.Output.Ready.{IsReady, output_all-IsBuffer, output_samp_done-IsReady}
use atophttpd.Http.Response.{SockOpts, Encoding, http_show_samp_done}
use atophttpd.Json.Sample.{Sstat, Tstat}
use atophttpd.Json.Lines.{Env}
use atophttpd.Json.Out.{Choice, accepted, refused, jsondef, labeldef, sample_texts, jsonout}
use atophttpd.Rawlog.Fetch.{Format, Mallocs, Devtstat, rawlog_get_record}

-- A connection, and the buffer that every sample is collected in. It is empty between two samples.
pub record WithOutput (C : Type 0) : Type 0 where
  pub op : Output
  pub ready : IsReady op
  pub conn : C

-- The buffer is left alone by what is done to the connection.
abbrev pub with_output : Transport → Transport
with_output t = record {
  Conn = WithOutput t.Conn;
  is_open = λ w. t.is_open w.conn;
  closes = λ w. t.closes w.conn;
  sent = λ w. t.sent w.conn;
  close = λ w. record w { conn = t.close w.conn };
  write = λ w b. record w { conn = t.write w.conn b };
  writev = λ w bs. record w { conn = t.writev w.conn bs };
  close_open = λ w h. t.close_open w.conn h;
  close_closed = λ w h. ap (λ d. record w { conn = d }) (t.close_closed w.conn h);
  write_open = λ w b h. t.write_open w.conn b h;
  writev_open = λ w bs h. t.writev_open w.conn bs h;
  write_closed = λ w b h. ap (λ d. record w { conn = d }) (t.write_closed w.conn b h);
  writev_closed = λ w bs h. ap (λ d. record w { conn = d }) (t.writev_closed w.conn bs h);
}

-- What the bytes of a sample hold, in the structs of atop.
pub record Decoder (fmt : Format) : Type 0 where
  pub sstat_of : Bytes → Sstat
  pub tstat_of : fmt.Tstat → Tstat

-- Buffer and connection behind `jsonout`, together.
abbrev pub attach :
    {C : Type 0} (r : Run (ℤ × Output × C)) → IfReturns r (λ x. IsReady x.1) → Run (WithOutput C)
attach (done (ret, op, conn)) h = done record { op = op; ready = h; conn = conn }
attach crash h = crash

module _ (t : Transport) (o : SockOpts) (compress : Bytes → Bool × Bytes) (a : Atop) (env : Env)
    (encoding : Encoding) where
  -- `defop.done`
  abbrev pub send : Output → t.Conn → Run t.Conn
  send op conn = http_show_samp_done t o compress encoding op.contents conn

  put_out-IsReady :
      (ret : ℤ) (texts : List Bytes) (op : Output) (conn : t.Conn)
      → IsBuffer op
      → IfReturns {A = ℤ × Output × t.Conn}
          (output_all op texts >>= λ op'.
            output_samp_done (some send) op' conn >>= λ sent. done (ret, sent.0, sent.1))
          (λ r. IsReady r.1)
  put_out-IsReady ret texts op conn b =
      IfReturns-bind IsBuffer _ (output_all op texts) _ (output_all-IsBuffer op texts b) (λ op' b'.
        IfReturns-bind _ _ (output_samp_done (some send) op' conn) _
          (output_samp_done-IsReady (some send) op' conn b') (λ r h. h))

  pub jsonout-IsReady :
      (flags : ℕ) (labels : Bytes) (curtime numsecs : ℤ) (tasks : List Tstat) (ss : Sstat)
      (w : WithOutput t.Conn)
      → IfReturns
          (jsonout a env (some send) flags labels curtime numsecs tasks ss w.op w.conn)
          (λ r. IsReady r.1)
  unfolding jsonout
  jsonout-IsReady flags labels curtime numsecs tasks ss w =
      elim (Choice-cases (jsondef labels (labeldef a env))) [
        | inr (err, e) ↦
            rw (e, jsonout) (put_out-IsReady (minus einval) (err ∷ []) w.op w.conn w.ready.0)
        | inl (ds, e) ↦
            let texts = sample_texts env flags curtime numsecs tasks ss ds in
            rw (e, jsonout)
              (IfReturns-bind (λ _. Unit) _ texts _ (IfReturns-any texts)
                (λ ts u. put_out-IsReady (pos 0) ts w.op w.conn w.ready.0))
      ]

  module _ (fmt : Format) (dec : Decoder fmt) where
    -- The call of `jsonout` in `rawlog_get_record`, which does not look at what it returns.
    unfoldable pub jsonout_on :
        ℕ → Bytes → RawRecord → Devtstat fmt → Bytes → WithOutput t.Conn → Run (WithOutput t.Conn)
    jsonout_on flags labels rr devtstat sstat w =
        let tasks = map dec.tstat_of devtstat.taskall in
        let ss = dec.sstat_of sstat in
        attach
          (jsonout a env (some send) flags labels rr.curtime (pos rr.interval) tasks ss w.op w.conn)
          (jsonout-IsReady flags labels rr.curtime (pos rr.interval) tasks ss w)

    unfoldable pub get_record :
        Mallocs
        → FileSystem
        → (RawFile → ℕ → Sys ℕ)
        → ℕ
        → List Cache
        → ℤ
        → Bytes
        → WithOutput t.Conn
        → Run (ℤ × WithOutput t.Conn)
    get_record m fs lseek stale_errno cs ts labels w =
        rawlog_get_record a fmt m fs lseek stale_errno jsonout_on ts labels cs w
