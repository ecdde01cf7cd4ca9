-- ===== src/Json/WellFormed/Answer.antt =====
-- A sample from `jsonout` to the connection: json.c, output.c and `http_show_samp_done` together.
use atophttpd.Prelude.{
  ℕ, ◌-◌, ◌^◌, ◌≤◌, Bool, true, List, [], ◌∷◌, ◌++◌, ◌≡◌, refl, ap, ◌∙◌, append-nil, length-append,
  map, ℤ, pos, eqb_ℤ, some, Bytes, length, Run, Returns, Returns-map, Returns-bind, arith,
}
use atophttpd.Atop.{Atop, minus, einval}
use atophttpd.Connection.{Transport}
use atophttpd.Output.{Output, output_all, output_samp_done}
use atophttpd.Output.Bounds.{joined, IsBuffer, output_all-joined, output_samp_done_lem}
use atophttpd.Http.Response.{SockOpts, plain, http_prepare_response, http_show_samp_done}
use atophttpd.Http.Response.Once.{Closed}
use atophttpd.Http.Response.Samp.{response, http_show_samp_done_lem}
use atophttpd.Json.Sample.{Sstat, Tstat}
use atophttpd.Json.Syntax.{IsJson}
use atophttpd.Json.Lines.{Env}
use atophttpd.Json.Out.{
  Labeldef, Prifunc, accepted, refused, jsondef, labeldef, clean_task, sample_texts, jsonout,
}
use atophttpd.Json.Out.Choose.{refused_short}
use atophttpd.Json.WellFormed.Whole.{GeneralFits, ValidFit, jsonout-Sends}

module _ (t : Transport) (o : SockOpts) (compress : Bytes → Bool × Bytes) where
  -- `defop.done`, when no compression is asked for.
  abbrev pub send_plain : Output → t.Conn → Run t.Conn
  send_plain op conn = http_show_samp_done t o compress plain op.contents conn

-- The connection was closed, once, behind one response with a body.
abbrev pub Answered : (t : Transport) → t.Conn → (Bytes → Type 0) → t.Conn → Type 0
Answered t c R d =
    Closed t c d × ((body : Bytes) × R body × (t.sent d ≡ t.sent c ++ response plain body))

module _ (t : Transport) (o : SockOpts) (compress : Bytes → Bool × Bytes) (c : t.Conn)
    (open_ : t.is_open c ≡ true) (ready : eqb_ℤ (http_prepare_response o) (pos 0) ≡ true) where
  sent_plain :
      (op : Output)
      → Returns
          (send_plain t o compress op c)
          (λ d. Closed t c d × (t.sent d ≡ t.sent c ++ response plain op.contents))
  sent_plain op =
      Returns-map _ _ (send_plain t o compress op c)
        (λ d r. (r.0, r.1 ∙ ap (λ l. l ++ response plain op.contents) (append-nil (t.sent c))))
        (http_show_samp_done_lem t o compress op.contents c open_ ready plain)

  module _ (a : Atop) (env : Env) (flags : ℕ) (ss : Sstat) (curtime numsecs : ℤ)
      (taskall : List Tstat) (pd : Bytes) (op : Output) (b : IsBuffer op)
      (empty : op.contents ≡ []) where
    -- When `jsondef` accepts the labels, the sample fits as in `sample_texts-IsJson` and its text
    -- is shorter than a gigabyte, `jsonout` with `http_show_samp_done`, without compression, as
    -- its callback and an empty buffer returns 0, leaves the buffer empty, and on an open
    -- connection whose socket can be prepared it sends exactly one response, whose body is a JSON
    -- text, and closes the connection once.
    pub jsonout-Answered :
        (ds : List (Labeldef Prifunc))
        → jsondef pd (labeldef a env) ≡ accepted ds
        → GeneralFits env curtime numsecs
        → ValidFit a env flags ss (map (clean_task env) taskall) ds
        → Returns
            (sample_texts env flags curtime numsecs taskall ss ds)
            (λ ts. length (joined ts) ≤ 2 ^ 30 - 1)
        → Returns
            (jsonout a env
              (some (send_plain t o compress))
              flags
              pd
              curtime
              numsecs
              taskall
              ss
              op
              c)
            (λ r. (r.0 ≡ pos 0) × ((IsBuffer r.1 × (r.1.contents ≡ [])) × Answered t c IsJson r.2))
    jsonout-Answered ds e general fit total =
        jsonout-Sends a env flags ss (send_plain t o compress) (Answered t c IsJson) curtime numsecs
          taskall pd ds op c e general fit total b empty
          (λ op' b' json.
            Returns-map _ _ (send_plain t o compress op' c)
              (λ d r. (r.0, (op'.contents, json, r.1))) (sent_plain op'))

    -- When `jsondef` refuses the labels, `jsonout` with that callback and an empty buffer returns
    -- -EINVAL and leaves the buffer empty; on an open connection whose socket can be prepared it
    -- sends exactly one response with status 200, whose body is the text of the error, and closes
    -- the connection once.
    pub jsonout-refused :
        (err : Bytes)
        → jsondef pd (labeldef a env) ≡ refused err
        → Returns
            (jsonout a env
              (some (send_plain t o compress))
              flags
              pd
              curtime
              numsecs
              taskall
              ss
              op
              c)
            (λ r.
              (r.0 ≡ minus einval)
              × ((IsBuffer r.1 × (r.1.contents ≡ [])) × Answered t c (λ body. body ≡ err) r.2))
    unfolding jsonout
    jsonout-refused err e =
        let l : length err ≤ 63 = refused_short pd err (labeldef a env) e in
        rw (e, jsonout)
          (Returns-bind _ _ (output_all op (err ∷ [])) _
            (output_all-joined (err ∷ []) b (omega (arith, l), tt) rw (empty)
              (omega (arith, l, length-append err [])))
            (λ op' (b', k).
              Returns-bind _ _ (output_samp_done (some (send_plain t o compress)) op' c) _
                (output_samp_done_lem (send_plain t o compress) op' c
                  (Answered t c (λ body. body ≡ err)) b'
                  (Returns-map _ _ (send_plain t o compress op' c)
                    (λ d r. (r.0, (op'.contents, k ∙ rw (empty) (append-nil err), r.1)))
                    (sent_plain op')))
                (λ r (cleared, q). (refl, (cleared, q)))))
