-- ===== src/Json/WellFormed/Whole.antt =====
-- The whole text that `jsonout` puts out.
use atophttpd.Prelude.{
  ℕ, true, List, [], ◌∷◌, ◌++◌, ◌≡◌, refl, some, inl, inr, map, ℤ, Bytes, length, All, All-append,
  arith, ◌≤◌, ◌<◌, ◌-◌, ◌^◌, pos, Run, Returns, Returns-map, Returns-and, All-map, Returns-bind,
  Bool-cases,
}
use atophttpd.CString.{is_digit}
use atophttpd.Output.{Output, outbuf_def_size, output_all, output_samp_done}
use atophttpd.Output.Bounds.{joined, IsBuffer, output_samp_done_lem, output_all-joined}
use atophttpd.Printf.{num, str, snprintf, pieces, role}
use atophttpd.Atop.{Atop}
use atophttpd.Json.Sample.{Sstat, Tstat}
use atophttpd.Json.Syntax.{Mode, value, after, class_of, step, run, run-append, IsJson}
use atophttpd.Json.Syntax.Cover.{Covers, same, zero, number, decimals}
use atophttpd.Json.Format.{FormatFits, check, bound}
use atophttpd.Json.Format.Sound.{After, snprintf-After}
use atophttpd.Json.Lines.{Env, line_buf_size}
use atophttpd.Json.Lines.Leads.{in_object, Short, Keeps, Keeps-nil, Keeps-append, joined-append}
use atophttpd.Json.Out.{
  Labeldef, Prifunc, accepted, jsonout, jsondef, labeldef, clean_task, print_valid, general_format,
  sample_texts,
}
use atophttpd.Json.Out.Choose.{Entries, jsondef-Entries}
use atophttpd.Json.WellFormed.Table.{LabelFits, Prints, labeldef-Prints}

-- The brace and the newline at the end.
abbrev closing : Bytes
closing = b'}' ∷ 10 ∷ []

run-closing : (m : Mode) → Covers after m → run (m, in_object) closing ≡ some (after, [])
unfolding run step class_of
run-closing after (same _) = refl
run-closing _ zero = refl
run-closing _ number = refl
run-closing _ decimals = refl

-- The name of the host is plain, and the numbers are of 64 bits.
abbrev pub GeneralFits : Env → ℤ → ℤ → Type 0
GeneralFits env curtime numsecs =
    FormatFits general_format (str env.nodename ∷ num curtime ∷ num numsecs ∷ [])

-- Every entry that is valid has a label that fits.
abbrev pub ValidFit : Atop → Env → ℕ → Sstat → List Tstat → List (Labeldef Prifunc) → Type 0
ValidFit a env flags ss tasks = All (λ d. d.valid ≡ true → LabelFits a env flags ss tasks d.label)

module _ (a : Atop) (env : Env) (flags : ℕ) (ss : Sstat) where
  closing_short : length closing ≤ line_buf_size
  closing_short = omega arith

  print_valid-Keeps :
      (tasks : List Tstat) (ds : List (Labeldef Prifunc))
      → Entries (Prints a env flags ss tasks) ds
      → ValidFit a env flags ss tasks ds
      → Keeps (print_valid flags ss tasks ds)
  unfolding print_valid
  print_valid-Keeps tasks [] prints fit = Keeps-nil
  print_valid-Keeps tasks (d ∷ ds) prints fit = elim (Bool-cases d.valid) [
    | inl y ↦
        rw (y, print_valid)
          (Keeps-append (d.prifunc flags ss tasks) (print_valid flags ss tasks ds)
            (prints.0 (fit.0 y)) (print_valid-Keeps tasks ds prints.1 fit.1))
    | inr n ↦ rw (n, print_valid) (print_valid-Keeps tasks ds prints.1 fit.1)
  ]

  -- The head leads behind the first members of the object.
  pub general-After :
      (curtime numsecs : ℤ)
      → GeneralFits env curtime numsecs
      → Returns
          (snprintf 256 general_format (str env.nodename ∷ num curtime ∷ num numsecs ∷ []))
          (λ t. After (value, []) (after, in_object) t × (length t < 256))
  unfolding general_format check pieces role is_digit bound step class_of
  general-After curtime numsecs general =
      snprintf-After 256 general_format (str env.nodename ∷ num curtime ∷ num numsecs ∷ []) value
        (value, []) (after, in_object) (same value) (refl, refl) general

  sample_texts_lem :
      (curtime numsecs : ℤ) (taskall : List Tstat) (pd : Bytes) (ds : List (Labeldef Prifunc))
      → jsondef pd (labeldef a env) ≡ accepted ds
      → GeneralFits env curtime numsecs
      → ValidFit a env flags ss (map (clean_task env) taskall) ds
      → Returns
          (sample_texts env flags curtime numsecs taskall ss ds)
          (λ ts. IsJson (joined ts) × Short ts)
  unfolding sample_texts
  sample_texts_lem curtime numsecs taskall pd ds e general fit =
      let tasks = map (clean_task env) taskall in
      let prints =
        jsondef-Entries (Prints a env flags ss tasks) pd (labeldef a env) ds
          (labeldef-Prints a env flags ss tasks) e in
      Returns-bind _ _
        (snprintf 256 general_format (str env.nodename ∷ num curtime ∷ num numsecs ∷ [])) _
        (general-After curtime numsecs general)
        (λ t ((m, r, v), short).
          Returns-bind _ _ (print_valid flags ss tasks ds) _
            (print_valid-Keeps tasks ds prints fit m v)
            (λ ts ((m', r', v'), rest). (
              rw
                  (
                    joined-append ts (closing ∷ []),
                    run-append (value, []) (m, in_object) t (joined ts ++ closing) r,
                    run-append (m, in_object) (m', in_object) (joined ts) closing r',
                  )
                  (run-closing m' v'),
              (omega (arith, short), All-append _ ts (closing ∷ []) rest (closing_short, tt)),
            )))

  -- For any list of labels that `jsondef` accepts: when the name of the host is plain and short,
  -- the numbers of the head have 64 bits, and the sample fits under every label that is valid
  -- (arrays as long as their counts say, no overflow, numbers of 64 bits, strings without quotes,
  -- backslashes or control characters; the first task is printed, or none is), the texts of
  -- `jsonout` are made without a crash, and together they are a JSON text.
  pub sample_texts-IsJson :
      (curtime numsecs : ℤ) (taskall : List Tstat) (pd : Bytes) (ds : List (Labeldef Prifunc))
      → jsondef pd (labeldef a env) ≡ accepted ds
      → GeneralFits env curtime numsecs
      → ValidFit a env flags ss (map (clean_task env) taskall) ds
      → Returns (sample_texts env flags curtime numsecs taskall ss ds) (λ ts. IsJson (joined ts))
  sample_texts-IsJson curtime numsecs taskall pd ds e general fit =
      Returns-map _ _ (sample_texts env flags curtime numsecs taskall ss ds) (λ ts r. r.0)
        (sample_texts_lem curtime numsecs taskall pd ds e general fit)

  module _ {W : Type 0} (callback : Output → W → Run W) where
    -- What the callback is to do with a buffer that holds JSON.
    abbrev pub Sends : (W → Type 0) → W → Type 0
    Sends Q w = (op : Output) → IsBuffer op → IsJson op.contents → Returns (callback op w) Q

    -- The same through the buffer: a callback that does its part on a buffer with a JSON text
    -- does it in `jsonout`, which returns 0 and leaves the buffer empty.
    pub jsonout-Sends :
        (Q : W → Type 0) (curtime numsecs : ℤ) (taskall : List Tstat) (pd : Bytes)
        (ds : List (Labeldef Prifunc)) (op : Output) (w : W)
        → jsondef pd (labeldef a env) ≡ accepted ds
        → GeneralFits env curtime numsecs
        → ValidFit a env flags ss (map (clean_task env) taskall) ds
        → Returns
            (sample_texts env flags curtime numsecs taskall ss ds)
            (λ ts. length (joined ts) ≤ 2 ^ 30 - 1)
        → IsBuffer op
        → op.contents ≡ []
        → Sends Q w
        → Returns
            (jsonout a env (some callback) flags pd curtime numsecs taskall ss op w)
            (λ r. (r.0 ≡ pos 0) × ((IsBuffer r.1 × (r.1.contents ≡ [])) × Q r.2))
    unfolding jsonout output_samp_done
    jsonout-Sends Q curtime numsecs taskall pd ds op w e general fit total b empty sends =
        let texts = sample_texts env flags curtime numsecs taskall ss ds in
        rw (e, jsonout)
          (Returns-bind _ _ texts _
            (Returns-and _ _ texts (sample_texts_lem curtime numsecs taskall pd ds e general fit)
              total)
            (λ ts ((json, short), room).
              let megabytes : All (λ t. length t ≤ outbuf_def_size) ts =
                All-map _ _ ts (λ t h. omega (arith, h)) short in
              Returns-bind _ _ (output_all op ts) _
                (output_all-joined ts b megabytes (rw (empty) (omega (arith, room))))
                (λ op' (b', c).
                  Returns-bind _ _ (output_samp_done (some callback) op' w) _
                    (output_samp_done_lem callback op' w Q b' (sends op' b' (rw (c, empty) json)))
                    (λ r (cleared, q). (refl, (cleared, q))))))
