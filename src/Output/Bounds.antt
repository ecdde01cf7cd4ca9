-- ===== src/Output/Bounds.antt =====
-- The buffer never overflows, for texts of bounded size.
use atophttpd.Prelude.{
  ℕ, ◌+◌, ◌-◌, ◌*◌, ◌^◌, ◌≤◌, ◌≡◌, refl, inl, inr, Bool-cases, ap, sym, ◌∙◌, true, false, List, [],
  ◌∷◌, ◌++◌, append-nil, append_assoc, Bytes, ltb, if◌then◌else◌, length, length-append, arith, All,
  done, Returns, Returns-map, Returns-bind, Run, some,
}
use atophttpd.Output.{
  Output, buf, outbuf_def_size, offset, allocate, enlarge, output_buf, output_samp, output_all,
  output_samp_done,
}

abbrev base_size : Output → ℕ
base_size op = if op.allocated then op.size else outbuf_def_size

abbrev next_size : Output → ℕ → ℕ
next_size op n = if ltb (base_size op - offset op) n then base_size op * 2 else base_size op

-- A buffer in use: before its first text it is empty; then it has at least the default size and
-- holds its text.
pub record IsBuffer (op : Output) : Type 0 where
  pub is_buf : op.output_type ≡ buf
  pub fresh : op.allocated ≡ false → op.contents ≡ []
  pub inside : op.allocated ≡ true → offset op ≤ op.size
  pub enough : op.allocated ≡ true → outbuf_def_size ≤ op.size

module _ {op : Output} (b : IsBuffer op) (text : Bytes) (short : length text ≤ outbuf_def_size)
    (total : offset op + length text ≤ 2 ^ 30 - 1) where
  offset_fresh : op.allocated ≡ false → offset op ≡ 0
  offset_fresh h = ap length (b.fresh h)

  output_samp_lem :
      output_samp op text
      ≡ done (record op {
        allocated = true;
        size = next_size op (length text);
        contents = op.contents ++ text;
      })
  unfolding output_samp output_buf enlarge allocate
  output_samp_lem = elim (Bool-cases op.allocated) [
    | inl old ↦ ground (arith, old, b.is_buf, b.inside old, b.enough old)
    | inr new ↦ ground (arith, new, b.is_buf, b.fresh new, offset_fresh new)
  ]

  samp-IsBuffer : IsBuffer (record op {
    allocated = true;
    size = next_size op (length text);
    contents = op.contents ++ text;
  })
  samp-IsBuffer = record {
    is_buf = b.is_buf;
    fresh = λ h. absurd (cc h);
    inside = λ h. bounds.0;
    enough = λ h. bounds.1;
  }
    where
      bounds :
          (length (op.contents ++ text) ≤ next_size op (length text))
          × (outbuf_def_size ≤ next_size op (length text))
      bounds = elim (Bool-cases op.allocated) [
        | inl old ↦ ground (arith, old, length-append op.contents text, b.inside old, b.enough old)
        | inr new ↦ ground (arith, new, length-append op.contents text, offset_fresh new)
      ]

-- `concat`
abbrev pub joined : List Bytes → Bytes
joined [] = []
joined (t ∷ ts) = t ++ joined ts

-- Texts of at most a megabyte each, less than a gigabyte together: `output_samp` of them all does
-- not crash, and the buffer then holds them one after the other.
pub output_all-joined :
    (texts : List Bytes) {op : Output}
    → IsBuffer op
    → All (λ t. length t ≤ outbuf_def_size) texts
    → offset op + length (joined texts) ≤ 2 ^ 30 - 1
    → Returns (output_all op texts) (λ r. IsBuffer r × (r.contents ≡ op.contents ++ joined texts))
unfolding output_all
output_all-joined [] b short total = (b, sym (append-nil _))
output_all-joined (t ∷ ts) {op} b short total =
    rw (output_all, output_samp_lem b t short.0 (omega (arith, length-append t (joined ts))))
      (Returns-map _ _ (output_all _ ts)
        (λ r h. (h.0, h.1 ∙ append_assoc op.contents t (joined ts)))
        (output_all-joined ts
          (samp-IsBuffer b t short.0 (omega (arith, length-append t (joined ts)))) short.1
          (omega (arith, length-append t (joined ts), length-append op.contents t))))

-- The buffer that `output_samp_done` leaves.
pub cleared-IsBuffer : {op : Output} → IsBuffer op → IsBuffer (record op { contents = [] })
cleared-IsBuffer b = record {
  is_buf = b.is_buf;
  fresh = λ h. refl;
  inside = λ h. omega arith;
  enough = b.enough;
}

-- The callback has the buffer, which is then empty.
pub output_samp_done_lem :
    {W : Type 0} (callback : Output → W → Run W) (op : Output) (w : W) (Q : W → Type 0)
    → IsBuffer op
    → Returns (callback op w) Q
    → Returns
        (output_samp_done (some callback) op w)
        (λ r. (IsBuffer r.0 × (r.0.contents ≡ [])) × Q r.1)
unfolding output_samp_done
output_samp_done_lem callback op w Q b h =
    Returns-bind Q _ (callback op w) _ h (λ w' q. rw (b.is_buf) ((cleared-IsBuffer b, refl), q))
