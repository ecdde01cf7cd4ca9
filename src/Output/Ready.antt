-- ===== src/Output/Ready.antt =====
-- The buffer between two samples.
use atophttpd.Prelude.{
  ℕ, ◌+◌, ◌-◌, ◌*◌, ltb→lt, int_limit, ◌≡◌, refl, sym, ap, subst, inl, inr, true, List, [], ◌∷◌,
  Option, none, some, Bytes, ltb, if◌then◌else◌, length, length-append, arith, Run, IfReturns,
  IfReturns-bind, IfReturns-any, Bool-cases,
}
use atophttpd.Output.{
  Output, offset, allocate, enlarge, output_buf, output_samp, output_all, output_samp_done,
  outbuf_def_size,
}
use atophttpd.Output.Bounds.{IsBuffer, cleared-IsBuffer}

-- An empty buffer, as `output_samp_done` leaves it, or the one that is not allocated yet.
abbrev pub IsReady : Output → Type 0
IsReady op = IsBuffer op × (op.contents ≡ [])

-- A buffer that is allocated.
abbrev InUse : Output → Type 0
InUse op = IsBuffer op × (op.allocated ≡ true)

allocate-InUse : (op : Output) → IsBuffer op → InUse (allocate op)
unfolding allocate
allocate-InUse op b = elim (Bool-cases op.allocated) [
  | inl y ↦
      let same : allocate op ≡ op =
        ap
          (λ x.
            if x then op else record op { allocated = true; size = outbuf_def_size; contents = [] })
          y in
      subst InUse (sym same) (b, y)
  | inr n ↦
      rw (n, allocate)
        (
          record {
            is_buf = b.is_buf;
            fresh = λ h. refl;
            inside = λ h. omega arith;
            enough = λ h. omega arith;
          },
          refl,
        )
]

enlarge-InUse : (op : Output) (n : ℕ) → InUse op → IfReturns (enlarge op n) InUse
unfolding enlarge
enlarge-InUse op n (b, u) = elim (Bool-cases (ltb (op.size - offset op) n)) [
  | inr k ↦ rw (k, enlarge) (b, u)
  | inl y ↦ elim (Bool-cases (ltb (op.size * 2) int_limit)) [
    | inr k ↦ rw (y, k, enlarge) tt
    | inl l ↦
        rw (y, l, enlarge)
          (
            record {
              is_buf = b.is_buf;
              fresh = b.fresh;
              inside = λ h. omega (arith, b.inside u);
              enough = λ h. omega (arith, b.enough u);
            },
            u,
          )
  ]
]

output_buf-IsBuffer :
    (op : Output) (text : Bytes) → IsBuffer op → IfReturns (output_buf op text) IsBuffer
unfolding output_buf
output_buf-IsBuffer op text b =
    IfReturns-bind InUse IsBuffer (enlarge (allocate op) (length text)) _
      (enlarge-InUse (allocate op) (length text) (allocate-InUse op b))
      (λ op' (b', u). elim (Bool-cases (ltb (offset op' + length text) (op'.size + 1))) [
        | inr k ↦ rw (k) tt
        | inl y ↦ rw (y) (record {
          is_buf = b'.is_buf;
          fresh = λ h. absurd (cc (u, h));
          inside = λ h. omega (arith, ltb→lt _ _ y, length-append op'.contents text);
          enough = b'.enough;
        })
      ])

output_samp-IsBuffer :
    (op : Output) (text : Bytes) → IsBuffer op → IfReturns (output_samp op text) IsBuffer
unfolding output_samp
output_samp-IsBuffer op text b = rw (b.is_buf, output_samp) (output_buf-IsBuffer op text b)

pub output_all-IsBuffer :
    (op : Output) (texts : List Bytes) → IsBuffer op → IfReturns (output_all op texts) IsBuffer
unfolding output_all
output_all-IsBuffer op [] b = b
output_all-IsBuffer op (t ∷ ts) b =
    IfReturns-bind IsBuffer IsBuffer (output_samp op t) _ (output_samp-IsBuffer op t b)
      (λ op' b'. output_all-IsBuffer op' ts b')

pub output_samp_done-IsReady :
    {W : Type 0} (callback : Option (Output → W → Run W)) (op : Output) (w : W)
    → IsBuffer op
    → IfReturns (output_samp_done callback op w) (λ r. IsReady r.0)
unfolding output_samp_done
output_samp_done-IsReady none op w b = rw (b.is_buf) (cleared-IsBuffer b, refl)
output_samp_done-IsReady {W} (some f) op w b =
    IfReturns-bind {A = W} (λ _. Unit) (λ r. IsReady r.0) (f op w) _ (IfReturns-any (f op w))
      (λ w' u. rw (b.is_buf) (cleared-IsBuffer b, refl))
