-- ===== src/Connection/Tls/Records.antt =====
-- What `conn_writev_tls` hands to OpenSSL.
use atophttpd.Prelude.{
  ℕ, ◌+◌, ◌≡◌, refl, sym, ap, subst, suc, ◌∙◌, inl, inr, Bool, true, false, List, [], ◌∷◌, ◌++◌,
  append-nil, append_assoc, ℤ, pos, leb, ltb_ℤ, Bytes, if◌then◌else◌, length, length-append, done,
  crash, Bool-cases, arith,
}
use atophttpd.Atop.{minus}
use atophttpd.Output.Bounds.{joined}
use atophttpd.Connection.Tls.{TlsConnection, iov_bytes_len, copy_iov, conn_writev_tls}

abbrev pub all_empty : List Bytes → Bool
all_empty [] = true
all_empty ([] ∷ iov) = all_empty iov
all_empty ((c ∷ part) ∷ iov) = false

-- Three parts, and nothing but empty ones behind them.
abbrev pub is_three : List Bytes → Bool
is_three (a ∷ b ∷ c ∷ iov) = all_empty iov
is_three _ = false

copy_iov-full :
    (iov : List Bytes) (out : Bytes)
    → copy_iov (length out) iov out ≡ (if all_empty iov then done (out ++ joined iov) else crash)
unfolding copy_iov
copy_iov-full [] out = ap done (sym (append-nil out))
copy_iov-full ([] ∷ iov) out =
    let room : leb (length out + 0) (length out) ≡ true = ground arith in
    rw (room, append-nil out) (copy_iov-full iov out)
copy_iov-full ((c ∷ part) ∷ iov) out =
    let none_left : leb (length out + suc (length part)) (length out) ≡ false = ground arith in
    rw (none_left) refl

-- Three parts fill the buffer.
copy_iov-three :
    (a b c : Bytes) (iov : List Bytes)
    → copy_iov (length a + length b + length c) (a ∷ b ∷ c ∷ iov) []
      ≡ (if all_empty iov then done (a ++ (b ++ (c ++ joined iov))) else crash)
unfolding copy_iov
copy_iov-three a b c iov =
    let size = length a + length b + length c in
    let first : leb (0 + length a) size ≡ true = ground arith in
    let second : leb (length a + length b) size ≡ true = ground arith in
    let third : leb (length (a ++ b) + length c) size ≡ true = ground (arith, length-append a b) in
    let filled : length ((a ++ b) ++ c) ≡ size =
      omega (arith, length-append a b, length-append (a ++ b) c) in
    let order : ((a ++ b) ++ c) ++ joined iov ≡ a ++ (b ++ (c ++ joined iov)) =
      append_assoc (a ++ b) c (joined iov) ∙ append_assoc a b (c ++ joined iov) in
    rw (first, second, third)
      (subst (λ t. copy_iov size iov ((a ++ b) ++ c) ≡ (if all_empty iov then done t else crash))
        order
        (subst
          (λ n.
            copy_iov n iov ((a ++ b) ++ c)
            ≡ (if all_empty iov then done (((a ++ b) ++ c) ++ joined iov) else crash))
          filled (copy_iov-full iov ((a ++ b) ++ c))))

-- In a session, with memory, `conn_writev_tls` on three parts, with nothing but empty ones behind
-- them, hands all of them in order to OpenSSL as one record and gives its answer, or -errno if
-- that is negative; on fewer parts, or with more bytes behind the third, it reads or writes
-- outside of its arrays.
pub conn_writev_tls_lem :
    (ret : ℤ) (errno : ℕ) (conn : TlsConnection) (iov : List Bytes)
    → conn.ssl ≡ true
    → conn_writev_tls true ret errno conn iov ≡ (
        if is_three iov
        then done (
          (if ltb_ℤ ret (pos 0) then minus errno else ret),
          record conn { records = conn.records ++ joined iov ∷ [] },
        )
        else crash)
unfolding conn_writev_tls iov_bytes_len
conn_writev_tls_lem ret errno conn [] h = rw (h, conn_writev_tls) refl
conn_writev_tls_lem ret errno conn (a ∷ []) h = rw (h, conn_writev_tls) refl
conn_writev_tls_lem ret errno conn (a ∷ b ∷ []) h = rw (h, conn_writev_tls) refl
conn_writev_tls_lem ret errno conn (a ∷ b ∷ c ∷ iov) h =
    let copied = copy_iov-three a b c iov in
    elim (Bool-cases (all_empty iov)) [
      | inl y ↦ rw (h, conn_writev_tls, copied, y) refl
      | inr n ↦ rw (h, conn_writev_tls, copied, n) refl
    ]
