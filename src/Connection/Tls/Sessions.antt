-- ===== src/Connection/Tls/Sessions.antt =====
-- Contexts and sessions are freed.
use atophttpd.Prelude.{
  ℕ, suc, ◌+◌, ◌≡◌, refl, sym, subst, ◌∙◌, ltb_ℤ, inl, inr, Bool, true, false, not, ◌&&◌, ℤ, pos,
  leb_ℤ, Bytes, if◌then◌else◌, Bool-cases, arith,
}
use atophttpd.Atop.{Sys, ok, failed, minus, einval}
use atophttpd.Connection.Socket.{
  Socket, no_fd, conn_socket_create, conn_socket_accept, conn_socket_shutdown, conn_socket_close,
}
use atophttpd.Connection.Tls.{
  TlsConnection, conn_tls_create, Contexts, Setup, is_given, tls_configure, start_session,
  conn_tls_accept, free_session, conn_shutdown_tls, conn_close_tls,
}

-- Every step of the configuration succeeds.
abbrev pub all_succeed : Setup → Bool
all_succeed p =
    is_given p.cert_file
    && is_given p.key_file
    && is_given p.ca_cert_file
    && p.new_ctx
    && not (leb_ℤ p.use_certificate (pos 0))
    && not (leb_ℤ p.use_private_key (pos 0))
    && p.check_private_key
    && not (leb_ℤ p.load_verify (pos 0))

-- The only context that is allocated is `tls_ctx`.
abbrev pub owned : Bool → Contexts
owned b = record { tls_ctx = b; live = if b then 1 else 0 }

-- Whether or not a context is in use, as the only one that is allocated: `tls_configure` returns
-- 0 and leaves a new context as the only one when every step succeeds; otherwise it returns
-- -errno, with whatever `errno` is left, and the contexts are as before, none leaked.
pub tls_configure_lem :
    (p : Setup) (b : Bool)
    → tls_configure p (owned b)
      ≡ (if all_succeed p then (pos 0, owned true) else (minus p.errno, owned b))
unfolding tls_configure
tls_configure_lem p true = ground arith
tls_configure_lem p false = ground arith

-- Nothing is left of a connection: its descriptor and its session.
abbrev pub Released : TlsConnection → Type 0
Released conn = (no_fd conn.c ≡ true) × (conn.ssl ≡ false) × (conn.made ≡ conn.freed)

abbrev pub accepts : Sys ℕ → ℕ
accepts (failed e) = 0
accepts (ok clifd) = 1

-- Every session that was made and not freed is that of the connection.
abbrev Accounted : TlsConnection → Type 0
Accounted conn = conn.made ≡ conn.freed + (if conn.ssl then 1 else 0)

if-cases : {A : Type 0} (Q : A → Type 0) (b : Bool) (x y : A) → Q x → Q y → Q (if b then x else y)
if-cases Q true x y h k = h
if-cases Q false x y h k = k

socket_close-no_fd : (c : Socket) → no_fd (conn_socket_close c) ≡ true
unfolding conn_socket_close
socket_close-no_fd c = elim (Bool-cases (no_fd c)) [
  | inl y ↦ rw (y, conn_socket_close) y
  | inr n ↦ rw (n, conn_socket_close) refl
]

close-Released : (conn : TlsConnection) → Accounted conn → Released (conn_close_tls conn)
unfolding conn_close_tls free_session
close-Released conn h = elim (Bool-cases conn.ssl) [
  | inl y ↦ (
    socket_close-no_fd conn.c,
    (rw (y, free_session) refl),
    (rw (y, free_session) (rw (y) at h ∙ omega arith)),
  )
  | inr n ↦ (
    socket_close-no_fd conn.c,
    (rw (n, free_session) refl),
    (rw (n, free_session) (rw (n) at h ∙ omega arith)),
  )
]

module _ (accepted : Sys ℕ) (ctx session : Bool) (handshake : ℤ) (errno : ℕ) (conn : TlsConnection)
    (Q : ℤ × TlsConnection → Type 0) where
  -- Without a session, or with one.
  abbrev before : TlsConnection
  before = record conn { c = (conn_socket_accept accepted conn.c).1; ssl = false }

  abbrev behind : TlsConnection
  behind = record conn {
    c = (conn_socket_accept accepted conn.c).1;
    ssl = true;
    made = suc conn.made;
  }

  accept-cases :
      conn.ssl ≡ false
      → ((r : ℤ) → Q (r, before))
      → ((r : ℤ) → Q (r, behind))
      → Q (conn_tls_accept accepted ctx session handshake errno conn)
  unfolding conn_tls_accept start_session
  accept-cases n h k =
      let r = conn_socket_accept accepted conn.c in
      let unset : record conn { c = r.1 } ≡ before = rw (n) refl in
      if-cases Q (ltb_ℤ r.0 (pos 0)) _ _
        (subst (λ d. Q (minus errno, d)) (sym unset) (h (minus errno)))
        (if-cases Q (not ctx) _ _ (subst (λ d. Q (minus einval, d)) (sym unset) (h (minus einval)))
          (if-cases Q (not session) _ _ (h (minus einval)) (
            if-cases Q (no_fd r.1) _ _ (k (minus einval))
              (if-cases Q (leb_ℤ handshake (pos 0)) _ _ (k (minus errno)) (k (pos 0))))))

-- A new connection that is closed behind `conn_tls_accept`, whatever that meets (a failing
-- accept, no context, no session, a failed handshake, or success), has no descriptor and no
-- session left: every session that was made was freed, and the descriptor was closed once if
-- there was one, and never if not.
pub conn_close_tls-Released :
    (port : ℤ) (addr : Bytes) (accepted : Sys ℕ) (ctx session : Bool) (handshake : ℤ) (errno : ℕ)
    → Released (
        conn_close_tls
          (conn_tls_accept accepted ctx session handshake errno (conn_tls_create port addr)).1)
      × ((conn_close_tls
            (conn_tls_accept accepted ctx session handshake errno
              (conn_tls_create port addr)).1).c.closed
          ≡ accepts accepted)
unfolding conn_close_tls conn_tls_create conn_socket_accept conn_socket_close
conn_close_tls-Released port addr accepted ctx session handshake errno =
    accept-cases accepted ctx session handshake errno (conn_tls_create port addr)
      (λ r. Released (conn_close_tls r.1) × ((conn_close_tls r.1).c.closed ≡ accepts accepted)) refl
      (λ r. (close-Released _ refl, closed accepted))
      (λ r. (close-Released _ refl, closed accepted))
  where
    closed :
        (accepted : Sys ℕ)
        → (conn_socket_close (conn_socket_accept accepted (conn_socket_create port addr)).1).closed
          ≡ accepts accepted
    closed (failed e) = refl
    closed (ok clifd) =
        let open_ : no_fd (conn_socket_accept (ok clifd) (conn_socket_create port addr)).1 ≡ false =
          ground arith in
        rw (open_, conn_socket_close) refl

-- Behind a shutdown a close frees no session again: the session is freed and the descriptor closed
-- as often as by a close alone.
pub conn_close_tls-conn_shutdown_tls :
    (conn : TlsConnection)
    → ((conn_close_tls (conn_shutdown_tls conn)).freed ≡ (conn_close_tls conn).freed)
      × ((conn_close_tls (conn_shutdown_tls conn)).c.closed ≡ (conn_close_tls conn).c.closed)
unfolding conn_close_tls conn_shutdown_tls free_session conn_socket_close conn_socket_shutdown
conn_close_tls-conn_shutdown_tls conn = (ground arith, ground arith)
