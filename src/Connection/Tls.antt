-- ===== src/Connection/Tls.antt =====
-- tls.c: connections over TLS. What OpenSSL and the system answer is an argument: a context, a
-- session that is not NULL, the numbers that `SSL_accept` and `SSL_write` return, and `errno`.
pub mod Sessions
pub mod Records
use atophttpd.Prelude.{
  ℕ, suc, ◌+◌, ◌-◌, Bool, true, false, not, ◌&&◌, List, [], ◌∷◌, ◌++◌, Option, none, some, ℤ, pos,
  leb, leb_ℤ, ltb_ℤ, Bytes, if◌then◌else◌, length, get_elem?, Run, done, crash, ◌>>=◌, ◌>>◌, assert,
  cell,
}
use atophttpd.Atop.{Sys, ok, failed, minus, einval, enomem}
use atophttpd.Connection.Socket.{
  Socket, no_fd, conn_socket_create, conn_socket_accept, conn_socket_shutdown, conn_socket_close,
}

-- `ssl` is not NULL; the sessions that were made and freed for the connection; and what was handed
-- to `SSL_write`.
pub record TlsConnection : Type 0 where
  pub c : Socket
  pub ssl : Bool
  pub made : ℕ
  pub freed : ℕ
  pub records : List Bytes

unfoldable pub conn_tls_create : ℤ → Bytes → TlsConnection
conn_tls_create port addr = record {
  c = conn_socket_create port addr;
  ssl = false;
  made = 0;
  freed = 0;
  records = [];
}

-- `tls_ctx` is not NULL, and the contexts that are allocated.
pub record Contexts : Type 0 where
  pub tls_ctx : Bool
  pub live : ℕ

-- What the calls of `tls_configure` answer, in order.
pub record Setup : Type 0 where
  pub cert_file : Option Bytes
  pub key_file : Option Bytes
  pub ca_cert_file : Option Bytes
  pub new_ctx : Bool
  pub use_certificate : ℤ
  pub use_private_key : ℤ
  pub check_private_key : Bool
  pub load_verify : ℤ
  pub errno : ℕ

abbrev free_ctx : Bool → Contexts → Contexts
free_ctx true s = record s { live = s.live - 1 }
free_ctx false s = s

abbrev is_given : Option Bytes → Bool
is_given none = false
is_given (some name) = true

unfoldable pub tls_configure : Setup → Contexts → ℤ × Contexts
tls_configure p s =
    let error : ℤ × Contexts = (minus p.errno, s) in
    let made : Contexts = record s { live = suc s.live } in
    let undo : ℤ × Contexts = (minus p.errno, free_ctx true made) in
    if not (is_given p.cert_file)
    then error
    else if not (is_given p.key_file)
    then error
    else if not (is_given p.ca_cert_file)
    then error
    else if not p.new_ctx
    then error
    else if leb_ℤ p.use_certificate (pos 0)
    then undo
    else if leb_ℤ p.use_private_key (pos 0)
    then undo
    else if not p.check_private_key
    then undo
    else if leb_ℤ p.load_verify (pos 0)
    then undo
    else (pos 0, record (free_ctx s.tls_ctx made) { tls_ctx = true })

unfoldable pub tls_cleanup : Contexts → Contexts
tls_cleanup s = if s.tls_ctx then record (free_ctx true s) { tls_ctx = false } else s

-- The session and the handshake.
unfoldable pub start_session : Bool → ℤ → ℕ → TlsConnection → ℤ × TlsConnection
start_session session handshake errno conn =
    let started : TlsConnection = record conn { ssl = true; made = suc conn.made } in
    if not session
    then (minus einval, record conn { ssl = false })
    else if no_fd conn.c
    then (minus einval, started)
    else if leb_ℤ handshake (pos 0)
    then (minus errno, started)
    else (pos 0, started)

unfoldable pub conn_tls_accept : Sys ℕ → Bool → Bool → ℤ → ℕ → TlsConnection → ℤ × TlsConnection
conn_tls_accept accepted ctx session handshake errno conn =
    let r = conn_socket_accept accepted conn.c in
    let conn' : TlsConnection = record conn { c = r.1 } in
    if ltb_ℤ r.0 (pos 0)
    then (minus errno, conn')
    else if not ctx
    then (minus einval, conn')
    else start_session session handshake errno conn'

unfoldable pub free_session : TlsConnection → TlsConnection
free_session conn = if conn.ssl then record conn { ssl = false; freed = suc conn.freed } else conn

unfoldable pub conn_shutdown_tls : TlsConnection → TlsConnection
conn_shutdown_tls conn = record (free_session conn) { c = conn_socket_shutdown conn.c }

unfoldable pub conn_close_tls : TlsConnection → TlsConnection
conn_close_tls conn = record (free_session conn) { c = conn_socket_close conn.c }

unfoldable pub conn_write_tls : ℤ → ℕ → TlsConnection → Bytes → ℤ × TlsConnection
conn_write_tls ret errno conn data_ = if not conn.ssl then (minus einval, conn) else (
  (if ltb_ℤ ret (pos 0) then minus errno else pos 0),
  record conn { records = conn.records ++ data_ ∷ [] },
)

-- The size of the buffer: three parts are counted, however many there are.
unfoldable pub iov_bytes_len : List Bytes → Run ℕ
iov_bytes_len iov = do
  a ← cell (get_elem? iov 0)
  b ← cell (get_elem? iov 1)
  c ← cell (get_elem? iov 2)
  done (length a + length b + length c)

-- Every part is copied behind the others; `out` is what the buffer of that size holds.
unfoldable pub copy_iov : ℕ → List Bytes → Bytes → Run Bytes
copy_iov size [] out = done out
copy_iov size (part ∷ iov) out = do
  assert (leb (length out + length part) size)
  copy_iov size iov (out ++ part)

unfoldable pub conn_writev_tls : Bool → ℤ → ℕ → TlsConnection → List Bytes → Run (ℤ × TlsConnection)
conn_writev_tls allocated ret errno conn iov =
    if not conn.ssl then done (minus einval, conn) else do
      size ← iov_bytes_len iov
      if not allocated then done (minus enomem, conn) else do
        ssl_buf ← copy_iov size iov []
        done (
          (if ltb_ℤ ret (pos 0) then minus errno else ret),
          record conn { records = conn.records ++ ssl_buf ∷ [] },
        )

-- A session that is at its end is answered by the `errno` that is left.
unfoldable pub conn_read_tls : TlsConnection → ℤ → ℕ → ℤ
conn_read_tls conn ret errno =
    if not conn.ssl then minus einval else (if leb_ℤ ret (pos 0) then minus errno else ret)
