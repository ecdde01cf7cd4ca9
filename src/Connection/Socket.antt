-- ===== src/Connection/Socket.antt =====
-- socket.c: plain TCP connections. `closed` and `shut` count the calls of `close` and `shutdown` for the
-- connection, and `output` is what was handed to `write` and `writev`, however much of it they take:
-- what they answer is left out, since no caller looks at it.
use atophttpd.Prelude.{
  ℕ, suc, ◌≡◌, refl, ap, Bool, true, false, not, List, [], ◌∷◌, ◌++◌, ℤ, pos, negsuc, eqb_ℤ, leb_ℤ,
  Bytes, if◌then◌else◌,
}
use atophttpd.Atop.{Sys, ok, failed, minus, einval}
use atophttpd.Connection.{Transport}

pub record Socket : Type 0 where
  pub fd : ℤ
  pub port : ℤ
  pub bindaddr : Bytes
  pub closed : ℕ
  pub shut : ℕ
  pub output : List Bytes

abbrev pub no_fd : Socket → Bool
no_fd conn = eqb_ℤ conn.fd (negsuc 0)

abbrev pub conn_socket_create : ℤ → Bytes → Socket
conn_socket_create port addr = record {
  fd = negsuc 0;
  port = port;
  bindaddr = addr;
  closed = 0;
  shut = 0;
  output = [];
}

-- What `accept` answers becomes the descriptor.
unfoldable pub conn_socket_accept : Sys ℕ → Socket → ℤ × Socket
conn_socket_accept accepted conn = elim accepted [
  | failed e ↦ (minus e, conn)
  | ok clifd ↦ (pos 0, record conn { fd = pos clifd })
]

unfoldable pub conn_socket_shutdown : Socket → Socket
conn_socket_shutdown conn = if no_fd conn then conn else record conn { shut = suc conn.shut }

unfoldable pub conn_socket_close : Socket → Socket
conn_socket_close conn =
    if no_fd conn then conn else record conn { fd = negsuc 0; closed = suc conn.closed }

unfoldable pub conn_socket_write : Socket → Bytes → Socket
conn_socket_write conn data_ =
    if no_fd conn then conn else record conn { output = conn.output ++ data_ ∷ [] }

unfoldable pub conn_socket_writev : Socket → List Bytes → Socket
conn_socket_writev conn iov =
    if no_fd conn then conn else record conn { output = conn.output ++ iov }

-- The result for what `read` answers and the `errno` it leaves. A read of nothing, at the end of
-- the stream, is answered by the `errno` that is left.
unfoldable pub conn_socket_read : Socket → ℤ → ℕ → ℤ
conn_socket_read conn ret errno =
    if no_fd conn then minus einval else (if leb_ℤ ret (pos 0) then minus errno else ret)

not-false : (b : Bool) → not b ≡ true → b ≡ false
not-false false h = refl
not-false true h = absurd (cc h)

pub not-true : (b : Bool) → not b ≡ false → b ≡ true
not-true true h = refl
not-true false h = absurd (cc h)

-- The laws of a connection.
pub socket_close_open :
    (c : Socket)
    → not (no_fd c) ≡ true
    → (not (no_fd (conn_socket_close c)) ≡ false)
      × ((conn_socket_close c).closed ≡ suc c.closed)
      × ((conn_socket_close c).output ≡ c.output)
unfolding conn_socket_close
socket_close_open c h = rw (not-false (no_fd c) h, conn_socket_close) (refl, refl, refl)

pub socket_close_closed : (c : Socket) → not (no_fd c) ≡ false → conn_socket_close c ≡ c
unfolding conn_socket_close
socket_close_closed c h = rw (not-true (no_fd c) h, conn_socket_close) refl

pub socket_writev_open :
    (c : Socket) (iov : List Bytes)
    → not (no_fd c) ≡ true
    → (not (no_fd (conn_socket_writev c iov)) ≡ true)
      × ((conn_socket_writev c iov).closed ≡ c.closed)
      × ((conn_socket_writev c iov).output ≡ c.output ++ iov)
unfolding conn_socket_writev
socket_writev_open c iov h =
    let e = not-false (no_fd c) h in rw (e, conn_socket_writev) (ap not e, refl, refl)

pub socket_writev_closed :
    (c : Socket) (iov : List Bytes) → not (no_fd c) ≡ false → conn_socket_writev c iov ≡ c
unfolding conn_socket_writev
socket_writev_closed c iov h = rw (not-true (no_fd c) h, conn_socket_writev) refl

pub socket_write_open :
    (c : Socket) (data_ : Bytes)
    → not (no_fd c) ≡ true
    → (not (no_fd (conn_socket_write c data_)) ≡ true)
      × ((conn_socket_write c data_).closed ≡ c.closed)
      × ((conn_socket_write c data_).output ≡ c.output ++ data_ ∷ [])
unfolding conn_socket_write conn_socket_writev
socket_write_open c data_ h = socket_writev_open c (data_ ∷ []) h

pub socket_write_closed :
    (c : Socket) (data_ : Bytes) → not (no_fd c) ≡ false → conn_socket_write c data_ ≡ c
unfolding conn_socket_write conn_socket_writev
socket_write_closed c data_ h = socket_writev_closed c (data_ ∷ []) h

-- The TCP connections of the server.
abbrev pub sockets : Transport
sockets = record {
  Conn = Socket;
  is_open = λ c. not (no_fd c);
  closes = λ c. c.closed;
  sent = λ c. c.output;
  close = conn_socket_close;
  write = conn_socket_write;
  writev = conn_socket_writev;
  close_open = socket_close_open;
  close_closed = socket_close_closed;
  write_open = socket_write_open;
  writev_open = socket_writev_open;
  write_closed = socket_write_closed;
  writev_closed = socket_writev_closed;
}
