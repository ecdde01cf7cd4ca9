-- ===== src/Connection/Bind.antt =====
-- `conn_socket_listen` of socket.c, and what `listen_to_port` of connection.c asks `getaddrinfo`,
-- which is an argument.
use atophttpd.Prelude.{
  Bool, ◌||◌, List, Option, none, some, ℤ, pos, negsuc, eqb_ℤ, Bytes, codes, str_eq, ◌==◌,
  if◌then◌else◌, length, take, Run, done, crash, ◌>>=◌,
}
use atophttpd.CString.{from_char, print_int}
use atophttpd.Atop.{minus, einval}
use atophttpd.Connection.Listen.{Attempt, bad, listen_to_port}

-- AF_INET and AF_INET6
pub data Family : Type 0 where
  inet inet6 : Family

-- The arguments of `getaddrinfo`: `none` is NULL.
pub record Query : Type 0 where
  pub node : Option Bytes
  pub service : Bytes
  pub family : Family

abbrev any_address : Family → Bytes → Bool
any_address inet bindaddr = str_eq (codes "*") bindaddr
any_address inet6 bindaddr = str_eq (codes "*") bindaddr || str_eq (codes "::*") bindaddr

-- The port is printed into 6 bytes.
unfoldable pub query : ℤ → Bytes → Family → Query
query port bindaddr af = record {
  node = if any_address af bindaddr then none else some bindaddr;
  service = take 5 (print_int port);
  family = af;
}

-- A connection that listens: `bindaddr` is `none` where it is NULL.
pub record Listener : Type 0 where
  pub port : ℤ
  pub bindaddr : Option Bytes
  pub fd : ℤ

-- `strchr(bindaddr, ':')`
unfoldable pub family_of : Bytes → Family
family_of bindaddr = if length (from_char b':' bindaddr) == 0 then inet else inet6

unfoldable pub conn_socket_listen : (Query → Option (List Attempt)) → Listener → Run (ℤ × Listener)
conn_socket_listen getaddrinfo listener =
    if eqb_ℤ listener.port (negsuc 0)
    then done (minus einval, listener)
    else (elim listener.bindaddr [
      | none ↦ crash
      | some addr ↦ do
        fds ← listen_to_port (getaddrinfo (query listener.port addr (family_of addr)))
        done (
            if bad fds.sockfd
            then (minus einval, listener)
            else (pos 0, record listener { fd = fds.sockfd }))
    ])
