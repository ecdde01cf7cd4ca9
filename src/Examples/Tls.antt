-- ===== src/Examples/Tls.antt =====
-- TLS connections at concrete inputs.
use atophttpd.Prelude.{
  ◌≡◌, refl, true, false, [], ◌∷◌, ◌++◌, none, some, pos, negsuc, ltb_ℤ, codes, if◌then◌else◌, done,
  crash,
}
use atophttpd.Atop.{ok, minus}
use atophttpd.Output.Bounds.{joined}
use atophttpd.Connection.Tls.{
  TlsConnection, Setup, conn_tls_create, tls_configure, conn_tls_accept, conn_close_tls,
  conn_writev_tls,
}
use atophttpd.Connection.Tls.Records.{is_three, conn_writev_tls_lem}
use atophttpd.Connection.Tls.Sessions.{
  all_succeed, owned, accepts, Released, tls_configure_lem, conn_close_tls-Released,
}

-- The private key is not that of the certificate.
abbrev wrong_key : Setup
wrong_key = record {
  cert_file = some (codes "server.crt");
  key_file = some (codes "server.key");
  ca_cert_file = some (codes "ca.crt");
  new_ctx = true;
  use_certificate = pos 1;
  use_private_key = pos 1;
  check_private_key = false;
  load_verify = pos 1;
  errno = 5;
}

tls_configure_lem_example :
    tls_configure wrong_key (owned true)
    ≡ (if all_succeed wrong_key then (pos 0, owned true) else (minus 5, owned true))
tls_configure_lem_example = tls_configure_lem wrong_key true

-- No `errno` is left by the missing name of a file: the failure is answered by 0.
no_certificate :
    tls_configure (record wrong_key { cert_file = none; errno = 0 }) (owned false)
    ≡ (pos 0, owned false)
unfolding tls_configure
no_certificate = refl

-- The handshake fails.
conn_close_tls-Released_example :
    Released (
      conn_close_tls
        (conn_tls_accept (ok 7) true true (negsuc 0) 104 (conn_tls_create (negsuc 0) [])).1)
    × ((conn_close_tls
          (conn_tls_accept
            (ok 7)
            true
            true
            (negsuc 0)
            104
            (conn_tls_create (negsuc 0) [])).1).c.closed
        ≡ accepts (ok 7))
conn_close_tls-Released_example =
    conn_close_tls-Released (negsuc 0) [] (ok 7) true true (negsuc 0) 104

abbrev in_session : TlsConnection
in_session = record {
  c = record { fd = pos 7; port = negsuc 0; bindaddr = []; closed = 0; shut = 0; output = [] };
  ssl = true;
  made = 1;
  freed = 0;
  records = [];
}

conn_writev_tls_lem_example :
    conn_writev_tls true (pos 6) 0 in_session (codes "ab" ∷ codes "cd" ∷ codes "ef" ∷ []) ≡ (
      if is_three (codes "ab" ∷ codes "cd" ∷ codes "ef" ∷ [])
      then done (
        (if ltb_ℤ (pos 6) (pos 0) then minus 0 else pos 6),
        record in_session {
          records = [] ++ joined (codes "ab" ∷ codes "cd" ∷ codes "ef" ∷ []) ∷ [];
        },
      )
      else crash)
conn_writev_tls_lem_example =
    conn_writev_tls_lem (pos 6) 0 in_session (codes "ab" ∷ codes "cd" ∷ codes "ef" ∷ []) refl
