-- ===== src/Examples/Program.antt =====
-- The options, the start of the server, and the program as a whole.
use mathlib.Core.Option.{some-injective}
use atophttpd.Prelude.{
  ℤ, ◌≡◌, refl, sym, true, [], ◌∷◌, none, some, pos, codes, map, Returns, done, ◌⊎◌, All,
}
use atophttpd.Atop.{ok}
use atophttpd.Connection.Socket.{no_fd}
use atophttpd.Connection.Tls.{Setup}
use atophttpd.Server.Start.{Begin, run}
use atophttpd.Server.Start.Runs.{run-Ended}
use atophttpd.Server.Options.{
  Context, default_config, default_tls_port, default_settings, read_options,
}
use atophttpd.Server.Options.Last.{settings_of, outcome, read_options_lem}
use atophttpd.Examples.Accepted.{assets}
use atophttpd.Examples.Files.{atop, files}
use atophttpd.Examples.Sorter.{sorter}
use atophttpd.Examples.Sample.{small_env}
use atophttpd.Examples.Loop.{
  no_tasks, decoder, rounds, rounds-AreSound, files-AreLogs, one-NamesFit,
}

read_options_lem_example :
    read_options
      ((b'p', some (codes "80")) ∷ (b't', none) ∷ (b'p', some (codes "8080")) ∷ (b'H', none) ∷ [])
      default_settings
    ≡ done (
        outcome
          ((b'p', some (codes "80"))
            ∷ (b't', none)
            ∷ (b'p', some (codes "8080"))
            ∷ (b'H', none)
            ∷ [])
          default_settings)
read_options_lem_example =
    read_options_lem
      ((b'p', some (codes "80")) ∷ (b't', none) ∷ (b'p', some (codes "8080")) ∷ (b'H', none) ∷ [])
      default_settings
      (
        λ e. (codes "80", refl),
        (λ e. absurd (cc e), (λ e. (codes "8080", refl), (λ e. absurd (cc e), tt))),
      )

-- Every step of OpenSSL succeeds.
abbrev openssl_good : Setup
openssl_good = record {
  cert_file = none;
  key_file = none;
  ca_cert_file = none;
  new_ctx = true;
  use_certificate = pos 1;
  use_private_key = pos 1;
  check_private_key = true;
  load_verify = pos 1;
  errno = 5;
}

abbrev both_ports : Context
both_ports = record default_config {
  tls_ctx_config = record default_config.tls_ctx_config { tls_port = default_tls_port };
}

-- The loopback address for TCP; TLS is off.
abbrev first_answers : Begin
first_answers = record {
  opts = (b'P', some (codes "logs")) ∷ (b'p', some (codes "8080")) ∷ [];
  fs = files;
  opendir = λ path. ok ((true, codes "log") ∷ []);
  getaddrinfo = λ asked. some (
      record { socket = pos 3; reuseaddr = pos 0; reuseport = pos 0; bind = pos 0; listen = pos 0 }
      ∷ []);
  epoll_create1 = pos 4;
  epoll_ctl = λ l. pos 0;
  answers = openssl_good;
  errno = 0;
}

run-Ended_example :
    Returns (run atop sorter small_env no_tasks decoder assets first_answers rounds) (λ r.
      All (λ c. no_fd c ≡ true) r.1
      × ((((n : ℤ) × (r.0 ≡ some n)) × (r.1 ≡ []))
          ⊎ ((r.0 ≡ some (pos 1)) × (map (λ c. c.closed) r.1 ≡ 1 ∷ 1 ∷ 0 ∷ []))))
unfolding settings_of
run-Ended_example =
    run-Ended atop sorter first_answers ((λ e. absurd (cc e)), ((λ e. (codes "8080", refl)), tt))
      (λ asked. (
        record {
          socket = pos 3;
          reuseaddr = pos 0;
          reuseport = pos 0;
          bind = pos 0;
          listen = pos 0;
        }
            ∷ [],
        refl,
      ))
      (codes "127.0.0.1", refl) (codes "::*", refl) files-AreLogs
      (λ path e. rw (sym (some-injective _ _ e)) one-NamesFit) small_env no_tasks decoder assets
      rounds (λ path e. rw (sym (some-injective _ _ e)) rounds-AreSound)
