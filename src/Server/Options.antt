-- ===== src/Server/Options.antt =====
-- The configuration, and the options of the command line. `getopt_long` is the C library's: what it
-- answers, an option's letter and `optarg`, is a list.
pub mod Last
use atophttpd.Prelude.{
  ℕ, Bool, true, false, List, [], ◌∷◌, Option, none, some, ℤ, pos, negsuc, Bytes, codes, ◌==◌,
  if◌then◌else◌, Run, done, crash, ◌>>=◌,
}
use atophttpd.CString.{atol}
use atophttpd.Json.Lines.{to_int}

-- A `char *` is `none` where it is NULL.
pub record TlsContextConfig : Type 0 where
  pub tls_port : ℤ
  pub tls_addr : Option Bytes
  pub ca_cert_file : Option Bytes
  pub cert_file : Option Bytes
  pub key_file : Option Bytes

-- The listeners stand in Listeners.antt.
pub record Context : Type 0 where
  pub port : ℤ
  pub daemonmode : Bool
  pub addr : Option Bytes
  pub log_path : Option Bytes
  pub tls_ctx_config : TlsContextConfig

abbrev pub default_port : ℤ
default_port = pos 2867

abbrev pub default_tls_port : ℤ
default_tls_port = pos 2868

abbrev pub default_log_path : Bytes
default_log_path = codes "/var/log/atop"

abbrev pub default_cert_file : Bytes
default_cert_file = codes "/etc/pki/atophttpd/server.crt"

abbrev pub default_key_file : Bytes
default_key_file = codes "/etc/pki/atophttpd/server.key"

abbrev pub default_ca_file : Bytes
default_ca_file = codes "/etc/pki/CA/ca.crt"

-- `config`, as it is initialised.
abbrev pub default_config : Context
default_config = record {
  port = default_port;
  daemonmode = false;
  addr = some (codes "127.0.0.1");
  log_path = some default_log_path;
  tls_ctx_config = record {
    tls_port = negsuc 0;
    tls_addr = some (codes "::*");
    ca_cert_file = some default_ca_file;
    cert_file = some default_cert_file;
    key_file = some default_key_file;
  };
}

-- `config`, `__debug` and `hidecmdline`.
pub record Settings : Type 0 where
  pub config : Context
  pub debug : Bool
  pub hidecmdline : Bool

abbrev pub default_settings : Settings
default_settings = record { config = default_config; debug = false; hidecmdline = false }

-- `atoi` of the GNU library: the `int` with the low 32 bits of `strtol`.
abbrev pub atoi : Bytes → ℤ
atoi s = to_int (atol s)

-- `atoi(optarg)`, which reads through the pointer.
unfoldable pub atoi_optarg : Option Bytes → Run ℤ
atoi_optarg none = crash
atoi_optarg (some s) = done (atoi s)

-- What an option leads to: the next one, or a text and `exit(0)`.
pub data Turn : Type 0 where
  next : Settings → Turn
  showhelp showversion : Turn

abbrev with_config : Settings → Context → Run Turn
with_config s config = done (next (record s { config = config }))

abbrev with_tls : Settings → TlsContextConfig → Run Turn
with_tls s tls = with_config s (record s.config { tls_ctx_config = tls })

-- The `switch` of `main`.
unfoldable pub set_option : ℕ → Option Bytes → Settings → Run Turn
set_option ch optarg s =
    let config = s.config in
    let tls = s.config.tls_ctx_config in
    if ch == 0
    then done (next s)
    else if ch == b'd'
    then with_config s (record config { daemonmode = true })
    else if ch == b'D'
    then done (next (record s { debug = true }))
    else if ch == b'p'
    then (do n ← atoi_optarg optarg; with_config s (record config { port = n }))
    else if ch == b'a'
    then with_config s (record config { addr = optarg })
    else if ch == b'P'
    then with_config s (record config { log_path = optarg })
    else if ch == b't'
    then (elim optarg [
      | none ↦ with_tls s (record tls { tls_port = default_tls_port })
      | some text ↦ with_tls s (record tls { tls_port = atoi text })
    ])
    else if ch == b'A'
    then with_tls s (record tls { tls_addr = optarg })
    else if ch == b'C'
    then with_tls s (record tls { ca_cert_file = optarg })
    else if ch == b'c'
    then with_tls s (record tls { cert_file = optarg })
    else if ch == b'k'
    then with_tls s (record tls { key_file = optarg })
    else if ch == b'H'
    then done (next (record s { hidecmdline = true }))
    else if ch == b'V'
    then done showversion
    else done showhelp

-- The loop over what `getopt_long` answers, until its -1.
unfoldable pub read_options : List (ℕ × Option Bytes) → Settings → Run Turn
read_options [] s = done (next s)
read_options ((ch, optarg) ∷ rest) s = set_option ch optarg s >>= λ turn. elim turn [
  | next s' ↦ read_options rest s'
  | showhelp ↦ done showhelp
  | showversion ↦ done showversion
]
