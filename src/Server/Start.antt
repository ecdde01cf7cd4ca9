-- ===== src/Server/Start.antt =====
-- `main`: the options, the first parse of the folder, the start, and the loop; and what becomes of
-- the program as a whole.
pub mod Runs
use atophttpd.Prelude.{
  ℕ, Bool, false, not, List, [], Option, none, some, ℤ, pos, negsuc, eqb_ℤ, Bytes, if◌then◌else◌,
  Run, done, crash, ◌>>=◌, refl,
}
use mathlib.Core.Option
use atophttpd.Qsort.{Qsort}
use atophttpd.Cache.{Cache}
use atophttpd.Atop.{Atop, FileSystem, Sys}
use atophttpd.Output.{Output, buf}
use atophttpd.Output.Ready.{IsReady}
use atophttpd.Rawlog.{rawlog_parse_all}
use atophttpd.Rawlog.Fetch.{Format}
use atophttpd.Http.Routes.{Assets}
use atophttpd.Http.Update.{Updated}
use atophttpd.Connection.Socket.{Socket}
use atophttpd.Connection.Listen.{Attempt}
use atophttpd.Connection.Bind.{Query, Listener}
use atophttpd.Connection.Tls.{Contexts, Setup}
use atophttpd.Json.Lines.{Env}
use atophttpd.Server.Options.{Settings, default_settings, next, showhelp, showversion, read_options}
use atophttpd.Server.Samples.{Decoder}
use atophttpd.Server.Loop.{Round, Serving, serve}
use atophttpd.Server.Listeners.{ConnType, conntype_initialize, exited, listening, httpd}

-- What the system answers while the program starts: the options, the folder and its files, the
-- addresses, epoll, OpenSSL, and `errno`.
pub record Begin : Type 0 where
  pub opts : List (ℕ × Option Bytes)
  pub fs : FileSystem
  pub opendir : Bytes → Sys (List (Bool × Bytes))
  pub getaddrinfo : Query → Option (List Attempt)
  pub epoll_create1 : ℤ
  pub epoll_ctl : ConnType × Listener → ℤ
  pub answers : Setup
  pub errno : ℕ

-- The program ends with a number, or comes to its loop.
pub data Begun : Type 0 where
  quits : ℤ → Begun
  ready : Settings → Bytes → List Cache → List (ConnType × Listener) → Begun

abbrev pub no_contexts : Contexts
no_contexts = record { tls_ctx = false; live = 0 }

-- `defop` before the first sample.
abbrev pub defop : Output
defop = record { output_type = buf; allocated = false; size = 0; contents = []; written = [] }

pub defop-IsReady : IsReady defop
defop-IsReady = (
  record {
    is_buf = refl;
    fresh = λ h. refl;
    inside = λ h. absurd (cc h);
    enough = λ h. absurd (cc h);
  },
  refl,
)

-- The state of the loop before the first connection.
abbrev pub started_with : List Cache → Serving
started_with table = record {
  indices = record { update = 0; table = table };
  op = defop;
  ready = defop-IsReady;
}

-- The globals, with `hidecmdline` as the options say.
abbrev pub env_of : Env → Settings → Env
env_of env s = record env { hidecmdline = s.hidecmdline }

module _ (a : Atop) (q : Qsort) where
  -- The part of `main` behind the options: the path of the logs is tested, and the folder is parsed.
  -- The build is the default one, without USE_TLS.
  unfoldable pub start_server : Begin → Settings → Option Bytes → Run Begun
  start_server b s none = done (quits (negsuc 0))
  start_server b s (some log_path) = rawlog_parse_all a q b.fs b.opendir log_path [] >>= λ parsed.
      if not (eqb_ℤ parsed.0 (pos 0))
      then done (quits (negsuc 0))
      else (httpd b.getaddrinfo b.epoll_create1 b.epoll_ctl (conntype_initialize false b.errno [])
            s.config b.answers no_contexts
          >>= λ started. elim started.0 [
            | exited n ↦ done (quits (pos n))
            | listening ls ↦ done (ready s log_path parsed.1 ls)
          ])

  unfoldable pub main : Begin → Run Begun
  main b = read_options b.opts default_settings >>= λ turn. elim turn [
    | showhelp ↦ done (quits (pos 0))
    | showversion ↦ done (quits (pos 0))
    | next s ↦ start_server b s s.config.log_path
  ]

  module _ (env : Env) (fmt : Format) (dec : Decoder fmt) (assets : Assets) where
    -- The number that the program ends with, if it does, and the connections that it had. In a build
    -- without USE_TLS every listener is one of TCP, and so are the connections of the loop.
    unfoldable pub run : Begin → List Round → Run (Option ℤ × List Socket)
    run b rounds = main b >>= λ begun. elim begun [
      | quits n ↦ done (some n, [])
      | ready s log_path table ls ↦
          serve a q (env_of env s) fmt dec assets log_path rounds (started_with table)
          >>= λ stopped. done (Option.map pos stopped.exit, stopped.conns)
    ]
