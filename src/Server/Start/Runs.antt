-- ===== src/Server/Start/Runs.antt =====
-- The program as a whole.
use atophttpd.Prelude.{
  ◌≡◌, ◌⊎◌, refl, sym, ap, subst, inl, inr, true, false, not, ◌&&◌, ◌||◌, ◌==◌, List, [], ◌∷◌, ◌++◌,
  map, Option, none, some, ℤ, pos, negsuc, ltb_ℤ, eqb_ℤ, Bytes, All, done, ◌>>=◌, Returns,
  Returns-bind, Returns-if, Bool-cases,
}
use mathlib.Core.Option
use atophttpd.Qsort.{Qsort}
use atophttpd.Cache.{Cache}
use atophttpd.Atop.{Atop}
use atophttpd.Rawlog.{rawlog_parse_all}
use atophttpd.Rawlog.Fetch.{Format}
use atophttpd.Rawlog.Followed.{NamesFit, AreLogs, Follows}
use atophttpd.Rawlog.Followed.Folder.{rawlog_parse_all-Follows}
use atophttpd.Http.Routes.{Assets}
use atophttpd.Connection.Socket.{Socket, no_fd}
use atophttpd.Connection.Listen.{Attempt, listen_to_port}
use atophttpd.Connection.Bind.{Query, Listener, query, family_of, conn_socket_listen}
use atophttpd.Connection.Tls.{Contexts}
use atophttpd.Json.Lines.{Env}
use atophttpd.Server.Options.{Context, Settings, default_settings, showhelp, showversion}
use atophttpd.Server.Options.Last.{
  Answer, HasNumber, is_setting, first_quit, settings_of, read_options_lem,
}
use atophttpd.Server.Samples.{Decoder}
use atophttpd.Server.Loop.{Round, serve}
use atophttpd.Server.Loop.Closed.{AreSound, closes_of, exit_of, serve-Served}
use atophttpd.Server.Listeners.{ConnType, conntype_initialize, Started, exited, listening, httpd}
use atophttpd.Server.Listeners.Wanted.{wanted, configured, listen_all, httpd_lem}
use atophttpd.Server.Start.{
  Begin, Begun, quits, ready, no_contexts, start_server, main, env_of, started_with, run,
}

-- An address that is not NULL.
abbrev pub IsGiven : Option Bytes → Type 0
IsGiven addr = (text : Bytes) × (addr ≡ some text)

-- Listeners whose addresses are given.
abbrev AreGiven : List (ConnType × Listener) → Type 0
AreGiven = All (λ l. IsGiven l.1.bindaddr)

module _ (getaddrinfo : Query → Option (List Attempt))
    (found : (asked : Query) → (xs : List Attempt) × (getaddrinfo asked ≡ some xs))
    (epoll_create1 : ℤ) (epoll_ctl : ConnType × Listener → ℤ) where
  conn_socket_listen-Returns :
      (l : Listener) → IsGiven l.bindaddr → Returns (conn_socket_listen getaddrinfo l) (λ r. Unit)
  unfolding conn_socket_listen listen_to_port
  conn_socket_listen-Returns l (addr, e) =
      let (xs, k) = found (query l.port addr (family_of addr)) in
      Returns-if _ (eqb_ℤ l.port (negsuc 0)) _ _ tt (rw (e, k, listen_to_port) tt)

  listen_all-Returns :
      (ls opened : List (ConnType × Listener))
      → AreGiven ls
      → Returns (listen_all getaddrinfo epoll_create1 epoll_ctl ls opened) (λ s. Unit)
  unfolding listen_all
  listen_all-Returns [] [] h = tt
  listen_all-Returns [] (r ∷ rs) h = tt
  listen_all-Returns ((type, l) ∷ ls) opened h =
      Returns-bind _ _ (conn_socket_listen getaddrinfo l) _ (conn_socket_listen-Returns l h.0)
        (λ r u. Returns-if _ (ltb_ℤ r.0 (pos 0)) _ _ tt (
          Returns-if _ (not (eqb_ℤ (epoll_ctl (type, r.1)) (pos 0))) _ _ tt
            (listen_all-Returns ls (opened ++ (type, r.1) ∷ []) h.1)))

  wanted-AreGiven :
      (ctx : Context)
      → IsGiven ctx.addr
      → IsGiven ctx.tls_ctx_config.tls_addr
      → AreGiven (wanted ctx)
  wanted-AreGiven ctx h k = elim (Bool-cases (ltb_ℤ (pos 0) ctx.port)) [
    | inl y ↦ elim (Bool-cases (ltb_ℤ (pos 0) ctx.tls_ctx_config.tls_port)) [
      | inl z ↦ rw (y, z) (h, (k, tt))
      | inr z ↦ rw (y, z) (h, tt)
    ]
    | inr y ↦ elim (Bool-cases (ltb_ℤ (pos 0) ctx.tls_ctx_config.tls_port)) [
      | inl z ↦ rw (y, z) (k, tt)
      | inr z ↦ rw (y, z) tt
    ]
  ]

-- An option that ends the program prints a text.
quit-cases :
    (opts : List Answer)
    → (first_quit opts ≡ none)
      ⊎ ((first_quit opts ≡ some showhelp) ⊎ (first_quit opts ≡ some showversion))
quit-cases [] = inl refl
quit-cases ((ch, optarg) ∷ rest) = elim (Bool-cases (is_setting ch)) [
  | inl y ↦ rw (y) (quit-cases rest)
  | inr n ↦ elim (Bool-cases (ch == b'V')) [
    | inl v ↦ rw (n, v) (inr (inr refl))
    | inr v ↦ rw (n, v) (inr (inl refl))
  ]
]

module _ (a : Atop) (q : Qsort) (b : Begin) (numbers : All HasNumber b.opts)
    (found : (asked : Query) → (xs : List Attempt) × (b.getaddrinfo asked ≡ some xs)) where
  -- What the options say.
  abbrev pub chosen : Settings
  chosen = settings_of b.opts default_settings

  module _ (addr : IsGiven chosen.config.addr)
      (tls_addr : IsGiven chosen.config.tls_ctx_config.tls_addr) (logs : AreLogs a b.fs)
      (names : (log_path : Bytes)
        → chosen.config.log_path ≡ some log_path
        → NamesFit b.opendir log_path) where
    -- The loop is reached with the settings, and with the indices of the files.
    abbrev IsReady : Begun → Type 0
    IsReady (quits n) = Unit
    IsReady (ready s log_path table ls) =
        (s ≡ chosen) × (chosen.config.log_path ≡ some log_path) × All (Follows a b.fs) table

    httpd-Returns :
        (contexts : Contexts)
        → Returns
            (httpd b.getaddrinfo b.epoll_create1 b.epoll_ctl
              (conntype_initialize false b.errno [])
              chosen.config
              b.answers
              contexts)
            (λ r. Unit)
    httpd-Returns contexts =
        let c = configured chosen.config b.answers contexts in
        rw
          (httpd_lem b.getaddrinfo b.epoll_create1 b.epoll_ctl false b.errno chosen.config b.answers
            contexts)
          (Returns-if _ (ltb_ℤ (pos 0) chosen.config.tls_ctx_config.tls_port && not false) _ _ tt (
            Returns-if _ (ltb_ℤ c.0 (pos 0) || ltb_ℤ b.epoll_create1 (pos 0)) _ _ tt (
              Returns-bind _ _
                (listen_all b.getaddrinfo b.epoll_create1 b.epoll_ctl (wanted chosen.config) []) _
                (listen_all-Returns b.getaddrinfo found b.epoll_create1 b.epoll_ctl
                  (wanted chosen.config) []
                  (wanted-AreGiven b.getaddrinfo found b.epoll_create1 b.epoll_ctl chosen.config
                    addr tls_addr))
                (λ s u. u))))

    start_server-IsReady :
        (log_path : Option Bytes)
        → chosen.config.log_path ≡ log_path
        → Returns (start_server a q b chosen log_path) IsReady
    unfolding start_server
    start_server-IsReady none e = tt
    start_server-IsReady (some log_path) e =
        Returns-bind _ _ (rawlog_parse_all a q b.fs b.opendir log_path []) _
          (rawlog_parse_all-Follows a q b.fs logs b.opendir log_path [] (names log_path e) tt)
          (λ parsed follows. Returns-if _ (not (eqb_ℤ parsed.0 (pos 0))) _ _ tt (
            Returns-bind _ _
              (httpd b.getaddrinfo b.epoll_create1 b.epoll_ctl
                (conntype_initialize false b.errno []) chosen.config b.answers no_contexts)
              _ (httpd-Returns no_contexts)
              (λ started u. Started-cases started.0 log_path parsed.1 e follows.0)))
      where
        Started-cases :
            (started : Started) (path : Bytes) (table : List Cache)
            → chosen.config.log_path ≡ some path
            → All (Follows a b.fs) table
            → Returns
                (elim started [
                  | exited n ↦ done (quits (pos n))
                  | listening ls ↦ done (ready chosen path table ls)
                ])
                IsReady
        Started-cases (exited n) path table e h = tt
        Started-cases (listening ls) path table e h = (refl, e, h)

    main-IsReady : Returns (main a q b) IsReady
    unfolding main
    main-IsReady =
        rw (read_options_lem b.opts default_settings numbers, main)
          (elim (quit-cases b.opts) [
            | inr (inl e) ↦ rw (e) tt
            | inr (inr e) ↦ rw (e) tt
            | inl e ↦ rw (e) (start_server-IsReady chosen.config.log_path refl)
          ])

    module _ (env : Env) (fmt : Format) (dec : Decoder fmt) (assets : Assets) (rounds : List Round)
        (sound : (log_path : Bytes)
          → chosen.config.log_path ≡ some log_path
          → AreSound a (env_of env chosen) fmt dec log_path b.fs rounds) where
      -- The end of the program: before its loop, without a connection, or as the loop ends.
      abbrev pub Ended : Option ℤ × List Socket → Type 0
      Ended r =
          All (λ c. no_fd c ≡ true) r.1
          × ((((n : ℤ) × (r.0 ≡ some n)) × (r.1 ≡ []))
              ⊎ ((r.0 ≡ Option.map pos (exit_of rounds))
                  × (map (λ c. c.closed) r.1 ≡ closes_of rounds)))

      -- In the default build, without USE_TLS: when `-p` has its argument, the addresses are not
      -- NULL and `getaddrinfo` finds addresses; when no call on a file that can be opened at the start
      -- fails, no read among them, these files are logs of at most 2^30 records in order of time, and
      -- no name of the folder is too long for its buffer; and when the visits of the loop are sound
      -- (the conditions of `IsSound`): the program never crashes, whatever else the system answers. It
      -- ends before its loop, without a connection, or as the loop does: every connection that is
      -- accepted is closed, exactly once, and has no descriptor when it is freed.
      pub run-Ended : Returns (run a q env fmt dec assets b rounds) Ended
      unfolding run
      run-Ended = Returns-bind _ _ (main a q b) _ main-IsReady ended
        where
          ended :
              (g : Begun)
              → IsReady g
              → Returns
                  (elim g [
                    | quits n ↦ done (some n, [])
                    | ready s log_path table ls ↦
                        serve a q (env_of env s) fmt dec assets log_path rounds (started_with table)
                        >>= λ stopped. done (Option.map pos stopped.exit, stopped.conns)
                  ])
                  Ended
          ended (quits n) h = (tt, inl ((n, refl), refl))
          ended (ready s log_path table ls) (same, path, follows) =
              let sound' =
                subst (λ x. AreSound a (env_of env x) fmt dec log_path b.fs rounds) (sym same)
                  (sound log_path path) in
              Returns-bind _ _
                (serve a q (env_of env s) fmt dec assets log_path rounds (started_with table)) _
                (serve-Served a (env_of env s) fmt dec log_path q assets b.fs rounds
                  (started_with table) sound' follows)
                (λ stopped (exit, counted, freed). (freed, inr (ap (Option.map pos) exit, counted)))
