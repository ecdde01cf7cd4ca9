-- ===== src/Server/Listeners/Wanted.antt =====
-- Which listeners the server opens.
use atophttpd.Prelude.{
  ℕ, ◌≡◌, ◌∙◌, refl, sym, subst, inl, inr, Bool, true, false, not, ◌&&◌, ◌||◌, List, [], ◌∷◌, ◌++◌,
  Option, none, some, ℤ, pos, ltb_ℤ, eqb_ℤ, if◌then◌else◌, Run, done, ◌>>=◌, >>=-cong, set,
  replicate, append-nil, Bool-cases, str_eq,
}
use atophttpd.Connection.Registry.{
  conntype_register, get_conntype_by_name, get_conntype_index_by_name, find_conntype, str_case_eq,
  to_lower,
}
use atophttpd.Connection.Listen.{Attempt}
use atophttpd.Connection.Bind.{Query, Listener, conn_socket_listen}
use atophttpd.Connection.Tls.{Contexts, Setup, tls_configure}
use atophttpd.Server.Options.{Context}
use atophttpd.Server.Listeners.{
  ConnType, socket_type, tls_type, get_type, register_conntype_tls, conntype_initialize, Slot,
  no_listeners, Started, exited, listening, conn_create, conn_type_socket, conn_type_tls, setup_of,
  add_listener, conn_listen, open_listeners, start_routine, start_tls, httpd,
}

-- The listeners that a configuration asks for, in the order in which they are opened.
abbrev pub wanted : Context → List (ConnType × Listener)
wanted ctx =
    (if ltb_ℤ (pos 0) ctx.port then conn_create socket_type ctx.port ctx.addr ∷ [] else [])
    ++ (if ltb_ℤ (pos 0) ctx.tls_ctx_config.tls_port
        then conn_create tls_type ctx.tls_ctx_config.tls_port ctx.tls_ctx_config.tls_addr ∷ []
        else [])

-- The listeners of the slots in use.
abbrev present : List Slot → List (ConnType × Listener)
present [] = []
present (none ∷ slots) = present slots
present (some l ∷ slots) = l ∷ present slots

-- The context of TLS is made when there is a port for it.
abbrev pub configured : Context → Setup → Contexts → ℤ × Contexts
configured ctx answers contexts =
    if ltb_ℤ (pos 0) ctx.tls_ctx_config.tls_port
    then tls_configure (setup_of ctx.tls_ctx_config answers) contexts
    else (pos 0, contexts)

-- The types of a build with USE_TLS, and of one without.
abbrev types_of : Bool → List ConnType
types_of true = socket_type ∷ tls_type ∷ []
types_of false = socket_type ∷ []

types : (use_tls : Bool) (errno : ℕ) → conntype_initialize use_tls errno [] ≡ types_of use_tls
unfolding conntype_initialize register_conntype_tls conntype_register find_conntype str_case_eq
    to_lower get_type str_eq
types true errno = refl
types false errno = refl

module _ (port : ℤ) (addr : Option (List ℕ)) (slots : List Slot) where
  add-socket :
      (use_tls : Bool)
      → add_listener conn_type_socket port addr (types_of use_tls) slots
        ≡ done (some (set slots 0 (some (conn_create socket_type port addr))))
  unfolding add_listener get_conntype_index_by_name get_conntype_by_name find_conntype str_case_eq
      to_lower get_type str_eq
  add-socket true = refl
  add-socket false = refl

  add-tls :
      add_listener conn_type_tls port addr (types_of true) slots
      ≡ done (some (set slots 1 (some (conn_create tls_type port addr))))
  unfolding add_listener get_conntype_index_by_name get_conntype_by_name find_conntype str_case_eq
      to_lower get_type str_eq
  add-tls = refl

  -- Without USE_TLS no listener of TLS is found.
  no-tls : add_listener conn_type_tls port addr (types_of false) slots ≡ done none
  unfolding add_listener get_conntype_index_by_name get_conntype_by_name find_conntype str_case_eq
      to_lower get_type str_eq
  no-tls = refl

module _ (getaddrinfo : Query → Option (List Attempt)) (epoll_create1 : ℤ)
    (epoll_ctl : ConnType × Listener → ℤ) where
  -- Listeners are opened one after the other on their addresses, whatever their types are; the
  -- first failure ends the process, and so does it when there is none to open.
  unfoldable pub listen_all : List (ConnType × Listener) → List (ConnType × Listener) → Run Started
  listen_all [] [] = done (exited 1)
  listen_all [] (l ∷ ls) = done (listening (l ∷ ls))
  listen_all ((type, listener) ∷ rest) ready = conn_socket_listen getaddrinfo listener >>= λ r.
      let next = listen_all rest (ready ++ (type, r.1) ∷ []) in
      if ltb_ℤ r.0 (pos 0)
      then done (exited 1)
      else if not (eqb_ℤ (epoll_ctl (type, r.1)) (pos 0))
      then done (exited 1)
      else next

  module _ (use_tls : Bool) where
    listen-socket :
        (type : ConnType) (listener : Listener)
        → conn_listen getaddrinfo epoll_create1 epoll_ctl (types_of use_tls) type listener
          ≡ conn_socket_listen getaddrinfo listener
    unfolding conn_listen get_conntype_by_name str_case_eq to_lower get_type str_eq
    listen-socket socket_type listener = refl
    listen-socket tls_type listener = elim (Bool-cases use_tls) [
      | inl y ↦ rw (y) refl
      | inr n ↦ rw (n) refl
    ]

    open_listeners-present :
        (slots : List Slot) (ready : List (ConnType × Listener))
        → open_listeners getaddrinfo epoll_create1 epoll_ctl (types_of use_tls) slots ready
          ≡ listen_all (present slots) ready
    unfolding open_listeners listen_all
    open_listeners-present [] [] = refl
    open_listeners-present [] (l ∷ ls) = refl
    open_listeners-present (none ∷ slots) ready = open_listeners-present slots ready
    open_listeners-present (some (type, listener) ∷ slots) ready =
        rw (listen-socket type listener) (
          >>=-cong (conn_socket_listen getaddrinfo listener) _ _
            (λ r. rw (open_listeners-present slots (ready ++ (type, r.1) ∷ [])) refl))

  -- The end of the start, behind the context of TLS.
  abbrev pub begun : ℤ × Contexts → List (ConnType × Listener) → Run (Started × Contexts)
  begun (ret, contexts) ls =
      if ltb_ℤ ret (pos 0) || ltb_ℤ epoll_create1 (pos 0)
      then done (exited 1, contexts)
      else (listen_all ls [] >>= λ started. done (started, contexts))

  start_routine-begun :
      (use_tls : Bool) (contexts : Contexts) (slots : List Slot) (ls : List (ConnType × Listener))
      → present slots ≡ ls
      → (start_routine getaddrinfo epoll_create1 epoll_ctl (types_of use_tls) slots >>= λ started.
          done (started, contexts))
        ≡ begun (pos 0, contexts) ls
  unfolding start_routine
  start_routine-begun use_tls contexts slots ls e =
      elim (Bool-cases (ltb_ℤ epoll_create1 (pos 0))) [
        | inl y ↦ rw (y, start_routine) refl
        | inr n ↦ rw (n, start_routine, open_listeners-present use_tls slots [], e) refl
      ]

  -- The slots after the TCP listener, if there is one.
  abbrev slots_of : Slot → List Slot
  slots_of first = first ∷ replicate 7 none

  present-set :
      (first : Slot) (l : ConnType × Listener)
      → present (set (slots_of first) 1 (some l)) ≡ present (slots_of first) ++ l ∷ []
  present-set none l = refl
  present-set (some k) l = refl

  module _ (ctx : Context) (answers : Setup) (contexts : Contexts) where
    abbrev tls_wanted : List (ConnType × Listener)
    tls_wanted =
        if ltb_ℤ (pos 0) ctx.tls_ctx_config.tls_port
        then conn_create tls_type ctx.tls_ctx_config.tls_port ctx.tls_ctx_config.tls_addr ∷ []
        else []

    start_tls-begun :
        (first : Slot)
        → start_tls getaddrinfo epoll_create1 epoll_ctl
            (types_of true)
            ctx
            answers
            contexts
            (slots_of first)
          ≡ begun (configured ctx answers contexts) (present (slots_of first) ++ tls_wanted)
    unfolding start_tls
    start_tls-begun first = elim (Bool-cases (ltb_ℤ (pos 0) ctx.tls_ctx_config.tls_port)) [
      | inr n ↦
          rw (n, start_tls)
            (start_routine-begun true contexts (slots_of first) _
              (sym (append-nil (present (slots_of first)))))
      | inl y ↦
          let c = tls_configure (setup_of ctx.tls_ctx_config answers) contexts in
          let tls = conn_create tls_type ctx.tls_ctx_config.tls_port ctx.tls_ctx_config.tls_addr in
          elim (Bool-cases (ltb_ℤ c.0 (pos 0))) [
            | inl bad ↦
                rw
                  (
                    y,
                    start_tls,
                    add-tls ctx.tls_ctx_config.tls_port ctx.tls_ctx_config.tls_addr
                        (slots_of first),
                    bad,
                  )
                  refl
            | inr good ↦
                rw
                  (
                    y,
                    start_tls,
                    add-tls ctx.tls_ctx_config.tls_port ctx.tls_ctx_config.tls_addr
                        (slots_of first),
                    good,
                  )
                  (start_routine-begun true c.1 (set (slots_of first) 1 (some tls)) _
                    (present-set first tls))
          ]
    ]

    -- Without USE_TLS a port for TLS ends the process.
    start_tls-exited :
        (first : Slot)
        → start_tls getaddrinfo epoll_create1 epoll_ctl
            (types_of false)
            ctx
            answers
            contexts
            (slots_of first)
          ≡ (if ltb_ℤ (pos 0) ctx.tls_ctx_config.tls_port
              then done (exited 1, contexts)
              else begun (pos 0, contexts) (present (slots_of first)))
    unfolding start_tls
    start_tls-exited first = elim (Bool-cases (ltb_ℤ (pos 0) ctx.tls_ctx_config.tls_port)) [
      | inl y ↦
          rw
            (
              y,
              start_tls,
              no-tls ctx.tls_ctx_config.tls_port ctx.tls_ctx_config.tls_addr (slots_of first),
            )
            refl
      | inr n ↦ rw (n, start_tls) (start_routine-begun false contexts (slots_of first) _ refl)
    ]

    -- How a build starts.
    abbrev pub started : Bool → Run (Started × Contexts)
    started use_tls =
        if ltb_ℤ (pos 0) ctx.tls_ctx_config.tls_port && not use_tls
        then done (exited 1, contexts)
        else begun (configured ctx answers contexts) (wanted ctx)

    httpd-tls :
        httpd getaddrinfo epoll_create1 epoll_ctl (types_of true) ctx answers contexts
        ≡ begun (configured ctx answers contexts) (wanted ctx)
    unfolding httpd
    httpd-tls = elim (Bool-cases (ltb_ℤ (pos 0) ctx.port)) [
      | inl p ↦
          rw (p, httpd, add-socket ctx.port ctx.addr no_listeners true)
            (start_tls-begun (some (conn_create socket_type ctx.port ctx.addr)))
      | inr p ↦ rw (p, httpd) (start_tls-begun none)
    ]

    httpd-tcp :
        httpd getaddrinfo epoll_create1 epoll_ctl (types_of false) ctx answers contexts
        ≡ started false
    unfolding httpd
    httpd-tcp = elim (Bool-cases (ltb_ℤ (pos 0) ctx.port)) [
      | inl p ↦
          let first = some (conn_create socket_type ctx.port ctx.addr) in
          rw (p, httpd, add-socket ctx.port ctx.addr no_listeners false)
            (start_tls-exited first
              ∙ (elim (Bool-cases (ltb_ℤ (pos 0) ctx.tls_ctx_config.tls_port)) [
                | inl y ↦ rw (y) refl
                | inr n ↦ rw (n) refl
              ]))
      | inr p ↦
          rw (p, httpd)
            (start_tls-exited none
              ∙ (elim (Bool-cases (ltb_ℤ (pos 0) ctx.tls_ctx_config.tls_port)) [
                | inl y ↦ rw (y) refl
                | inr n ↦ rw (n) refl
              ]))
    ]

    httpd-started :
        (use_tls : Bool)
        → httpd getaddrinfo epoll_create1 epoll_ctl (types_of use_tls) ctx answers contexts
          ≡ started use_tls
    httpd-started true = elim (Bool-cases (ltb_ℤ (pos 0) ctx.tls_ctx_config.tls_port)) [
      | inl y ↦ rw (y) (rw (y) at httpd-tls)
      | inr n ↦ rw (n) (rw (n) at httpd-tls)
    ]
    httpd-started false = httpd-tcp

  pub httpd_lem :
      (use_tls : Bool) (errno : ℕ) (ctx : Context) (answers : Setup) (contexts : Contexts)
      → httpd getaddrinfo epoll_create1 epoll_ctl
          (conntype_initialize use_tls errno [])
          ctx
          answers
          contexts
        ≡ started ctx answers contexts use_tls
  httpd_lem use_tls errno ctx answers contexts =
      subst
        (λ cts.
          httpd getaddrinfo epoll_create1 epoll_ctl cts ctx answers contexts
          ≡ started ctx answers contexts use_tls)
        (sym (types use_tls errno)) (httpd-started ctx answers contexts use_tls)
