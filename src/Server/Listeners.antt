-- ===== src/Server/Listeners.antt =====
-- The start of the server: `conntype_initialize`, `httpd`, and `httpd_routine` up to its loop.
-- `getaddrinfo`, `epoll_create1`, `epoll_ctl` and OpenSSL are arguments.
pub mod Wanted
use atophttpd.Prelude.{
  ℕ, Bool, true, false, not, List, [], ◌∷◌, ◌++◌, Option, none, some, ℤ, pos, negsuc, ltb_ℤ, eqb_ℤ,
  Bytes, codes, if◌then◌else◌, set, replicate, Run, done, crash, ◌>>=◌, cell,
}
use atophttpd.Connection.Registry.{
  conn_type_max, conntype_register, get_conntype_by_name, get_conntype_index_by_name,
}
use atophttpd.Connection.Listen.{Attempt}
use atophttpd.Connection.Bind.{Query, Listener, conn_socket_listen}
use atophttpd.Connection.Tls.{Contexts, Setup, tls_configure}
use atophttpd.Server.Options.{TlsContextConfig, Context}

-- CT_Socket and CT_TLS
pub data ConnType : Type 0 where
  socket_type tls_type : ConnType

abbrev pub conn_type_socket : Bytes
conn_type_socket = codes "tcp"

abbrev pub conn_type_tls : Bytes
conn_type_tls = codes "tls"

unfoldable pub get_type : ConnType → Bytes
get_type socket_type = conn_type_socket
get_type tls_type = conn_type_tls

-- TLS is in the table of a build with USE_TLS; without, which is the default, nothing is registered
-- for it.
unfoldable pub register_conntype_tls : Bool → ℕ → List ConnType → List ConnType
register_conntype_tls true errno cts = (conntype_register get_type errno tls_type cts).1
register_conntype_tls false errno cts = cts

-- The types in the table; what registering returns is not looked at.
unfoldable pub conntype_initialize : Bool → ℕ → List ConnType → List ConnType
conntype_initialize use_tls errno cts =
    register_conntype_tls use_tls errno (conntype_register get_type errno socket_type cts).1

-- A slot of `listeners`.
abbrev pub Slot : Type 0
Slot = Option (ConnType × Listener)

abbrev pub no_listeners : List Slot
no_listeners = replicate conn_type_max none

-- The process exits, or its listeners are ready.
pub data Started : Type 0 where
  exited : ℕ → Started
  listening : List (ConnType × Listener) → Started

abbrev pub conn_create : ConnType → ℤ → Option Bytes → ConnType × Listener
conn_create type port addr = (type, record { port = port; bindaddr = addr; fd = negsuc 0 })

-- A listener in the slot of its type; `none` is `exit(1)`.
unfoldable pub add_listener :
    Bytes → ℤ → Option Bytes → List ConnType → List Slot → Run (Option (List Slot))
add_listener name port addr cts slots = elim (get_conntype_index_by_name get_type name cts) [
  | negsuc n ↦ done none
  | pos i ↦ do
    type ← cell (get_conntype_by_name get_type name cts)
    done (some (set slots i (some (conn_create type port addr))))
]

-- The files of the configuration, and what OpenSSL answers.
abbrev pub setup_of : TlsContextConfig → Setup → Setup
setup_of config answers = record answers {
  cert_file = config.cert_file;
  key_file = config.key_file;
  ca_cert_file = config.ca_cert_file;
}

module _ (getaddrinfo : Query → Option (List Attempt)) (epoll_create1 : ℤ)
    (epoll_ctl : ConnType × Listener → ℤ) (cts : List ConnType) where
  -- The `listen` of a type. A TLS type that is named `tcp` would call itself without end.
  unfoldable pub conn_listen : ConnType → Listener → Run (ℤ × Listener)
  conn_listen socket_type listener = conn_socket_listen getaddrinfo listener
  conn_listen tls_type listener =
      cell (get_conntype_by_name get_type conn_type_socket cts) >>= λ type. elim type [
        | socket_type ↦ conn_socket_listen getaddrinfo listener
        | tls_type ↦ crash
      ]

  -- The loop over the slots.
  unfoldable pub open_listeners : List Slot → List (ConnType × Listener) → Run Started
  open_listeners [] [] = done (exited 1)
  open_listeners [] (l ∷ ls) = done (listening (l ∷ ls))
  open_listeners (none ∷ slots) ready = open_listeners slots ready
  open_listeners (some (type, listener) ∷ slots) ready = conn_listen type listener >>= λ r.
      let next = open_listeners slots (ready ++ (type, r.1) ∷ []) in
      if ltb_ℤ r.0 (pos 0)
      then done (exited 1)
      else if not (eqb_ℤ (epoll_ctl (type, r.1)) (pos 0))
      then done (exited 1)
      else next

  -- `httpd_routine` before its loop.
  unfoldable pub start_routine : List Slot → Run Started
  start_routine slots =
      if ltb_ℤ epoll_create1 (pos 0) then done (exited 1) else open_listeners slots []

  -- The part of `httpd` for TLS, and the rest.
  unfoldable pub start_tls : Context → Setup → Contexts → List Slot → Run (Started × Contexts)
  start_tls ctx answers contexts slots =
      if ltb_ℤ (pos 0) ctx.tls_ctx_config.tls_port
      then (add_listener conn_type_tls ctx.tls_ctx_config.tls_port ctx.tls_ctx_config.tls_addr cts
            slots
          >>= λ added. elim added [
            | none ↦ done (exited 1, contexts)
            | some slots' ↦
                let configured = tls_configure (setup_of ctx.tls_ctx_config answers) contexts in
                if ltb_ℤ configured.0 (pos 0)
                then done (exited 1, configured.1)
                else do started ← start_routine slots'; done (started, configured.1)
          ])
      else do started ← start_routine slots; done (started, contexts)

  unfoldable pub httpd : Context → Setup → Contexts → Run (Started × Contexts)
  httpd ctx answers contexts =
      if ltb_ℤ (pos 0) ctx.port
      then (add_listener conn_type_socket ctx.port ctx.addr cts no_listeners >>= λ added.
          elim added [
            | none ↦ done (exited 1, contexts)
            | some slots ↦ start_tls ctx answers contexts slots
          ])
      else start_tls ctx answers contexts no_listeners
