-- ===== src/Server/Loop.antt =====
-- The loop of `httpd_routine`: a TCP connection is accepted, its request handled with the record
-- and the page handlers that are compiled in, and the indices are brought up to date behind it.
pub mod Closed
use atophttpd.Prelude.{
  ℕ, ◌+◌, ◌≡◌, refl, Bool, true, false, List, [], ◌∷◌, ◌++◌, Option, none, some, ℤ, pos, negsuc,
  ltb_ℤ, Bytes, ◌==◌, if◌then◌else◌, Run, done, crash, ◌>>=◌,
}
use atophttpd.Qsort.{Qsort}
use atophttpd.Cache.{Cache}
use atophttpd.Atop.{Atop, RawFile, FileSystem, Sys}
use atophttpd.Output.{Output}
use atophttpd.Output.Ready.{IsReady}
use atophttpd.Connection.Socket.{
  Socket, sockets, conn_socket_create, conn_socket_accept, conn_socket_close,
}
use atophttpd.Rawlog.{rawlog_parse_all}
use atophttpd.Rawlog.Fetch.{Format, Mallocs}
use atophttpd.Http.Response.{SockOpts, Encoding}
use atophttpd.Http.Routes.{Assets}
use atophttpd.Http.Request.{Event, httpd_handle_request}
use atophttpd.Http.Update.{Updated, httpd_update_cache}
use atophttpd.Json.Lines.{Env}
use atophttpd.Server.Samples.{WithOutput, with_output, Decoder, get_record}

-- What the calls answer while one connection is served: `accept`, `fcntl`, the reads, the socket
-- options, `compress`, `malloc`, the files, `lseek` with the `errno` that is left, and `time`.
pub record Visit : Type 0 where
  pub accepted : Sys ℕ
  pub nonblocking : ℤ
  pub events : List Event
  pub opts : SockOpts
  pub compress : Bytes → Bool × Bytes
  pub m : Mallocs
  pub fs : FileSystem
  pub lseek : RawFile → ℕ → Sys ℕ
  pub stale_errno : ℕ
  pub opendir : Bytes → Sys (List (Bool × Bytes))
  pub now : ℕ

-- What `epoll_wait` answers: 0, an error with its `errno`, or a listener that is ready.
pub data Round : Type 0 where
  timeout : Round
  wait_error : ℕ → Round
  visited : Visit → Round

abbrev pub eintr : ℕ
eintr = 4

-- The indices, and the buffer `defop`.
pub record Serving : Type 0 where
  pub indices : Updated (List Cache)
  pub op : Output
  pub ready : IsReady op

-- The number that the process exits with, if it does, the connections that were freed, in order,
-- and the state that is left.
pub record Stopped : Type 0 where
  pub exit : Option ℕ
  pub conns : List Socket
  pub state : Serving

module _ (a : Atop) (q : Qsort) (env : Env) (fmt : Format) (dec : Decoder fmt) (assets : Assets)
    (log_path : Bytes) where
  -- `rawlog_get_record`, on the indices of this moment.
  abbrev pub record_handler :
      Visit → Serving → ℤ → Bytes → Encoding → WithOutput Socket → Run (ℤ × WithOutput Socket)
  record_handler v s ts labels encoding w =
      get_record sockets v.opts v.compress a env encoding fmt dec v.m v.fs v.lseek v.stale_errno
        s.indices.table ts labels w

  -- The body of the loop, for a listener that is ready.
  unfoldable pub serve_conn : Visit → Serving → Run (Socket × Serving)
  serve_conn v s =
      let accepted = conn_socket_accept v.accepted (conn_socket_create (negsuc 0) []) in
      if ltb_ℤ accepted.0 (pos 0) then done (conn_socket_close accepted.1, s) else do
        w ←
            httpd_handle_request (with_output sockets) v.opts assets (record_handler v s)
              v.nonblocking v.events (record { op = s.op; ready = s.ready; conn = accepted.1 })
        indices ← httpd_update_cache (rawlog_parse_all a q v.fs v.opendir log_path) v.now s.indices
        done (w.conn, record { indices = indices; op = w.op; ready = w.ready })

  unfoldable pub serve : List Round → Serving → Run Stopped
  serve [] s = done (record { exit = none; conns = []; state = s })
  serve (timeout ∷ rounds) s = serve rounds s
  serve (wait_error errno ∷ rounds) s =
      let next = serve rounds s in
      if errno == eintr then next else done (record { exit = some 1; conns = []; state = s })
  serve (visited v ∷ rounds) s = do
    served ← serve_conn v s
    rest ← serve rounds served.1
    done (record rest { conns = served.0 ∷ rest.conns })
