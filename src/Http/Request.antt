-- ===== src/Http/Request.antt =====
-- `httpd_handle_request`: the loop that reads a request, and what it makes of it.
pub mod Once
pub mod Parse
use atophttpd.Prelude.{
  ℕ, suc, ◌+◌, ◌-◌, Bool, true, false, ◌&&◌, ◌||◌, List, [], ◌∷◌, ◌++◌, Option, none, some, ℤ, pos,
  eqb_ℤ, Bytes, codes, ltb, leb, ◌==◌, if◌then◌else◌, length, take, drop, Run, done, crash, ◌>>=◌,
  ◌>>◌, assert, not,
}
use atophttpd.CString.{before_char, strstr_after, after_prefix}
use atophttpd.Connection.{Transport}
use atophttpd.Http.Response.{Encoding, crlf, SockOpts}
use atophttpd.Http.Routes.{Assets, url_len, http_process_request}

abbrev pub inbuf_size : ℕ
inbuf_size = 4096

-- What one round of the loop meets: the deadline of 100 ms, an answer of `poll`, or one of
-- `conn_read`, whose bytes are appended.
pub data Event : Type 0 where
  deadline poll_error poll_timeout read_error read_again : Event
  received : Bytes → Event

abbrev pub header_end : Bytes
header_end = crlf ++ crlf

-- A search in the buffer: without a zero in a full buffer a search that fails leaves it.
unfoldable pub search_inbuf : Bytes → Bytes → Run (Option Bytes)
search_inbuf inbuf needle = elim (strstr_after (before_char 0 inbuf) needle) [
  | some rest ↦ done (some rest)
  | none ↦ do assert (ltb (length (before_char 0 inbuf)) inbuf_size); done none
]

-- The test behind a read: the header is complete, the buffer is full, or there is more to read.
unfoldable pub header_state : Bytes → Run (Option Bool)
header_state inbuf = do
  found ← if leb 4 (length inbuf) then search_inbuf inbuf header_end else done none
  elim found [
    | some rest ↦ done (some true)
    | none ↦ if length inbuf == inbuf_size then done (some false) else done none
  ]

-- The loop. `none` is a jump to `close_fd`; when no event is left the deadline is over.
unfoldable pub read_request : List Event → Bytes → Run (Option Bytes)
read_request [] inbuf = done none
read_request (deadline ∷ events) inbuf = done none
read_request (poll_error ∷ events) inbuf = done none
read_request (poll_timeout ∷ events) inbuf = read_request events inbuf
read_request (read_error ∷ events) inbuf = done none
read_request (read_again ∷ events) inbuf = read_request events inbuf
read_request (received bytes ∷ events) inbuf = header_state (inbuf ++ bytes) >>= λ state.
    elim state [
      | some true ↦ done (some (inbuf ++ bytes))
      | some false ↦ done none
      | none ↦ read_request events (inbuf ++ bytes)
    ]

-- The request between `GET /` and ` HTTP/1.1`; `none` is a jump to `close_fd`.
unfoldable pub request_url : Bytes → Run (Option Bytes)
request_url inbuf = elim (after_prefix (codes "GET ") inbuf) [
  | none ↦ done none
  | some get_rest ↦ search_inbuf inbuf (codes "HTTP/1.1") >>= λ found. elim found [
    | none ↦ done none
    | some rest ↦
        let at = length (before_char 0 inbuf) - (length rest + 8) in
        if ltb (url_len + 6) at || ltb at 6
        then done none
        else done (some (take (at - 6) (drop 5 inbuf)))
  ]
]

module _ (t : Transport) (o : SockOpts) (assets : Assets)
    (rawlog_get_record : ℤ → Bytes → Encoding → t.Conn → Run (ℤ × t.Conn)) where
  -- `nonblocking` is what `fcntl` answers at the start.
  unfoldable pub httpd_handle_request : ℤ → List Event → t.Conn → Run t.Conn
  httpd_handle_request nonblocking events conn =
      if not (eqb_ℤ nonblocking (pos 0))
      then done (t.close conn)
      else read_request events [] >>= λ read. elim read [
        | none ↦ done (t.close conn)
        | some inbuf ↦ request_url inbuf >>= λ url. elim url [
          | none ↦ done (t.close conn)
          | some httpreq ↦ do
            conn' ← http_process_request t o assets rawlog_get_record httpreq conn
            done (t.close conn')
        ]
      ]
