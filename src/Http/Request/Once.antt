-- ===== src/Http/Request/Once.antt =====
-- A request ends with its connection closed.
use atophttpd.Prelude.{
  ℕ, ◌+◌, ◌-◌, ◌<◌, ◌≡◌, inl, inr, refl, true, ◌||◌, List, [], ◌∷◌, ◌++◌, Option, none, some, ℤ,
  pos, ltb_ℤ, eqb_ℤ, Bytes, codes, ltb, leb, lt→ltb, ◌==◌, if◌then◌else◌, length, length-append,
  Run, done, ◌>>=◌, Returns, Returns-bind, Returns-bind_eq, Returns-if, Returns-cases, arith,
  Bool-cases, Option-cases,
}
use atophttpd.CString.{before_char, strstr_after, after_prefix}
use atophttpd.CString.Length.{length-before_char}
use atophttpd.Connection.{Transport}
use atophttpd.Http.Response.{Encoding, SockOpts}
use atophttpd.Http.Response.Once.{ClosedOnce, Closed, close-Closed}
use atophttpd.Http.Routes.{Assets, url_len, http_process_request}
use atophttpd.Http.Routes.Once.{ArgFits, http_process_request-ClosedOnce}
use atophttpd.Http.Request.{
  inbuf_size, Event, deadline, poll_error, poll_timeout, read_error, read_again, received,
  header_end, search_inbuf, header_state, read_request, request_url, httpd_handle_request,
}

-- How many bytes the events bring.
abbrev pub received_bytes : List Event → ℕ
received_bytes [] = 0
received_bytes (received bytes ∷ events) = length bytes + received_bytes events
received_bytes (_ ∷ events) = received_bytes events

search_inbuf-Returns :
    (inbuf needle : Bytes)
    → length inbuf < inbuf_size
    → Returns (search_inbuf inbuf needle) (λ _. Unit)
unfolding search_inbuf
search_inbuf-Returns inbuf needle h =
    elim (Option-cases (strstr_after (before_char 0 inbuf) needle)) [
      | inl n ↦
          let small =
            lt→ltb (length (before_char 0 inbuf)) inbuf_size
              (omega (arith, h, length-before_char 0 inbuf)) in
          rw (n, small, search_inbuf) tt
      | inr (rest, e) ↦ rw (e, search_inbuf) tt
    ]

header_state-Returns :
    (inbuf : Bytes) → length inbuf < inbuf_size → Returns (header_state inbuf) (λ _. Unit)
unfolding header_state
header_state-Returns inbuf h =
    Returns-cases _ (if leb 4 (length inbuf) then search_inbuf inbuf header_end else done none) _
      (Returns-if _ (leb 4 (length inbuf)) _ _ (search_inbuf-Returns inbuf header_end h) tt)
      (Returns-if _ (length inbuf == inbuf_size) _ _ tt tt) (λ rest. tt)

abbrev Small : Option Bytes → Type 0
Small none = Unit
Small (some inbuf) = length inbuf < inbuf_size

read_request-Returns :
    (events : List Event) (inbuf : Bytes)
    → length inbuf + received_bytes events < inbuf_size
    → Returns (read_request events inbuf) Small
unfolding read_request
read_request-Returns [] inbuf h = tt
read_request-Returns (deadline ∷ events) inbuf h = tt
read_request-Returns (poll_error ∷ events) inbuf h = tt
read_request-Returns (poll_timeout ∷ events) inbuf h = read_request-Returns events inbuf h
read_request-Returns (read_error ∷ events) inbuf h = tt
read_request-Returns (read_again ∷ events) inbuf h = read_request-Returns events inbuf h
read_request-Returns (received bytes ∷ events) inbuf h =
    let l = length-append inbuf bytes in
    Returns-cases _ (header_state (inbuf ++ bytes)) _
      (header_state-Returns (inbuf ++ bytes) (omega (arith, h, l)))
      (read_request-Returns events (inbuf ++ bytes) (omega (arith, h, l)))
      (λ complete. elim (Bool-cases complete) [
        | inl y ↦ rw (y) (omega (arith, h, l))
        | inr n ↦ rw (n) tt
      ])

request_url-Returns :
    (inbuf : Bytes) → length inbuf < inbuf_size → Returns (request_url inbuf) (λ _. Unit)
unfolding request_url
request_url-Returns inbuf h = elim (Option-cases (after_prefix (codes "GET ") inbuf)) [
  | inl n ↦ rw (n, request_url) tt
  | inr (r, e) ↦
      rw (e, request_url)
        (Returns-cases _ (search_inbuf inbuf (codes "HTTP/1.1")) _
          (search_inbuf-Returns inbuf (codes "HTTP/1.1") h) tt
          (λ rest.
            let at = length (before_char 0 inbuf) - (length rest + 8) in
            Returns-if _ (ltb (url_len + 6) at || ltb at 6) _ _ tt tt))
]

module _ (t : Transport) (o : SockOpts) (assets : Assets)
    (rawlog_get_record : ℤ → Bytes → Encoding → t.Conn → Run (ℤ × t.Conn)) (conn : t.Conn)
    (open_ : t.is_open conn ≡ true)
    (kept : (ts : ℤ) (lables : Bytes) (e : Encoding)
      → Returns
          (rawlog_get_record ts lables e conn)
          (λ r. if ltb_ℤ r.0 (pos 0) then r.1 ≡ conn else ClosedOnce t conn r.1)) where
  ended : Closed t conn (t.close conn)
  ended = close-Closed t conn conn (inl (open_, refl))

  answered :
      (url : Bytes)
      → (length url < url_len) × ArgFits url (codes "type") 256 × ArgFits url (codes "encoding") 16
      → Returns
          (http_process_request t o assets rawlog_get_record url conn >>= λ d. done (t.close d))
          (Closed t conn)
  answered url f =
      Returns-bind _ _ (http_process_request t o assets rawlog_get_record url conn) _
        (http_process_request-ClosedOnce t o assets conn open_ rawlog_get_record kept url f.0 f.1
          f.2)
        (λ d h. close-Closed t conn d h)

  -- Whatever becomes of a connection that is accepted (a failing `fcntl`, a deadline, errors, a
  -- malformed or a good request), it is closed at the end, exactly once, and nothing crashes: if
  -- fewer bytes than the buffer has arrive, and every request that is read from them is shorter
  -- than its buffer, with arguments that fit theirs.
  pub httpd_handle_request-Closed :
      (nonblocking : ℤ) (events : List Event)
      → received_bytes events < inbuf_size
      → ((inbuf url : Bytes)
          → read_request events [] ≡ done (some inbuf)
          → request_url inbuf ≡ done (some url)
          → (length url < url_len)
            × ArgFits url (codes "type") 256
            × ArgFits url (codes "encoding") 16)
      → Returns
          (httpd_handle_request t o assets rawlog_get_record nonblocking events conn)
          (Closed t conn)
  unfolding httpd_handle_request
  httpd_handle_request-Closed nonblocking events few fits =
      elim (Bool-cases (eqb_ℤ nonblocking (pos 0))) [
        | inl y ↦
            rw (y, httpd_handle_request)
              (Returns-bind_eq _ _ (read_request events []) _
                (read_request-Returns events [] (omega (arith, few)))
                (λ read r small. elim (Option-cases read) [
                  | inl n ↦ rw (n) ended
                  | inr (inbuf, e) ↦ rw (e) (
                      Returns-bind_eq _ _ (request_url inbuf) _
                        (request_url-Returns inbuf (rw (e) at small))
                        (λ requested u _. elim (Option-cases requested) [
                          | inl n ↦ rw (n) ended
                          | inr (url, e') ↦
                              let f = fits inbuf url (rw (e) at r) (rw (e') at u) in
                              rw (e') (answered url f)
                        ]))
                ]))
        | inr n ↦ rw (n, httpd_handle_request) ended
      ]
