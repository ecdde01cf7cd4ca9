-- ===== src/Http/Routes/Once.antt =====
-- Every request is answered on its connection at most once.
use atophttpd.Prelude.{
  ℕ, ◌+◌, ◌≤◌, ◌<◌, ◌≡◌, inl, inr, refl, sym, true, [], ◌∷◌, ◌++◌, some, ℤ, pos, ltb_ℤ, Bytes,
  codes, str_eq, ltb, lt→ltb, ◌==◌, if◌then◌else◌, length, Run, Returns, Returns-bind, Returns-if,
  Returns-cases, arith, Bool-cases, Option-cases,
}
use mathlib.Core.Option.{some-injective}
use atophttpd.CString.{before_char, strstr_after}
use atophttpd.CString.Length.{length-before_char, length-strstr_after}
use atophttpd.Connection.{Transport}
use atophttpd.Http.Args.{after_equals, has_escape, http_arg_long, http_arg_str}
use atophttpd.Http.Response.{Encoding, plain, ContentType, html, css, javascript, crlf, SockOpts}
use atophttpd.Http.Response.Once.{
  ClosedOnce, http_answer_404-ClosedOnce, http_response_200-ClosedOnce,
}
use atophttpd.Http.Routes.{
  Assets, url_len, encoding_of, page, http_get_template, show_record, http_showsamp, dispatch,
  http_process_request,
}

-- The value of an argument leaves two bytes of its buffer free.
abbrev pub ArgFits : Bytes → Bytes → ℕ → Type 0
ArgFits req needle len =
    (s : Bytes) → after_equals req needle ≡ some s → length (before_char b'&' s) + 1 < len

http_arg_str-Returns :
    (req needle : Bytes) (len : ℕ)
    → ArgFits req needle len
    → Returns (http_arg_str req needle len) (λ _. Unit)
unfolding http_arg_str
http_arg_str-Returns req needle len fits = elim (Option-cases (after_equals req needle)) [
  | inl n ↦ rw (n, http_arg_str) tt
  | inr (s, e) ↦
      let small = fits s e in
      elim (Bool-cases (has_escape (before_char b'&' s))) [
        | inl h ↦ rw (e, http_arg_str) (ground (arith, small, h))
        | inr h ↦ rw (e, http_arg_str) (ground (arith, small, h))
      ]
]

length-after_equals :
    (req needle s : Bytes)
    → after_equals req needle ≡ some s
    → length s + length needle + 1 ≤ length req
unfolding after_equals
length-after_equals req needle s h = elim (Option-cases (strstr_after req needle)) [
  | inl n ↦ absurd (cc (rw (n, after_equals) at h))
  | inr ([], e) ↦ absurd (cc (rw (e, after_equals) at h))
  | inr (c ∷ r, e) ↦ elim (Bool-cases (c == b'=')) [
    | inl y ↦
        let k : some r ≡ some s = rw (e, y, after_equals) at h in
        let l = length-strstr_after req needle (c ∷ r) e in
        rw (sym (some-injective r s k)) (omega (arith, l))
    | inr n ↦ absurd (cc (rw (e, n, after_equals) at h))
  ]
]

-- A request that is shorter than the buffer has no argument that is too long for one.
ArgFits-lables : (req : Bytes) → length req < url_len → ArgFits req (codes "lables") 1024
ArgFits-lables req short s e =
    omega (arith, length-before_char b'&' s, length-after_equals req (codes "lables") s e)

module _ (t : Transport) (o : SockOpts) (assets : Assets) (conn : t.Conn)
    (open_ : t.is_open conn ≡ true) where
  page-ClosedOnce :
      (body : Bytes) (content_type : ContentType)
      → Returns (page t o assets conn body content_type) (ClosedOnce t conn)
  page-ClosedOnce body content_type =
      http_response_200-ClosedOnce t o conn open_ body plain content_type

  http_get_template-ClosedOnce :
      (req : Bytes)
      → ArgFits req (codes "type") 256
      → Returns (http_get_template t o assets req conn) (ClosedOnce t conn)
  unfolding http_get_template
  http_get_template-ClosedOnce req fits =
      Returns-cases _ (http_arg_str req (codes "type") 256) _
        (http_arg_str-Returns req (codes "type") 256 fits) (inl (open_, refl))
        (λ s. Returns-if _ (str_eq s (codes "generic")) _ _ (page-ClosedOnce _ html) (
          Returns-if _ (str_eq s (codes "memory")) _ _ (page-ClosedOnce _ html) (
            Returns-if _ (str_eq s (codes "disk")) _ _ (page-ClosedOnce _ html) (
              Returns-if _ (str_eq s (codes "command_line")) _ _ (page-ClosedOnce _ html)
                (http_answer_404-ClosedOnce t o conn open_)))))

  module _ (rawlog_get_record : ℤ → Bytes → Encoding → t.Conn → Run (ℤ × t.Conn))
      (kept : (ts : ℤ) (lables : Bytes) (e : Encoding)
        → Returns
            (rawlog_get_record ts lables e conn)
            (λ r. if ltb_ℤ r.0 (pos 0) then r.1 ≡ conn else ClosedOnce t conn r.1)) where
    show_record-ClosedOnce :
        (ts : ℤ) (lables : Bytes) (e : Encoding)
        → Returns (show_record t o assets rawlog_get_record ts lables e conn) (ClosedOnce t conn)
    unfolding show_record
    show_record-ClosedOnce ts lables e =
        Returns-bind _ _ (rawlog_get_record ts lables e conn) _ (kept ts lables e) (λ r h.
          elim (Bool-cases (ltb_ℤ r.0 (pos 0))) [
            | inl y ↦ rw (y) (rw (rw (y) at h) (page-ClosedOnce _ html))
            | inr n ↦ rw (n) (rw (n) at h)
          ])

    http_showsamp-ClosedOnce :
        (req : Bytes)
        → length req < url_len
        → ArgFits req (codes "encoding") 16
        → Returns (http_showsamp t o assets rawlog_get_record req conn) (ClosedOnce t conn)
    unfolding http_showsamp
    http_showsamp-ClosedOnce req short fits =
        elim (Option-cases (http_arg_long req (codes "timestamp"))) [
          | inl n ↦ rw (n, http_showsamp) (page-ClosedOnce (codes "missing timestamp" ++ crlf) html)
          | inr (ts, e) ↦
              rw (e, http_showsamp)
                (Returns-cases _ (http_arg_str req (codes "lables") 1024) _
                  (http_arg_str-Returns req (codes "lables") 1024 (ArgFits-lables req short))
                  (page-ClosedOnce (codes "missing lables" ++ crlf) html)
                  (λ lables.
                    Returns-bind _ _ (http_arg_str req (codes "encoding") 16) _
                      (http_arg_str-Returns req (codes "encoding") 16 fits)
                      (λ wanted _. elim (Option-cases (encoding_of wanted)) [
                        | inl n ↦ rw (n) (
                            page-ClosedOnce (codes "encoding supports none/deflate only" ++ crlf)
                              html)
                        | inr (encoding, k) ↦ rw (k) (show_record-ClosedOnce ts lables encoding)
                      ])))
        ]

    dispatch-ClosedOnce :
        (location req : Bytes)
        → length req < url_len
        → ArgFits req (codes "type") 256
        → ArgFits req (codes "encoding") 16
        → Returns (dispatch t o assets rawlog_get_record location req conn) (ClosedOnce t conn)
    unfolding dispatch
    dispatch-ClosedOnce location req short fits_type fits_encoding =
        Returns-if _ (length location == 0) _ _ (page-ClosedOnce _ html) (
          Returns-if _ (str_eq location (codes "ping")) _ _ (page-ClosedOnce _ html) (
            Returns-if _ (str_eq location (codes "help")) _ _ (page-ClosedOnce _ html) (
              Returns-if _ (str_eq location (codes "favicon.ico")) _ _ (page-ClosedOnce _ html) (
                Returns-if _ (str_eq location (codes "showsamp")) _ _
                  (http_showsamp-ClosedOnce req short fits_encoding)
                  (Returns-if _ (str_eq location (codes "index.html")) _ _ (page-ClosedOnce _ html)
                    (Returns-if _ (str_eq location (codes "js/atop.js")) _ _
                      (page-ClosedOnce _ javascript)
                      (Returns-if _ (str_eq location (codes "js/atop_parse.js")) _ _
                        (page-ClosedOnce _ javascript)
                        (Returns-if _ (str_eq location (codes "js/atop_compare_fc.js")) _ _
                          (page-ClosedOnce _ javascript)
                          (Returns-if _ (str_eq location (codes "css/atop.css")) _ _
                            (page-ClosedOnce _ css)
                            (Returns-if _ (str_eq location (codes "template_header")) _ _
                              (page-ClosedOnce _ html)
                              (Returns-if _ (str_eq location (codes "template")) _ _
                                (http_get_template-ClosedOnce req fits_type)
                                (http_answer_404-ClosedOnce t o conn open_))))))))))))

    -- A request shorter than its buffer is processed without a crash on an open connection, and
    -- the connection is then still open, never having been closed, or closed exactly once. The
    -- arguments `type` and `encoding` are to fit their buffers, and a record is to be sent under
    -- the same terms: nothing is done to the connection when it is not found.
    pub http_process_request-ClosedOnce :
        (req : Bytes)
        → length req < url_len
        → ArgFits req (codes "type") 256
        → ArgFits req (codes "encoding") 16
        → Returns (http_process_request t o assets rawlog_get_record req conn) (ClosedOnce t conn)
    unfolding http_process_request
    http_process_request-ClosedOnce req short fits_type fits_encoding =
        let ok = lt→ltb _ _ short in
        rw (ok, http_process_request)
          (Returns-if _ (ltb url_len (length req)) _ _ (http_answer_404-ClosedOnce t o conn open_)
            (dispatch-ClosedOnce (before_char b'?' req) req short fits_type fits_encoding))
