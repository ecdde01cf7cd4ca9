-- ===== src/Http/Response.antt =====
-- `http_response_200` and the answer 404.
pub mod Head
pub mod Once
pub mod Samp
use atophttpd.Prelude.{
  ℕ, ◌+◌, ◌-◌, ◌%◌, ◌^◌, Bool, true, false, List, [], ◌∷◌, ◌++◌, ℤ, pos, negsuc, eqb_ℤ, Bytes,
  codes, ltb, if◌then◌else◌, length, Run, done, ◌>>=◌, ◌>>◌, assert,
}
use atophttpd.CString.{print_int}
use atophttpd.Connection.{Transport}

-- `http_content_type_none` and `http_content_type_deflate`
pub data Encoding : Type 0 where
  plain deflate : Encoding

pub data ContentType : Type 0 where
  html css javascript : ContentType

abbrev pub crlf : Bytes
crlf = 13 ∷ 10 ∷ []

abbrev pub http_200 : Bytes
http_200 = codes "HTTP/1.1 200 OK" ++ crlf

abbrev pub http_404 : Bytes
http_404 = codes "HTTP/1.1 404 Not Found" ++ crlf

abbrev pub encoding_line : Encoding → Bytes
encoding_line plain = []
encoding_line deflate = codes "Content-Encoding: deflate" ++ crlf

abbrev pub content_type_name : ContentType → Bytes
content_type_name html = codes "text/html"
content_type_name css = codes "text/css"
content_type_name javascript = codes "application/javascript"

-- A `size_t` that is printed with `%d`: its low 32 bits as an `int`.
unfoldable pub int_of_size : ℕ → ℤ
int_of_size n =
    if ltb (n % 2 ^ 32) (2 ^ 31) then pos (n % 2 ^ 32) else negsuc (2 ^ 32 - 1 - n % 2 ^ 32)

-- `sprintf(content, http_generic, encoding, content_type, len)`
unfoldable pub http_generic : Encoding → ContentType → ℕ → Bytes
http_generic encoding content_type len =
    codes "Server: atop"
    ++ (crlf
        ++ (encoding_line encoding
            ++ (codes "Content-Type: "
                ++ (content_type_name content_type
                    ++ (codes "; charset=utf-8"
                        ++ (crlf
                            ++ (codes "Content-Length: "
                                ++ (print_int (int_of_size len) ++ (crlf ++ crlf)))))))))

-- What the three calls that prepare a socket answer.
pub record SockOpts : Type 0 where
  pub nodelay : ℤ
  pub blocking : ℤ
  pub sndtimeo : ℤ

unfoldable pub http_prepare_response : SockOpts → ℤ
http_prepare_response o =
    if eqb_ℤ o.nodelay (pos 0)
    then (if eqb_ℤ o.blocking (pos 0)
        then (if eqb_ℤ o.sndtimeo (pos 0) then pos 0 else o.sndtimeo)
        else o.blocking)
    else o.nodelay

module _ (t : Transport) (o : SockOpts) where
  -- The head is printed into 128 bytes.
  unfoldable pub http_response_200 : t.Conn → Bytes → Encoding → ContentType → Run t.Conn
  http_response_200 conn body encoding content_type =
      if eqb_ℤ (http_prepare_response o) (pos 0)
      then (do
        let head = http_generic encoding content_type (length body)
        assert (ltb (length head) 128)
        done (t.close (t.writev conn (http_200 ∷ head ∷ body ∷ []))))
      else done (t.close conn)

  -- The answer of the preparation is not looked at here.
  unfoldable pub http_answer_404 : t.Conn → t.Conn
  http_answer_404 conn = t.write conn http_404

  -- `compress` tells whether it succeeded, and what is left in the first bytes of its buffer. When
  -- it fails an answer 404 is written, and the response is sent all the same.
  unfoldable pub http_show_samp_done :
      (Bytes → Bool × Bytes) → Encoding → Bytes → t.Conn → Run t.Conn
  http_show_samp_done compress encoding ob conn = elim encoding [
    | plain ↦ http_response_200 conn ob plain html
    | deflate ↦
        let compressed = compress ob in
        let conn' = if compressed.0 then conn else http_answer_404 conn in
        http_response_200 conn' compressed.1 deflate html
  ]
