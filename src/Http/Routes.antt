-- ===== src/Http/Routes.antt =====
-- `http_process_request`: the pages of the server and the samples.
pub mod Once
pub mod Pages
use atophttpd.Prelude.{
  ℕ, ◌+◌, Bool, true, false, List, [], ◌∷◌, ◌++◌, Option, none, some, ℤ, pos, ltb_ℤ, Bytes, codes,
  str_eq, ltb, ◌==◌, if◌then◌else◌, length, Run, done, ◌>>=◌, ◌>>◌, assert,
}
use atophttpd.CString.{before_char}
use atophttpd.Connection.{Transport}
use atophttpd.Http.Args.{http_arg_long, http_arg_str}
use atophttpd.Http.Response.{
  Encoding, plain, deflate, ContentType, html, css, javascript, crlf, SockOpts, http_response_200,
  http_answer_404,
}

abbrev pub url_len : ℕ
url_len = 1024

-- The files that are built into the program.
pub record Assets : Type 0 where
  pub help : Bytes
  pub favicon : Bytes
  pub index_html : Bytes
  pub atop_js : Bytes
  pub atop_parse_js : Bytes
  pub atop_compare_fc_js : Bytes
  pub css_file : Bytes
  pub header_template : Bytes
  pub generic_template : Bytes
  pub memory_template : Bytes
  pub disk_template : Bytes
  pub command_line_template : Bytes

-- The encoding that is asked for: `none` is one that is not supported.
unfoldable pub encoding_of : Option Bytes → Option Encoding
encoding_of none = some deflate
encoding_of (some s) =
    if str_eq s (codes "none")
    then some plain
    else if str_eq s (codes "deflate")
    then some deflate
    else none

module _ (t : Transport) (o : SockOpts) (assets : Assets) where
  abbrev pub page : t.Conn → Bytes → ContentType → Run t.Conn
  page conn body content_type = http_response_200 t o conn body plain content_type

  -- A line of text as a page.
  abbrev pub line : t.Conn → Bytes → Run t.Conn
  line conn text = page conn (text ++ crlf) html

  unfoldable pub http_get_template : Bytes → t.Conn → Run t.Conn
  http_get_template req conn = do
    found ← http_arg_str req (codes "type") 256
    elim found [
      | none ↦ done conn
      | some template_type ↦
          if str_eq template_type (codes "generic")
          then page conn assets.generic_template html
          else if str_eq template_type (codes "memory")
          then page conn assets.memory_template html
          else if str_eq template_type (codes "disk")
          then page conn assets.disk_template html
          else if str_eq template_type (codes "command_line")
          then page conn assets.command_line_template html
          else done (http_answer_404 t o conn)
    ]

  module _ (rawlog_get_record : ℤ → Bytes → Encoding → t.Conn → Run (ℤ × t.Conn)) where
    -- The end of `http_showsamp`, with all arguments at hand.
    unfoldable pub show_record : ℤ → Bytes → Encoding → t.Conn → Run t.Conn
    show_record timestamp lables encoding conn = do
      r ← rawlog_get_record timestamp lables encoding conn
      if ltb_ℤ r.0 (pos 0) then line r.1 (codes "missing sample") else done r.1

    unfoldable pub http_showsamp : Bytes → t.Conn → Run t.Conn
    http_showsamp req conn = elim (http_arg_long req (codes "timestamp")) [
      | none ↦ line conn (codes "missing timestamp")
      | some timestamp ↦ do
        found ← http_arg_str req (codes "lables") 1024
        elim found [
          | none ↦ line conn (codes "missing lables")
          | some lables ↦ do
            wanted ← http_arg_str req (codes "encoding") 16
            elim (encoding_of wanted) [
              | none ↦ line conn (codes "encoding supports none/deflate only")
              | some encoding ↦ show_record timestamp lables encoding conn
            ]
        ]
    ]

    -- The chain of comparisons.
    unfoldable pub dispatch : Bytes → Bytes → t.Conn → Run t.Conn
    dispatch location req conn =
        if length location == 0
        then page conn assets.index_html html
        else if str_eq location (codes "ping")
        then line conn (codes "pong")
        else if str_eq location (codes "help")
        then page conn assets.help html
        else if str_eq location (codes "favicon.ico")
        then page conn assets.favicon html
        else if str_eq location (codes "showsamp")
        then http_showsamp req conn
        else if str_eq location (codes "index.html")
        then page conn assets.index_html html
        else if str_eq location (codes "js/atop.js")
        then page conn assets.atop_js javascript
        else if str_eq location (codes "js/atop_parse.js")
        then page conn assets.atop_parse_js javascript
        else if str_eq location (codes "js/atop_compare_fc.js")
        then page conn assets.atop_compare_fc_js javascript
        else if str_eq location (codes "css/atop.css")
        then page conn assets.css_file css
        else if str_eq location (codes "template_header")
        then page conn assets.header_template html
        else if str_eq location (codes "template")
        then http_get_template req conn
        else done (http_answer_404 t o conn)

    -- `strlen` wants a terminating zero inside the buffer of `url_len` bytes.
    unfoldable pub http_process_request : Bytes → t.Conn → Run t.Conn
    http_process_request req conn = do
      assert (ltb (length req) url_len)
      (if ltb url_len (length req)
          then done (http_answer_404 t o conn)
          else dispatch (before_char b'?' req) req conn)
