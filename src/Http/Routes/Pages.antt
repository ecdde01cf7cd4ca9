-- ===== src/Http/Routes/Pages.antt =====
-- The pages of the server as a table.
use atophttpd.Prelude.{
  ◌<◌, ◌≡◌, refl, ◌∙◌, Bool, true, false, List, [], ◌∷◌, Option, none, some, ℤ, Bytes, codes,
  str_eq, ltb, lt→ltb, ◌==◌, if◌then◌else◌, length, Run, done, arith,
}
use atophttpd.CString.{before_char}
use atophttpd.Connection.{Transport}
use atophttpd.Http.Response.{
  Encoding, ContentType, html, css, javascript, SockOpts, http_answer_404,
}
use atophttpd.Http.Routes.{
  Assets, url_len, page, line, http_get_template, http_showsamp, dispatch, http_process_request,
}

-- What is found at a location: a built-in file, the line `pong`, a sample or a template.
pub data Resource : Type 0 where
  built_in : (Assets → Bytes) → ContentType → Resource
  pong sample template : Resource

-- The resources by location.
abbrev pub resources : List (Bytes × Resource)
resources =
    (codes "", built_in (λ a. a.index_html) html)
    ∷ (codes "ping", pong)
    ∷ (codes "help", built_in (λ a. a.help) html)
    ∷ (codes "favicon.ico", built_in (λ a. a.favicon) html)
    ∷ (codes "showsamp", sample)
    ∷ (codes "index.html", built_in (λ a. a.index_html) html)
    ∷ (codes "js/atop.js", built_in (λ a. a.atop_js) javascript)
    ∷ (codes "js/atop_parse.js", built_in (λ a. a.atop_parse_js) javascript)
    ∷ (codes "js/atop_compare_fc.js", built_in (λ a. a.atop_compare_fc_js) javascript)
    ∷ (codes "css/atop.css", built_in (λ a. a.css_file) css)
    ∷ (codes "template_header", built_in (λ a. a.header_template) html)
    ∷ (codes "template", template)
    ∷ []

-- The entry of a location.
abbrev pub lookup : Bytes → List (Bytes × Resource) → Option Resource
lookup location [] = none
lookup location (e ∷ es) = if str_eq location e.0 then some e.1 else lookup location es

str_eq-nil : (s : Bytes) → str_eq s [] ≡ (length s == 0)
unfolding str_eq
str_eq-nil [] = refl
str_eq-nil (c ∷ s) = ground arith

module _ (t : Transport) (o : SockOpts) (assets : Assets)
    (rawlog_get_record : ℤ → Bytes → Encoding → t.Conn → Run (ℤ × t.Conn)) (req : Bytes)
    (conn : t.Conn) where
  -- The answer to a request for a resource.
  abbrev pub serve : Option Resource → Run t.Conn
  serve none = done (http_answer_404 t o conn)
  serve (some (built_in file content_type)) = page t o assets conn (file assets) content_type
  serve (some pong) = line t o assets conn (codes "pong")
  serve (some sample) = http_showsamp t o assets rawlog_get_record req conn
  serve (some template) = http_get_template t o assets req conn

  step :
      (b : Bool) (r : Resource) (k : Option Resource) (rest : Run t.Conn)
      → rest ≡ serve k
      → (if b then serve (some r) else rest) ≡ serve (if b then some r else k)
  step true r k rest h = refl
  step false r k rest h = h

  -- The comparisons, one after the other.
  abbrev chain : Bytes → List (Bytes × Resource) → Run t.Conn
  chain location [] = serve none
  chain location (e ∷ es) = if str_eq location e.0 then serve (some e.1) else chain location es

  chain_lem :
      (location : Bytes) (es : List (Bytes × Resource))
      → chain location es ≡ serve (lookup location es)
  chain_lem location [] = refl
  chain_lem location (e ∷ es) =
      step (str_eq location e.0) e.1 (lookup location es) (chain location es)
        (chain_lem location es)

  dispatch-eq-serve :
      (location : Bytes)
      → dispatch t o assets rawlog_get_record location req conn ≡ serve (lookup location resources)
  unfolding dispatch
  dispatch-eq-serve location =
      let first : dispatch t o assets rawlog_get_record location req conn
          ≡ chain location resources =
        rw (str_eq-nil location) refl in
      first ∙ chain_lem location resources

  -- A request shorter than its buffer is answered by the resource that the table has for the part
  -- before its first `?`, and by 404 if the table has none.
  pub http_process_request-eq-serve :
      length req < url_len
      → http_process_request t o assets rawlog_get_record req conn
        ≡ serve (lookup (before_char b'?' req) resources)
  unfolding http_process_request
  http_process_request-eq-serve short =
      let ok = lt→ltb _ _ short in
      let in_time : ltb url_len (length req) ≡ false = ground (arith, short) in
      rw (ok, in_time, http_process_request) (dispatch-eq-serve (before_char b'?' req))
