-- ===== src/Http/Request/Parse.antt =====
-- A request line is read as it was written.
use atophttpd.Prelude.{
  ℕ, ◌+◌, ◌-◌, ◌≤◌, ◌≡◌, refl, sym, ap, ◌∙◌, false, ◌||◌, [], ◌∷◌, ◌++◌, append_assoc, append-nil,
  some, Bytes, codes, ltb, length, length-append, take, drop, done, arith, All-append,
}
use atophttpd.CString.{before_char, strstr_after, after_prefix}
use atophttpd.CString.Find.{Lacks, before_char-append, strstr_after-append}
use atophttpd.Http.Request.{search_inbuf, request_url}

-- A request for a URL.
abbrev pub get_request : Bytes → Bytes → Bytes
get_request url rest = codes "GET /" ++ (url ++ (codes " HTTP/1.1" ++ rest))

take-append : (s rest : Bytes) → take (length s) (s ++ rest) ≡ s
take-append [] rest = refl
take-append (c ∷ s) rest = ap (◌∷◌ c) (take-append s rest)

Lacks-before_char : (d : ℕ) (s : Bytes) → Lacks d s → before_char d s ≡ s
Lacks-before_char d s h = ap (before_char d) (sym (append-nil s)) ∙ before_char-append d s [] h tt

module _ (url rest : Bytes) (no_zero : Lacks 0 url) (ends : Lacks 0 rest)
    (no_h : Lacks b'H' url) where
  text-Lacks : Lacks 0 (get_request url rest)
  text-Lacks =
      All-append _ (codes "GET /") (url ++ (codes " HTTP/1.1" ++ rest))
        (refl, (refl, (refl, (refl, (refl, tt)))))
        (All-append _ url (codes " HTTP/1.1" ++ rest) no_zero
          (refl, (refl, (refl, (refl, (refl, (refl, (refl, (refl, (refl, ends))))))))))

  before_version : Bytes
  before_version = codes "GET /" ++ (url ++ codes " ")

  version-after : strstr_after (get_request url rest) (codes "HTTP/1.1") ≡ some rest
  unfolding before_version
  version-after =
      ap (λ s. strstr_after (codes "GET /" ++ s) (codes "HTTP/1.1"))
        (sym (append_assoc url (codes " ") (codes "HTTP/1.1" ++ rest)))
      ∙ strstr_after-append before_version b'H' (codes "TTP/1.1") rest (
          All-append _ (codes "GET /") (url ++ codes " ") (refl, (refl, (refl, (refl, (refl, tt)))))
            (All-append _ url (codes " ") no_h (refl, tt)))

  length-get_request : length (get_request url rest) ≡ 14 + length url + length rest
  length-get_request = omega (arith, length-append url (codes " HTTP/1.1" ++ rest))

  abbrev at : ℕ
  at = length (before_char 0 (get_request url rest)) - (length rest + 8)

  at_lem : at ≡ length url + 6
  at_lem =
      rw (Lacks-before_char 0 (get_request url rest) text-Lacks, length-get_request) (omega arith)

  search_inbuf-version : search_inbuf (get_request url rest) (codes "HTTP/1.1") ≡ done (some rest)
  unfolding search_inbuf
  search_inbuf-version =
      rw (search_inbuf, Lacks-before_char 0 (get_request url rest) text-Lacks, version-after) refl

  cut : take (at - 6) (drop 5 (get_request url rest)) ≡ url
  cut =
      let n : at - 6 ≡ length url = omega (arith, at_lem) in
      rw (n) (take-append url (codes " HTTP/1.1" ++ rest))

  -- The URL of a request line `GET /<url> HTTP/1.1` is read back, whatever follows, if it holds no
  -- `H`, no byte of the message is zero, and the URL has at most 1024 bytes.
  pub request_url-get_request :
      length url ≤ 1024 → request_url (get_request url rest) ≡ done (some url)
  unfolding request_url after_prefix
  request_url-get_request short =
      let fits : (ltb (1024 + 6) at || ltb at 6) ≡ false = ground (arith, at_lem, short) in
      rw (search_inbuf-version) (rw (fits) (ap (λ u. done (some u)) cut))
