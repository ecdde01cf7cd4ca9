-- ===== src/Examples/Server.antt =====
-- Requests and their answers.
use atophttpd.Prelude.{
  ℕ, suc, ◌<◌, ◌≡◌, refl, false, sym, ◌∙◌, List, [], ◌∷◌, ◌++◌, none, some, ℤ, pos, negsuc, eqb_ℤ,
  Bytes, codes, arith, Returns, Run, done, length, if◌then◌else◌,
}
use atophttpd.CString.{before_char, strstr_after, after_prefix}
use atophttpd.Http.Args.{after_equals}
use atophttpd.Http.Response.{
  Encoding, plain, html, crlf, http_200, http_generic, http_prepare_response, http_response_200,
  http_show_samp_done, deflate,
}
use atophttpd.Http.Response.Once.{Closed, http_response_200_lem}
use atophttpd.Http.Response.Samp.{response, before_response, sample_body, http_show_samp_done_lem}
use atophttpd.Http.Routes.{http_process_request}
use atophttpd.Http.Routes.Once.{ArgFits}
use atophttpd.Http.Routes.Pages.{resources, lookup, serve, http_process_request-eq-serve}
use atophttpd.Http.Request.{
  Event, poll_timeout, received, search_inbuf, header_state, read_request, request_url,
  httpd_handle_request,
}
use atophttpd.Http.Request.Once.{httpd_handle_request-Closed}
use atophttpd.Http.Request.Parse.{get_request, request_url-get_request}
use atophttpd.Http.Update.{update_all}
use atophttpd.Http.Update.Pace.{Paced, update_all-Paced}
use atophttpd.Connection.Socket.{Socket, sockets}
use atophttpd.Examples.Accepted.{accepted, ready, assets}

-- No sample is found.
abbrev no_record : ℤ → Bytes → Encoding → Socket → Run (ℤ × Socket)
no_record ts lables e w = done (negsuc 4, w)

http_response_200_lem_example :
    Returns (http_response_200 sockets ready accepted (codes "pong") plain html) (λ d.
      Closed sockets accepted d
      × (d.output ≡ (
          if eqb_ℤ (http_prepare_response ready) (pos 0)
          then [] ++ (http_200 ∷ http_generic plain html 4 ∷ codes "pong" ∷ [])
          else [])))
http_response_200_lem_example =
    http_response_200_lem sockets ready accepted refl (codes "pong") plain html

pub absent-ArgFits :
    (req needle : Bytes) (len : ℕ) → after_equals req needle ≡ none → ArgFits req needle len
absent-ArgFits req needle len e s h = absurd (cc (e, h))

http_process_request-eq-serve_example :
    http_process_request sockets ready assets no_record (codes "css/atop.css?v=1") accepted
    ≡ serve sockets ready assets no_record
        (codes "css/atop.css?v=1")
        accepted
        (lookup (before_char b'?' (codes "css/atop.css?v=1")) resources)
http_process_request-eq-serve_example =
    http_process_request-eq-serve sockets ready assets no_record (codes "css/atop.css?v=1") accepted
      (omega arith)

abbrev ping : Bytes
ping = get_request (codes "ping") (crlf ++ crlf)

request_url-get_request_example : request_url ping ≡ done (some (codes "ping"))
request_url-get_request_example =
    request_url-get_request (codes "ping") (crlf ++ crlf) (refl, (refl, (refl, (refl, tt))))
      (refl, (refl, (refl, (refl, tt)))) (refl, (refl, (refl, (refl, tt)))) (omega arith)

ping-url : request_url ping ≡ done (some (codes "ping"))
ping-url =
    request_url-get_request (codes "ping") (crlf ++ crlf) (refl, (refl, (refl, (refl, tt))))
      (refl, (refl, (refl, (refl, tt)))) (refl, (refl, (refl, (refl, tt)))) (omega arith)

-- The request comes in two parts.
abbrev events : List Event
events =
    received (codes "GET /pi")
    ∷ poll_timeout
    ∷ received (codes "ng HTTP/1.1" ++ (crlf ++ crlf))
    ∷ []

events-read : read_request events [] ≡ done (some ping)
unfolding read_request header_state search_inbuf strstr_after after_prefix before_char
events-read = refl

pub done-injective : {A : Type 0} (x y : A) → done (some x) ≡ done (some y) → x ≡ y
done-injective x y h = cc h

ping-absent :
    (needle : Bytes)
    → after_equals (codes "ping") needle ≡ none
    → (url : Bytes) → codes "ping" ≡ url
    → (len : ℕ) → ArgFits url needle len
ping-absent needle h url e len = rw (sym e) (absent-ArgFits (codes "ping") needle len h)

type-none : after_equals (codes "ping") (codes "type") ≡ none
unfolding after_equals strstr_after after_prefix
type-none = refl

encoding-none : after_equals (codes "ping") (codes "encoding") ≡ none
unfolding after_equals strstr_after after_prefix
encoding-none = refl

ping-fits :
    (inbuf url : Bytes)
    → read_request events [] ≡ done (some inbuf)
    → request_url inbuf ≡ done (some url)
    → (length url < 1024) × ArgFits url (codes "type") 256 × ArgFits url (codes "encoding") 16
ping-fits inbuf url r u =
    let at_end : ping ≡ inbuf = done-injective ping inbuf (sym events-read ∙ r) in
    let e : codes "ping" ≡ url =
      done-injective (codes "ping") url (sym ping-url ∙ (rw (at_end) u)) in
    (
      rw (sym e) (omega arith),
      ping-absent (codes "type") type-none url e 256,
      ping-absent (codes "encoding") encoding-none url e 16,
    )

httpd_handle_request-Closed_example :
    Returns
      (httpd_handle_request sockets ready assets no_record (pos 0) events accepted)
      (Closed sockets accepted)
httpd_handle_request-Closed_example =
    httpd_handle_request-Closed sockets ready assets no_record accepted refl (λ ts lables e. refl)
      (pos 0) events (omega arith) ping-fits

-- A compression that fails, as it does for a text this short.
http_show_samp_done_lem_example :
    Returns
      (http_show_samp_done sockets ready (λ ob. (false, ob)) deflate (codes "{}") accepted)
      (λ d.
        Closed sockets accepted d
        × (d.output
            ≡ ([] ++ before_response deflate false)
              ++ response deflate (sample_body deflate (codes "{}") (codes "{}"))))
unfolding http_prepare_response
http_show_samp_done_lem_example =
    http_show_samp_done_lem sockets ready (λ ob. (false, ob)) (codes "{}") accepted refl refl
      deflate

-- Four connections, and a parse that counts its calls.
update_all-Paced_example :
    Returns
      (update_all
        (λ n. done (pos 0, suc n))
        (100 ∷ 101 ∷ 104 ∷ 106 ∷ [])
        (record { update = 0; table = 0 }))
      (Paced (λ n. n) (record { update = 0; table = 0 }) 106)
update_all-Paced_example =
    update_all-Paced (λ n. done (pos 0, suc n)) (λ n. n) (λ n. refl) 100 (101 ∷ 104 ∷ 106 ∷ [])
      (record { update = 0; table = 0 }) (omega arith)
      (omega arith, (omega arith, (omega arith, tt)))
