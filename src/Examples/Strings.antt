-- ===== src/Examples/Strings.antt =====
-- Arguments, numbers and the output buffer.
use atophttpd.Prelude.{
  ◌≡◌, refl, false, [], ◌∷◌, ◌++◌, some, pos, negsuc, codes, arith, Returns, done, length, ◌<◌,
}
use atophttpd.CString.{is_digit, atol, print_int}
use atophttpd.CString.Number.{atol-print_int}
use atophttpd.Http.Args.Memory.{http_arg_str_in-eq}
use atophttpd.Http.Args.{http_arg_str_in, http_arg_long, http_arg_str}
use atophttpd.Http.Args.RoundTrip.{encode, http_arg_long-print_int, http_arg_str-encode}
use atophttpd.Http.Response.{http_generic, deflate, html}
use atophttpd.Http.Response.Head.{http_generic-lt}
use atophttpd.Output.{Output, buf, output_all}
use atophttpd.Output.Bounds.{IsBuffer, joined, output_all-joined}

atol-print_int_example : atol (print_int (negsuc 41) ++ codes "&lables=ALL") ≡ negsuc 41
unfolding is_digit
atol-print_int_example =
    atol-print_int (negsuc 41) (codes "&lables=ALL") (omega arith) (omega arith) refl

http_arg_long-print_int_example :
    http_arg_long
      (codes "showsamp?" ++ (codes "timestamp" ++ (b'=' ∷ (print_int (pos 1700) ++ codes "&x"))))
      (codes "timestamp")
    ≡ some (pos 1700)
unfolding is_digit
http_arg_long-print_int_example =
    http_arg_long-print_int (codes "showsamp?") b't' (codes "imestamp")
      (refl, (refl, (refl, (refl, (refl, (refl, (refl, (refl, (refl, tt))))))))) (pos 1700)
      (codes "&x") (omega arith) (omega arith) refl

http_arg_str-encode_example :
    http_arg_str
      (codes "s?x=1&" ++ (codes "lables" ++ (b'=' ∷ (encode (codes "CPU,MEM") ++ codes "&y"))))
      (codes "lables")
      1024
    ≡ done (some (codes "CPU,MEM"))
unfolding encode
http_arg_str-encode_example =
    http_arg_str-encode (codes "s?x=1&") b'l' (codes "ables")
      (refl, (refl, (refl, (refl, (refl, (refl, tt)))))) (codes "CPU,MEM") (codes "&y") 1024 refl
      (refl, (refl, (refl, (refl, (refl, (refl, (refl, tt)))))))
      (refl, (refl, (refl, (refl, (refl, (refl, (refl, tt))))))) (omega arith)

-- The value fits with a byte to spare, and the buffer was not empty before.
http_arg_str_in-eq_example :
    http_arg_str_in (codes "type=a%2Cb") (codes "type") (codes "????????")
    ≡ http_arg_str (codes "type=a%2Cb") (codes "type") 8
http_arg_str_in-eq_example =
    http_arg_str_in-eq (codes "type=a%2Cb") (codes "type") (codes "????????")
      (refl, (refl, (refl, (refl, (refl, (refl, (refl, (refl, (refl, (refl, tt))))))))))

http_generic-lt_example : length (http_generic deflate html 5000000000) < 128
http_generic-lt_example = http_generic-lt deflate html 5000000000

abbrev fresh : Output
fresh = record { output_type = buf; allocated = false; size = 0; contents = []; written = [] }

output_all-joined_example :
    Returns
      (output_all fresh (codes "{" ∷ codes "}" ∷ []))
      (λ r. IsBuffer r × (r.contents ≡ [] ++ joined (codes "{" ∷ codes "}" ∷ [])))
output_all-joined_example =
    output_all-joined (codes "{" ∷ codes "}" ∷ [])
      (record {
        is_buf = refl;
        fresh = λ h. refl;
        inside = λ h. absurd (cc h);
        enough = λ h. absurd (cc h);
      })
      (omega arith, (omega arith, tt)) (omega arith)
