-- ===== src/Http/Response/Samp.antt =====
-- What is sent for a sample.
use atophttpd.Prelude.{
  suc, ◌≡◌, inl, inr, refl, sym, ◌∙◌, ap, Bool, true, false, List, [], ◌∷◌, ◌++◌, append-nil, pos,
  eqb_ℤ, Bytes, Returns, Returns-map, length, Bool-cases,
}
use atophttpd.Connection.{Transport}
use atophttpd.Http.Response.{
  Encoding, plain, deflate, html, SockOpts, http_200, http_404, http_generic, http_prepare_response,
  http_response_200, http_answer_404, http_show_samp_done,
}
use atophttpd.Http.Response.Once.{Closed, http_response_200_lem}

-- A response, in its three parts.
abbrev pub response : Encoding → Bytes → List Bytes
response encoding body = http_200 ∷ http_generic encoding html (length body) ∷ body ∷ []

-- What is written for a sample before the response.
abbrev pub before_response : Encoding → Bool → List Bytes
before_response plain compressed = []
before_response deflate true = []
before_response deflate false = http_404 ∷ []

-- The body of the response.
abbrev pub sample_body : Encoding → Bytes → Bytes → Bytes
sample_body plain ob compressed = ob
sample_body deflate ob compressed = compressed

module _ (t : Transport) (o : SockOpts) (compress : Bytes → Bool × Bytes) (ob : Bytes) (c : t.Conn)
    (open_ : t.is_open c ≡ true) (ready : eqb_ℤ (http_prepare_response o) (pos 0) ≡ true) where
  sent_after :
      (d : t.Conn) (encoding : Encoding) (body : Bytes)
      → t.is_open d ≡ true
      → Returns
          (http_response_200 t o d body encoding html)
          (λ e. Closed t d e × (t.sent e ≡ t.sent d ++ response encoding body))
  sent_after d encoding body h =
      Returns-map _ _ (http_response_200 t o d body encoding html)
        (λ e r. (r.0, r.1 ∙ rw (ready) refl)) (http_response_200_lem t o d h body encoding html)

  alone :
      (encoding : Encoding) (body : Bytes)
      → Returns
          (http_response_200 t o c body encoding html)
          (λ d. Closed t c d × (t.sent d ≡ (t.sent c ++ []) ++ response encoding body))
  alone encoding body =
      Returns-map _ _ (http_response_200 t o c body encoding html)
        (λ d r. (r.0, r.1 ∙ ap (λ l. l ++ response encoding body) (sym (append-nil (t.sent c)))))
        (sent_after c encoding body open_)

  -- On an open connection whose socket can be prepared a sample is sent as one response, as it is
  -- or compressed, and the connection is closed exactly once; but a compression that fails sends an
  -- answer 404 before the response.
  pub http_show_samp_done_lem :
      (encoding : Encoding)
      → Returns (http_show_samp_done t o compress encoding ob c) (λ d.
        Closed t c d
        × (t.sent d
            ≡ (t.sent c ++ before_response encoding (compress ob).0)
              ++ response encoding (sample_body encoding ob (compress ob).1)))
  unfolding http_show_samp_done http_answer_404
  http_show_samp_done_lem plain = alone plain ob
  http_show_samp_done_lem deflate = elim (Bool-cases (compress ob).0) [
    | inl y ↦ rw (y) (alone deflate (compress ob).1)
    | inr n ↦
        let w = t.write_open c http_404 open_ in
        rw (n) (
          Returns-map _ _
            (http_response_200 t o (http_answer_404 t o c) (compress ob).1 deflate html)
            (λ d r. (
              (r.0.0, r.0.1 ∙ ap suc w.1),
              r.1 ∙ ap (λ l. l ++ response deflate (compress ob).1) w.2,
            ))
            (sent_after (http_answer_404 t o c) deflate (compress ob).1 w.0))
  ]
