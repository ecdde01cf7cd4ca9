-- ===== src/Http/Response/Once.antt =====
-- What an answer does to its connection.
use atophttpd.Prelude.{
  suc, ◌≡◌, ◌⊎◌, inl, inr, ◌∙◌, ap, true, false, List, [], ◌∷◌, ◌++◌, pos, eqb_ℤ, Bytes, Returns,
  Returns-map, length, lt→ltb, if◌then◌else◌, Bool-cases,
}
use atophttpd.Connection.{Transport}
use atophttpd.Http.Response.{
  Encoding, ContentType, SockOpts, http_200, http_404, http_generic, http_prepare_response,
  http_response_200, http_answer_404,
}
use atophttpd.Http.Response.Head.{http_generic-lt}

module _ (t : Transport) where
  -- Between two states of a connection that was open: still open, or closed exactly once.
  abbrev pub ClosedOnce : t.Conn → t.Conn → Type 0
  ClosedOnce c d =
      ((t.is_open d ≡ true) × (t.closes d ≡ t.closes c))
      ⊎ ((t.is_open d ≡ false) × (t.closes d ≡ suc (t.closes c)))

  -- Closed, exactly once.
  abbrev pub Closed : t.Conn → t.Conn → Type 0
  Closed c d = (t.is_open d ≡ false) × (t.closes d ≡ suc (t.closes c))

  pub close-Closed : (c d : t.Conn) → ClosedOnce c d → Closed c (t.close d)
  close-Closed c d (inl h) = let k = t.close_open d h.0 in (k.0, k.1 ∙ ap suc h.1)
  close-Closed c d (inr h) = rw (t.close_closed d h.0) h

  module _ (o : SockOpts) (c : t.Conn) (open_ : t.is_open c ≡ true) where
    pub http_answer_404-ClosedOnce : ClosedOnce c (http_answer_404 t o c)
    unfolding http_answer_404
    http_answer_404-ClosedOnce = let k = t.write_open c http_404 open_ in inl (k.0, k.1)

    module _ (body : Bytes) (encoding : Encoding) (content_type : ContentType) where
      abbrev message : List Bytes
      message = http_200 ∷ http_generic encoding content_type (length body) ∷ body ∷ []

      -- On an open connection `http_response_200` does not crash and leaves it closed exactly once;
      -- status line, head and body were sent if the socket could be prepared, and nothing if not.
      pub http_response_200_lem : Returns (http_response_200 t o c body encoding content_type) (λ d.
          Closed c d
          × (t.sent d ≡ (
              if eqb_ℤ (http_prepare_response o) (pos 0) then t.sent c ++ message else t.sent c)))
      unfolding http_response_200
      http_response_200_lem = elim (Bool-cases (eqb_ℤ (http_prepare_response o) (pos 0))) [
        | inl ready ↦
            let w = t.writev_open c message open_ in
            let k = t.close_open (t.writev c message) w.0 in
            rw
              (
                ready,
                http_response_200,
                lt→ltb _ _ (http_generic-lt encoding content_type (length body)),
              )
              ((k.0, k.1 ∙ ap suc w.1), k.2 ∙ w.2)
        | inr failed ↦
            let k = t.close_open c open_ in rw (failed, http_response_200) ((k.0, k.1), k.2)
      ]

      pub http_response_200-ClosedOnce :
          Returns (http_response_200 t o c body encoding content_type) (ClosedOnce c)
      http_response_200-ClosedOnce =
          Returns-map _ _ (http_response_200 t o c body encoding content_type) (λ d h. inr h.0)
            http_response_200_lem
