-- ===== src/Connection/Listen.antt =====
-- `listen_to_port` of connection.c: the descriptors that it opens.
use atophttpd.Prelude.{
  ◌≡◌, inl, inr, refl, Bool, List, [], ◌∷◌, ◌++◌, Option, none, some, ℤ, pos, negsuc, ltb_ℤ, eqb_ℤ,
  if◌then◌else◌, Run, done, crash, Returns, Bool-cases,
}

-- What the calls for one of the addresses answer.
pub record Attempt : Type 0 where
  pub socket : ℤ
  pub reuseaddr : ℤ
  pub reuseport : ℤ
  pub bind : ℤ
  pub listen : ℤ

-- The descriptor that is returned, and those that were opened and closed, in order.
pub record Fds : Type 0 where
  pub sockfd : ℤ
  pub opened : List ℤ
  pub closed : List ℤ

abbrev pub bad : ℤ → Bool
bad ret = eqb_ℤ ret (negsuc 0)

-- The loop over the addresses; its end is the label `error` with no descriptor left.
unfoldable pub listen_loop : List Attempt → List ℤ → List ℤ → Fds
listen_loop [] opened closed = record { sockfd = negsuc 0; opened = opened; closed = closed }
listen_loop (a ∷ rest) opened closed =
    let skip = listen_loop rest opened closed in
    let opened' = opened ++ a.socket ∷ [] in
    let closed' = closed ++ a.socket ∷ [] in
    let next = listen_loop rest opened' closed' in
    let error : Fds = record { sockfd = negsuc 0; opened = opened'; closed = closed' } in
    if bad a.socket
    then skip
    else if ltb_ℤ a.reuseaddr (pos 0)
    then error
    else if ltb_ℤ a.reuseport (pos 0)
    then error
    else if bad a.bind
    then next
    else if bad a.listen
    then next
    else record { sockfd = a.socket; opened = opened'; closed = closed }

-- `none` is a failure of `getaddrinfo`: then `freeaddrinfo` is called on a pointer that was never
-- set.
unfoldable pub listen_to_port : Option (List Attempt) → Run Fds
listen_to_port none = crash
listen_to_port (some attempts) = done (listen_loop attempts [] [])

-- Every descriptor that was opened was closed, but for the one that is returned.
abbrev pub Balanced : Fds → Type 0
Balanced r = r.opened ≡ (if bad r.sockfd then r.closed else r.closed ++ r.sockfd ∷ [])

loop-Balanced : (attempts : List Attempt) (fds : List ℤ) → Balanced (listen_loop attempts fds fds)
unfolding listen_loop
loop-Balanced [] fds = refl
loop-Balanced (a ∷ rest) fds = elim (Bool-cases (bad a.socket)) [
  | inl none_ ↦ rw (none_) (loop-Balanced rest fds)
  | inr got ↦ elim (Bool-cases (ltb_ℤ a.reuseaddr (pos 0))) [
    | inl e ↦ rw (got, e) refl
    | inr e1 ↦ elim (Bool-cases (ltb_ℤ a.reuseport (pos 0))) [
      | inl e ↦ rw (got, e1, e) refl
      | inr e2 ↦ elim (Bool-cases (bad a.bind)) [
        | inl e ↦ rw (got, e1, e2, e) (loop-Balanced rest (fds ++ a.socket ∷ []))
        | inr e3 ↦ elim (Bool-cases (bad a.listen)) [
          | inl e ↦ rw (got, e1, e2, e3, e) (loop-Balanced rest (fds ++ a.socket ∷ []))
          | inr e4 ↦ rw (got, e1, e2, e3, e4) (rw (got) refl)
        ]
      ]
    ]
  ]
]

-- When `getaddrinfo` finds addresses, `listen_to_port` has closed every descriptor that it opened,
-- but for the one that it returns.
pub listen_to_port-Balanced :
    (attempts : List Attempt) → Returns (listen_to_port (some attempts)) Balanced
unfolding listen_to_port
listen_to_port-Balanced attempts = loop-Balanced attempts []
