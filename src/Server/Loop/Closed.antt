-- ===== src/Server/Loop/Closed.antt =====
-- Whatever the loop meets, it goes on with sound indices, and every connection is closed.
use atophttpd.Prelude.{
  ℕ, zero, suc, ◌+◌, ◌<◌, ◌≡◌, refl, ap₂, inl, inr, true, not, List, [], ◌∷◌, map, Option, none,
  some, pos, negsuc, eqb_ℤ, ltb_ℤ, Bytes, codes, ltb, length, ◌==◌, if◌then◌else◌, All, All-map,
  arith, done, Returns, Returns-bind, Returns-map, Bool-cases,
}
use atophttpd.Qsort.{Qsort}
use atophttpd.Cache.{Cache}
use atophttpd.Cache.Get.{IsServed}
use atophttpd.Atop.{Atop, RawFile, FileSystem, Sys, Sys-cases, ok, failed, minus}
use atophttpd.Connection.Socket.{
  Socket, no_fd, not-true, sockets, conn_socket_create, conn_socket_accept, conn_socket_close,
}
use atophttpd.Rawlog.{rawlog_parse_all}
use atophttpd.Rawlog.Fetch.{Format}
use atophttpd.Rawlog.Fetch.Ends.{CountsFit}
use atophttpd.Rawlog.Followed.{NamesFit, AreLogs, Follows, Grows, Grows-Follows, Follows-IsServed}
use atophttpd.Rawlog.Followed.Folder.{rawlog_parse_all-Follows}
use atophttpd.Http.Routes.{Assets, url_len}
use atophttpd.Http.Routes.Once.{ArgFits}
use atophttpd.Http.Request.{inbuf_size, read_request, request_url, httpd_handle_request}
use atophttpd.Http.Request.Once.{received_bytes, httpd_handle_request-Closed}
use atophttpd.Http.Update.{Updated, httpd_update_cache}
use atophttpd.Json.Lines.{Env}
use atophttpd.Server.Samples.{WithOutput, with_output, Decoder}
use atophttpd.Server.Samples.Sent.{StoredFits, get_record-Kept}
use atophttpd.Server.Loop.{
  Visit, Round, timeout, wait_error, visited, eintr, Serving, Stopped, record_handler, serve_conn,
  serve,
}

-- How often the descriptor of a connection is closed: once if there was one.
abbrev pub accepts : Sys ℕ → ℕ
accepts (failed e) = 0
accepts (ok clifd) = 1

-- The rounds up to an exit: how often each connection is closed, and the exit.
abbrev pub closes_of : List Round → List ℕ
closes_of [] = []
closes_of (timeout ∷ rounds) = closes_of rounds
closes_of (wait_error errno ∷ rounds) = if errno == eintr then closes_of rounds else []
closes_of (visited v ∷ rounds) = accepts v.accepted ∷ closes_of rounds

abbrev pub exit_of : List Round → Option ℕ
exit_of [] = none
exit_of (timeout ∷ rounds) = exit_of rounds
exit_of (wait_error errno ∷ rounds) = if errno == eintr then exit_of rounds else some 1
exit_of (visited v ∷ rounds) = exit_of rounds

module _ (a : Atop) (env : Env) (fmt : Format) (dec : Decoder fmt) (log_path : Bytes) where
  -- What is asked of the requests, of the files and of the folder during a visit, behind a state of the files.
  pub record IsSound (before : FileSystem) (v : Visit) : Type 0 where
    pub errno : (e : ℕ) → v.accepted ≡ failed e → 0 < e
    pub few : received_bytes v.events < inbuf_size
    pub fits :
        (inbuf url : Bytes)
        → read_request v.events [] ≡ done (some inbuf)
        → request_url inbuf ≡ done (some url)
        → (length url < url_len)
          × ArgFits url (codes "type") 256
          × ArgFits url (codes "encoding") 16
    pub logs : AreLogs a v.fs
    pub names : NamesFit v.opendir log_path
    pub grows : Grows a before v.fs
    pub counts : (name : Bytes) (f : RawFile) → v.fs.open_file name ≡ ok f → CountsFit fmt f
    pub stored : StoredFits a env fmt dec v.m v.fs

  -- Every visit is sound behind the one before it.
  abbrev pub AreSound : FileSystem → List Round → Type 0
  AreSound before [] = Unit
  AreSound before (timeout ∷ rounds) = AreSound before rounds
  AreSound before (wait_error errno ∷ rounds) = AreSound before rounds
  AreSound before (visited v ∷ rounds) = IsSound before v × AreSound v.fs rounds

  module _ (q : Qsort) (assets : Assets) where
    -- The indices behind a state of the files.
    abbrev pub Upkept : FileSystem → Serving → Type 0
    Upkept fs s = All (Follows a fs) s.indices.table

    -- A connection that was closed so often, and has no descriptor.
    abbrev pub Ended : Sys ℕ → Socket → Type 0
    Ended accepted c = (c.closed ≡ accepts accepted) × (no_fd c ≡ true)

    negative : (e : ℕ) → 0 < e → ltb_ℤ (minus e) (pos 0) ≡ true
    negative zero h = absurd (omega arith)
    negative (suc e) h = ground arith

    updated-Upkept :
        (v : Visit) (u : Updated (List Cache))
        → AreLogs a v.fs
        → NamesFit v.opendir log_path
        → All (Follows a v.fs) u.table
        → Returns
            (httpd_update_cache (rawlog_parse_all a q v.fs v.opendir log_path) v.now u)
            (λ u'. All (Follows a v.fs) u'.table)
    unfolding httpd_update_cache
    updated-Upkept v u logs names h = elim (Bool-cases (ltb v.now (u.update + 3))) [
      | inl y ↦ rw (y, httpd_update_cache) h
      | inr n ↦
          rw (n, httpd_update_cache)
            (Returns-bind _ _ (rawlog_parse_all a q v.fs v.opendir log_path u.table) _
              (rawlog_parse_all-Follows a q v.fs logs v.opendir log_path u.table names h)
              (λ r k. k.0))
    ]

    is_fd : (clifd : ℕ) → not (eqb_ℤ (pos clifd) (negsuc 0)) ≡ true
    is_fd clifd = ground arith

    served :
        (v : Visit) (s : Serving)
        → AreLogs a v.fs
        → All (Follows a v.fs) s.indices.table
        → All IsServed s.indices.table
    served v s logs h = All-map _ _ s.indices.table (λ c f. Follows-IsServed a v.fs logs c f) h

    serve_conn-Ended :
        (before : FileSystem) (v : Visit) (s : Serving)
        → IsSound before v
        → Upkept before s
        → Returns
            (serve_conn a q env fmt dec assets log_path v s)
            (λ r. Ended v.accepted r.0 × Upkept v.fs r.1)
    unfolding serve_conn conn_socket_accept conn_socket_close
    serve_conn-Ended before v s sound h = elim (Sys-cases v.accepted) [
      | inl (e, k) ↦
          let neg : ltb_ℤ (minus e) (pos 0) ≡ true = negative e (sound.errno e k) in
          rw (k, serve_conn, conn_socket_accept, neg) ((refl, refl), now_)
      | inr (clifd, k) ↦
          let w : WithOutput Socket = record {
            op = s.op;
            ready = s.ready;
            conn = record (conn_socket_create (negsuc 0) []) { fd = pos clifd };
          } in
          rw (k, serve_conn, conn_socket_accept)
            (Returns-bind _ _
              (httpd_handle_request (with_output sockets) v.opts assets
                (record_handler a q env fmt dec assets log_path v s) v.nonblocking v.events w)
              _
              (httpd_handle_request-Closed (with_output sockets) v.opts assets
                (record_handler a q env fmt dec assets log_path v s) w (is_fd clifd)
                (λ ts labels encoding.
                  get_record-Kept sockets v.opts v.compress a env fmt dec v.m v.fs v.lseek
                    v.stale_errno encoding w (is_fd clifd) sound.stored sound.counts s.indices.table
                    ts labels (served v s sound.logs now_))
                v.nonblocking v.events sound.few sound.fits)
              (λ w' closed.
                Returns-bind _ _
                  (httpd_update_cache (rawlog_parse_all a q v.fs v.opendir log_path) v.now
                    s.indices)
                  _ (updated-Upkept v s.indices sound.logs sound.names now_)
                  (λ u k'. ((closed.1, not-true (no_fd w'.conn) closed.0), k'))))
    ]
      where
        now_ : All (Follows a v.fs) s.indices.table
        now_ = All-map _ _ s.indices.table (Grows-Follows a before v.fs sound.grows) h

    -- What the loop leaves.
    abbrev pub Served : List Round → Stopped → Type 0
    Served rounds r =
        (r.exit ≡ exit_of rounds)
        × (map (λ c. c.closed) r.conns ≡ closes_of rounds)
        × All (λ c. no_fd c ≡ true) r.conns

    -- On the listener of TCP: when `accept` leaves an `errno` where it fails, fewer bytes than the
    -- buffer has arrive for a request, and every URL and its arguments fit their buffers; when no
    -- call on a file that can be opened fails, no read among them, and these files are logs of at
    -- most 2^30 records in order of time, which stay and only grow, with records that do not
    -- understate their processes and samples that fit under every label; when no name of the folder
    -- is too long for its buffer; when `qsort` rearranges what it is given, in whatever order; and
    -- when the indices hold the first records of their files: the loop never crashes, it goes on up
    -- to the first error of `epoll_wait` other than EINTR, and exits with 1 there; every connection
    -- that is accepted is closed, exactly once, and has no descriptor when it is freed.
    pub serve-Served :
        (before : FileSystem) (rounds : List Round) (s : Serving)
        → AreSound before rounds
        → Upkept before s
        → Returns (serve a q env fmt dec assets log_path rounds s) (Served rounds)
    unfolding serve
    serve-Served before [] s sound h = (refl, refl, tt)
    serve-Served before (timeout ∷ rounds) s sound h = serve-Served before rounds s sound h
    serve-Served before (wait_error errno ∷ rounds) s sound h = elim (Bool-cases (errno == eintr)) [
      | inl y ↦
          rw (y, serve)
            (Returns-map (Served rounds) _ (serve a q env fmt dec assets log_path rounds s)
              (λ r (exit, counted, freed). rw (y) (exit, counted, freed))
              (serve-Served before rounds s sound h))
      | inr n ↦ rw (n, serve) (rw (n) refl, rw (n) refl, tt)
    ]
    serve-Served before (visited v ∷ rounds) s sound h =
        Returns-bind _ _ (serve_conn a q env fmt dec assets log_path v s) _
          (serve_conn-Ended before v s sound.0 h)
          (λ r ((closed, gone), h').
            Returns-bind _ _ (serve a q env fmt dec assets log_path rounds r.1) _
              (serve-Served v.fs rounds r.1 sound.1 h')
              (λ rest (exit, counted, freed). (exit, ap₂ (◌∷◌) closed counted, (gone, freed))))
