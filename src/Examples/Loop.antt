-- ===== src/Examples/Loop.antt =====
-- The folder of the files, and a server that is asked for a sample, and whose `epoll_wait` then fails.
use mathlib.Core.Option.{some-injective}
use atophttpd.Prelude.{
  ℕ, Bool, false, ◌≡◌, refl, sym, subst, ap, true, List, [], ◌∷◌, ◌++◌, none, some, pos, Bytes,
  codes, arith, map, Returns, Run, done, length, ◌<◌, ◌⊎◌, inl, inr, ◌∙◌, All,
}
use atophttpd.CString.{strstr_after, after_prefix, before_char}
use atophttpd.Atop.{RawRecord, RawFile, Sys, ok, failed, full_read, failed_read}
use atophttpd.Connection.Socket.{no_fd}
use atophttpd.Rawlog.Fetch.{
  Format, Devtstat, rawlog_get_devtstat, rawlog_uncompress_record, fill_devtstat, build_devtstat,
}
use atophttpd.Rawlog.Fetch.Ends.{CountsFit}
use atophttpd.Rawlog.Records.{Records-unique}
use atophttpd.Rawlog.{rawlog_parse_all}
use atophttpd.Cache.Get.{IsServed}
use atophttpd.Rawlog.Followed.{NamesFit, IsLog, AreLogs, Follows, Grows}
use atophttpd.Rawlog.Followed.Folder.{rawlog_parse_all-Follows}
use atophttpd.Http.Args.{after_equals}
use atophttpd.Http.Response.{crlf}
use atophttpd.Http.Routes.Once.{ArgFits}
use atophttpd.Http.Request.{received, read_request, request_url, header_state, search_inbuf}
use atophttpd.Printf.{pieces, role}
use atophttpd.CString.{is_digit}
use atophttpd.Json.Out.{general_format}
use atophttpd.Json.WellFormed.Whole.{GeneralFits}
use atophttpd.Server.Samples.{Decoder}
use atophttpd.Server.Samples.Sent.{StoredFits}
use atophttpd.Server.Loop.{Visit, Round, timeout, wait_error, visited, Serving, serve}
use atophttpd.Server.Loop.Closed.{IsSound, AreSound, serve-Served}
use atophttpd.Examples.Labels.{new_buffer, new_buffer-IsBuffer}
use atophttpd.Examples.Server.{done-injective, absent-ArgFits}
use atophttpd.Examples.Accepted.{ready, assets}
use atophttpd.Examples.Files.{
  atop, file, files, record_of, file-IsFile, file-Records, old_index, elem_at,
}
use atophttpd.Examples.Fetch.{memory}
use atophttpd.Examples.Sorter.{sorter}
use atophttpd.Examples.Sample.{small_env, small_task}
use atophttpd.Examples.Whole.{whole}
use atophttpd.Examples.Roomy.{whole-SampleFits}

-- A record holds no tasks.
abbrev pub no_tasks : Format
no_tasks = record {
  Tstat = Unit;
  isproc = λ t. true;
  wasinactive = λ t. true;
  tasks = λ n data_. [];
  uncompress = λ n data_. some data_;
}

abbrev pub decoder : Decoder no_tasks
decoder = record { sstat_of = λ data_. whole; tstat_of = λ t. small_task }

-- The three records of the file.
record_at-cases :
    (off : ℕ) (rr : RawRecord)
    → file.record_at off ≡ full_read rr
    → (rr ≡ record_of 100) ⊎ ((rr ≡ record_of 110) ⊎ (rr ≡ record_of 120))
record_at-cases off rr e = ground arith

reads : (off : ℕ) → ¬ (file.record_at off ≡ failed_read)
reads off e = ground arith

only_file : (f : RawFile) → ok file ≡ ok f → file ≡ f
only_file f h = cc h

file-IsLog : IsLog atop file
file-IsLog = record {
  is_file = file-IsFile;
  header_reads = λ e. cc e;
  reads = reads;
  start = 480;
  told = refl;
  st = record { st_size = 792; st_mtim = 7 };
  stated = refl;
  ascending = λ es r. rw (Records-unique atop file refl r file-Records) (omega arith);
  few = λ es r. rw (Records-unique atop file refl r file-Records) (omega arith);
}

pub files-AreLogs : AreLogs atop files
files-AreLogs name f opened = subst (IsLog atop) (only_file f opened) file-IsLog

files-Grows : Grows atop files files
files-Grows name f opened = (f, opened, λ es h. h)

files-CountsFit : (name : Bytes) (f : RawFile) → files.open_file name ≡ ok f → CountsFit no_tasks f
files-CountsFit name f opened off rr data_ e = (omega arith, omega arith)

taskall_of : Run (Sys (Devtstat no_tasks)) → List (Unit {0})
taskall_of (done (ok d)) = d.taskall
taskall_of _ = []

general :
    (rr : RawRecord)
    → (rr ≡ record_of 100) ⊎ ((rr ≡ record_of 110) ⊎ (rr ≡ record_of 120))
    → GeneralFits small_env rr.curtime (pos rr.interval)
unfolding general_format pieces role is_digit
general rr (inl e) = rw (e) (((refl, (refl, (refl, (refl, tt)))), omega arith), (refl, (refl, tt)))
general rr (inr (inl e)) =
    rw (e) (((refl, (refl, (refl, (refl, tt)))), omega arith), (refl, (refl, tt)))
general rr (inr (inr e)) =
    rw (e) (((refl, (refl, (refl, (refl, tt)))), omega arith), (refl, (refl, tt)))

files-StoredFits : StoredFits atop small_env no_tasks decoder memory files
unfolding rawlog_get_devtstat rawlog_uncompress_record fill_devtstat build_devtstat taskall_of
files-StoredFits flags rr d sstat s =
    let same = only_file s.f s.opened in
    let none_ : [] ≡ d.taskall = ap taskall_of (rw (sym same) at s.has_devtstat) in
    (
      general rr (record_at-cases s.off rr (rw (sym same) at s.at)),
      rw (sym none_) (whole-SampleFits flags),
    )

abbrev url : Bytes
url = codes "showsamp?timestamp=105&lables=CPL&encoding=none"

abbrev request : Bytes
request = codes "GET /" ++ url ++ codes " HTTP/1.1" ++ crlf ++ crlf

request-read : read_request (received request ∷ []) [] ≡ done (some request)
unfolding read_request header_state search_inbuf strstr_after after_prefix before_char
request-read = refl

request-url : request_url request ≡ done (some url)
unfolding request_url search_inbuf strstr_after after_prefix before_char
request-url = refl

no_type : after_equals url (codes "type") ≡ none
unfolding after_equals strstr_after after_prefix
no_type = refl

encoding-ArgFits : ArgFits url (codes "encoding") 16
unfolding after_equals strstr_after after_prefix before_char
encoding-ArgFits s e = let k : codes "none" ≡ s = some-injective _ _ e in rw (sym k) (omega arith)

request-fits :
    (inbuf got : Bytes)
    → read_request (received request ∷ []) [] ≡ done (some inbuf)
    → request_url inbuf ≡ done (some got)
    → (length got < 1024) × ArgFits got (codes "type") 256 × ArgFits got (codes "encoding") 16
request-fits inbuf got r u =
    let at_end : request ≡ inbuf = done-injective request inbuf (sym request-read ∙ r) in
    let e : url ≡ got = done-injective url got (sym request-url ∙ (rw (at_end) u)) in
    (
      rw (sym e) (omega arith),
      rw (sym e) (absent-ArgFits url (codes "type") 256 no_type),
      rw (sym e) encoding-ArgFits,
    )

abbrev visit : Sys ℕ → ℕ → Visit
visit accepted now = record {
  accepted = accepted;
  nonblocking = pos 0;
  events = received request ∷ [];
  opts = ready;
  compress = λ ob. (true, ob);
  m = memory;
  fs = files;
  lseek = λ f off. ok off;
  stale_errno = 0;
  opendir = λ path. ok ((true, codes "log") ∷ []);
  now = now;
}

entries-injective : (xs ys : List (Bool × Bytes)) → ok xs ≡ ok ys → xs ≡ ys
entries-injective xs ys h = cc h

pub one-NamesFit : NamesFit (λ path. ok ((true, codes "log") ∷ [])) (codes "logs")
one-NamesFit entries e =
    let k : (true, codes "log") ∷ [] ≡ entries = entries-injective _ _ e in
    rw (sym k) (omega arith, tt)

many-NamesFit :
    NamesFit
      (λ path. ok ((true, codes "log") ∷ (false, codes "..") ∷ (true, codes "old") ∷ []))
      (codes "logs")
many-NamesFit entries e =
    let k : (true, codes "log") ∷ (false, codes "..") ∷ (true, codes "old") ∷ [] ≡ entries =
      entries-injective _ _ e in
    rw (sym k) (omega arith, (omega arith, (omega arith, tt)))

visit-IsSound :
    (accepted : Sys ℕ) (now : ℕ)
    → ((e : ℕ) → accepted ≡ failed e → 0 < e)
    → IsSound atop small_env no_tasks decoder (codes "logs") files (visit accepted now)
visit-IsSound accepted now errno = record {
  errno = errno;
  few = omega arith;
  fits = request-fits;
  logs = files-AreLogs;
  names = one-NamesFit;
  grows = files-Grows;
  counts = files-CountsFit;
  stored = files-StoredFits;
}

-- A first connection is answered and brings the index of the file; a second one gets the sample; a
-- third one is not accepted; then `epoll_wait` is interrupted, and then it fails.
abbrev pub rounds : List Round
rounds =
    timeout
    ∷ visited (visit (ok 7) 100)
    ∷ visited (visit (ok 8) 101)
    ∷ visited (visit (failed 24) 105)
    ∷ wait_error 4
    ∷ wait_error 9
    ∷ timeout
    ∷ []

abbrev at_start : Serving
at_start = record {
  indices = record { update = 0; table = [] };
  op = new_buffer;
  ready = (new_buffer-IsBuffer, refl);
}

pub rounds-AreSound : AreSound atop small_env no_tasks decoder (codes "logs") files rounds
rounds-AreSound = (
  visit-IsSound (ok 7) 100 (λ e h. absurd (cc h)),
  (
    visit-IsSound (ok 8) 101 (λ e h. absurd (cc h)),
    (visit-IsSound (failed 24) 105 (λ e h. let k : 24 ≡ e = cc h in omega (arith, k)), tt),
  ),
)

serve-Served_example :
    Returns
      (serve atop sorter small_env no_tasks decoder assets (codes "logs") rounds at_start)
      (λ r.
        (r.exit ≡ some 1)
        × (map (λ c. c.closed) r.conns ≡ 1 ∷ 1 ∷ 0 ∷ [])
        × All (λ c. no_fd c ≡ true) r.conns)
serve-Served_example =
    serve-Served atop small_env no_tasks decoder (codes "logs") sorter assets files rounds at_start
      rounds-AreSound tt

-- The index of the file before its last record.
short_index-Follows : Follows atop files (record old_index { name = codes "logs/log" })
short_index-Follows = record {
  f = file;
  opened = refl;
  file = record { start = 480; told = refl; more = elem_at 120 688 ∷ []; records = file-Records };
  valid = omega arith;
  some_elem = omega arith;
}

rawlog_parse_all-Follows_example :
    Returns
      (rawlog_parse_all atop sorter files
        (λ path. ok ((true, codes "log") ∷ (false, codes "..") ∷ (true, codes "old") ∷ []))
        (codes "logs")
        (record old_index { name = codes "logs/log" } ∷ []))
      (λ r. All (Follows atop files) r.1 × All IsServed r.1)
rawlog_parse_all-Follows_example =
    rawlog_parse_all-Follows atop sorter files files-AreLogs
      (λ path. ok ((true, codes "log") ∷ (false, codes "..") ∷ (true, codes "old") ∷ []))
      (codes "logs") (record old_index { name = codes "logs/log" } ∷ []) many-NamesFit
      (short_index-Follows, tt)
