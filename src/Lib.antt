-- ===== src/Lib.antt =====
-- A model of atophttpd: a server that indexes the rawlog files of atop by time and shows single
-- samples over HTTP.
--
-- Parts. Rawlog files are parsed into indices from times to offsets, which stand in one table; a
-- request for a time looks an index up, reads the record at the offset, and prints it as JSON into
-- an output buffer, which is sent as an HTTP response on a TCP or TLS connection.
--
--   Cache.antt, Cache/       cache.c, cache.h: one index per file and the table of indices.
--     `Cache` is `struct cache_t` with its array as the list of its cells in use; a pointer to an
--     index is its position in the table. `cache_get`, `cache_set`, `cache_sort`, `cache_alloc`,
--     `cache_free`, `cache_get_recent` are the functions of these names; `search` is the loop of
--     `cache_get`, `cache_get_covering` is `__cache_get`.
--   Rawlog.antt, Rawlog/     rawlog.c: `rawlog_parse_all`, `rawlog_parse_one`, `rawlog_rebuild_one`
--     and the loop over records that they share; Rawlog/Fetch.antt has `rawlog_get_record`.
--   Output.antt, Output/     output.c: the buffer that a sample is collected in.
--   Json.antt, Json/         json.c: Sample (what is read of a sample), Lines (arithmetic and loops),
--     Print (the 25 print functions), Out (`jsondef` and `jsonout`). Syntax is a recogniser of
--     JSON, Format checks the format strings with it, WellFormed puts the two together.
--   Printf.antt, Printf/     `snprintf` and `sprintf`, for the directives that json.c uses.
--   Http.antt, Http/         httpd.c: Args (the arguments of a URL), Response (heads and answers),
--     Routes (the pages and `http_process_request`), Request (`httpd_handle_request`), Update
--     (`httpd_update_cache`).
--   Connection.antt, Connection/  connection.h, connection.c, socket.c, tls.c: the operations of a
--     connection as a record with laws, the table of connection types, listening, and the TCP
--     connections that implement the record; Connection/Tls.antt has the sessions of TLS.
--   Server.antt, Server/     httpd.c: Options (`config` and the options of `main`), Listeners
--     (`httpd` and the start of `httpd_routine`), Samples (`rawlog_get_record` with the real
--     `jsonout`, `defop` and `http_show_samp_done`), Loop (the loop of `httpd_routine`), Start
--     (`main`, and the program as a whole).
--   CString.antt, CString/   what httpd.c uses of the C library on strings.
--   Atop.antt                what is taken from atop's headers and from the system.
--   Qsort.antt, Qsort/       `qsort`, which rearranges an array; no order is taken from it, since the
--     comparisons of cache.c are none that the C standard promises one for.
--   Prelude.antt, Prelude/   shared names, tests on numbers, lists, and runs.
--   Examples.antt, Examples/ the theorems at concrete inputs.
--
-- Conventions. A run is `done` with a result, or `crash`: a failed assertion or undefined behaviour
-- (a read or write outside an array, an overflow of an `int`). A function that fails with an error
-- number gives the number that the C function returns. Numbers of the program that cannot be
-- negative are natural numbers; where 32 bits matter the reduction is written out. A table or a
-- connection that is changed is passed in and handed back. Calls of the system are arguments with
-- the answers they give. `read` and `pread` answer all of a record, less of it, or fail; a failure
-- counts as a full read where the code tests it as an unsigned number, and a header or a record that
-- was never set is then a crash. What `write` and `writev` answer is left out, since no caller looks
-- at it: what is handed to them counts.
--
-- Fuel. The search of an index of n records has n + 1 rounds, which is enough, since every round
-- shortens the interval; the loop over the records of a file of n bytes has n + 1 rounds, and every
-- record takes at least a byte. Running out of fuel is a crash, so no statement gains from it;
-- the loop over records does run out where reads of a file fail for ever.
-- `print_digits` has 20 rounds, the digits of a 64-bit number.
--
-- Bounds. An index is looked up with at most 2^30 records, so that `left + right` is an `int`; an
-- index grows to at most 2^31 - 1 cells. A path in a folder must fit into 4096 bytes (PATH_MAX). A failing `malloc` is modelled in `rawlog_get_record`
-- alone, since the other callers do not look at it.
--
-- JSON. A print function is modelled by its texts in order; a text is made from the format string
-- as it stands in the source and a list of arguments. A floating-point number is the function from
-- a precision to the bytes that the C library prints for it, and `header` is the label in quotes.
-- A field of `struct sstat` or `struct tstat` is an integer, and a text that does not fit its buffer,
-- a number out of the range of its directive, or a count above the length of an array is a crash.
--
-- The loop. A round is what `epoll_wait` answers; a visit holds the answers of all calls while one
-- connection is served, and the files as they are meanwhile, for the request and for the update of
-- the indices behind it. Files may change between two visits, as `Grows` allows: a log stays where
-- it is, and records are added at its end. The connections of the loop are those of the TCP
-- listener; the program as a whole is the default build, without USE_TLS, which has no other, while
-- the start of `httpd` is modelled for both builds. `jsonout` is an argument of `rawlog_get_record` in Rawlog/Fetch.antt;
-- Server/Samples.antt passes the one of Json/Out.antt.
--
-- Not modelled: the loop on a connection of the TLS listener, in a build with
-- USE_TLS; `signal` and `daemon`; the set-up of
-- OpenSSL; memory that is freed; zlib and OpenSSL, whose answers are arguments; the messages that
-- are printed for an operator; the web pages, which are byte strings here; packaging.
mod Prelude
pub mod Qsort
pub mod Cache
pub mod Atop
pub mod Rawlog
pub mod Output
pub mod CString
pub mod Printf
pub mod Json
pub mod Connection
pub mod Http
pub mod Server
mod Examples
