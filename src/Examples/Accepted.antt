-- ===== src/Examples/Accepted.antt =====
-- An accepted connection and small pages, for the examples.
use atophttpd.Prelude.{[], ◌∷◌, pos, codes}
use atophttpd.Connection.Socket.{Socket}
use atophttpd.Http.Response.{SockOpts}
use atophttpd.Http.Routes.{Assets}

abbrev pub accepted : Socket
accepted = record {
  fd = pos 7;
  port = pos 2867;
  bindaddr = codes "127.0.0.1";
  closed = 0;
  shut = 0;
  output = [];
}

abbrev pub ready : SockOpts
ready = record { nodelay = pos 0; blocking = pos 0; sndtimeo = pos 0 }

abbrev pub assets : Assets
assets = record {
  help = 1 ∷ [];
  favicon = 2 ∷ [];
  index_html = 3 ∷ [];
  atop_js = 4 ∷ [];
  atop_parse_js = 5 ∷ [];
  atop_compare_fc_js = 6 ∷ [];
  css_file = 7 ∷ [];
  header_template = 8 ∷ [];
  generic_template = 9 ∷ [];
  memory_template = 10 ∷ [];
  disk_template = 11 ∷ [];
  command_line_template = 12 ∷ [];
}
