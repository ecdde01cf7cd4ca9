-- ===== src/Json/Print/Net.antt =====
-- The print functions of json.c for the network.
use atophttpd.Prelude.{false, List, [], ◌∷◌, Bytes, codes, Run, done, ◌>>=◌}
use atophttpd.Printf.{Arg, int, num, str, format}
use atophttpd.Json.Sample.{Sstat, PerIntf}
use atophttpd.Json.Lines.{plus, line, array_lines, until_unnamed}

unfoldable pub net_format : Bytes
net_format = format (
    ", \"NET_GENERAL\": {" ∷ "\"rpacketsTCP\": %lld, " ∷ "\"spacketsTCP\": %lld, "
    ∷ "\"inerrTCP\": %lld, " ∷ "\"oresetTCP\": %lld, " ∷ "\"activeOpensTCP\": %lld, "
    ∷ "\"passiveOpensTCP\": %lld, " ∷ "\"retransSegsTCP\": %lld, " ∷ "\"noportUDP\": %lld, "
    ∷ "\"inerrUDP\": %lld, " ∷ "\"rpacketsUDP\": %lld, " ∷ "\"spacketsUDP\": %lld, "
    ∷ "\"rpacketsIP\": %lld, " ∷ "\"spacketsIP\": %lld, " ∷ "\"dpacketsIP\": %lld, "
    ∷ "\"fpacketsIP\": %lld, " ∷ "\"icmpi\" : %lld, " ∷ "\"icmpo\" : %lld}" ∷ [])

unfoldable pub net_args : Sstat → List Arg
net_args ss =
    num ss.net.tcp.in_segs
    ∷ num ss.net.tcp.out_segs
    ∷ num ss.net.tcp.in_errs
    ∷ num ss.net.tcp.out_rsts
    ∷ num ss.net.tcp.active_opens
    ∷ num ss.net.tcp.passive_opens
    ∷ num ss.net.tcp.retrans_segs
    ∷ num ss.net.udpv4.no_ports
    ∷ num ss.net.udpv4.in_errors
    ∷ int (plus ss.net.udpv4.in_datagrams ss.net.udpv6.udp6_in_datagrams)
    ∷ int (plus ss.net.udpv4.out_datagrams ss.net.udpv6.udp6_out_datagrams)
    ∷ int (plus ss.net.ipv4.in_receives ss.net.ipv6.ip6_in_receives)
    ∷ int (plus ss.net.ipv4.out_requests ss.net.ipv6.ip6_out_requests)
    ∷ int (plus ss.net.ipv4.in_delivers ss.net.ipv6.ip6_in_delivers)
    ∷ int (plus ss.net.ipv4.forw_datagrams ss.net.ipv6.ip6_out_forw_datagrams)
    ∷ int (plus ss.net.icmpv4.in_msgs ss.net.icmpv6.icmp6_in_msgs)
    ∷ int (plus ss.net.icmpv4.out_msgs ss.net.icmpv6.icmp6_out_msgs)
    ∷ []

unfoldable pub intf_format : Bytes
intf_format = format (
    "{\"name\": \"%.19s\", " ∷ "\"rpack\": %lld, " ∷ "\"rbyte\": %lld, " ∷ "\"rerrs\": %lld, "
    ∷ "\"rdrops\": %lld, " ∷ "\"spack\": %lld, " ∷ "\"sbyte\": %lld, " ∷ "\"serrs\": %lld, "
    ∷ "\"sdrops\": %lld, " ∷ "\"speed\": \"%ld\", " ∷ "\"coll\": %lld, " ∷ "\"multi\": %lld, "
    ∷ "\"duplex\": %d}" ∷ [])

unfoldable pub intf_args : PerIntf → List Arg
intf_args x =
    str x.name
    ∷ num x.rpack
    ∷ num x.rbyte
    ∷ num x.rerrs
    ∷ num x.rdrop
    ∷ num x.spack
    ∷ num x.sbyte
    ∷ num x.serrs
    ∷ num x.sdrop
    ∷ num x.speed
    ∷ num x.scollis
    ∷ num x.rmultic
    ∷ num x.duplex
    ∷ []

unfoldable pub json_print_net : Sstat → Run (List Bytes)
json_print_net ss = do
  general ← line net_format (net_args ss)
  xs ← until_unnamed (λ x. x.name) ss.intf
  rest ← array_lines (codes "NET") (λ x. false) (λ i x. line intf_format (intf_args x)) xs
  done (general ∷ rest)
