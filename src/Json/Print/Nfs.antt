-- ===== src/Json/Print/Nfs.antt =====
-- The print functions of json.c for NFS.
use atophttpd.Prelude.{false, List, [], ◌∷◌, pos, Bytes, codes, Run, ◌>>=◌}
use atophttpd.Printf.{Arg, int, num, str, format}
use atophttpd.Json.Sample.{Sstat, PerNfsMount}
use atophttpd.Json.Lines.{Env, times, line, object_line, array_lines, first_n}

unfoldable pub nfm_format : Bytes
nfm_format = format (
    "{\"mountdev\": \"%.19s\", " ∷ "\"bytestotread\": %lld, " ∷ "\"bytestotwrite\": %lld, "
    ∷ "\"bytesread\": %lld, " ∷ "\"byteswrite\": %lld, " ∷ "\"bytesdread\": %lld, "
    ∷ "\"bytesdwrite\": %lld, " ∷ "\"pagesmread\": %lld, " ∷ "\"pagesmwrite\": %lld}" ∷ [])

unfoldable pub nfm_args : Env → PerNfsMount → List Arg
nfm_args env x =
    str x.mountdev
    ∷ num x.bytestotread
    ∷ num x.bytestotwrite
    ∷ num x.bytesread
    ∷ num x.byteswrite
    ∷ num x.bytesdread
    ∷ num x.bytesdwrite
    ∷ int (times x.pagesmread (pos env.pagesize))
    ∷ int (times x.pagesmwrite (pos env.pagesize))
    ∷ []

unfoldable pub json_print_nfm : Env → Sstat → Run (List Bytes)
json_print_nfm env ss = do
  xs ← first_n ss.nfs.nrmounts ss.nfs.nfsmnt
  array_lines (codes "NFM") (λ x. false) (λ i x. line nfm_format (nfm_args env x)) xs

unfoldable pub nfc_format : Bytes
nfc_format = format (
    ", %s: {" ∷ "\"rpccnt\": %lld, " ∷ "\"rpcread\": %lld, " ∷ "\"rpcwrite\": %lld, "
    ∷ "\"rpcretrans\": %lld, " ∷ "\"rpcautrefresh\": %lld}" ∷ [])

unfoldable pub nfc_args : Sstat → List Arg
nfc_args ss =
    num ss.nfs.client.rpccnt
    ∷ num ss.nfs.client.rpcread
    ∷ num ss.nfs.client.rpcwrite
    ∷ num ss.nfs.client.rpcretrans
    ∷ num ss.nfs.client.rpcautrefresh
    ∷ []

unfoldable pub json_print_nfc : Sstat → Run (List Bytes)
json_print_nfc ss = object_line (codes "NFC") nfc_format (nfc_args ss)

unfoldable pub nfs_format : Bytes
nfs_format = format (
    ", %s: {" ∷ "\"rpccnt\": %lld, " ∷ "\"rpcread\": %lld, " ∷ "\"rpcwrite\": %lld, "
    ∷ "\"nrbytes\": %lld, " ∷ "\"nwbytes\": %lld, " ∷ "\"rpcbadfmt\": %lld, "
    ∷ "\"rpcbadaut\": %lld, " ∷ "\"rpcbadcln\": %lld, " ∷ "\"netcnt\": %lld, "
    ∷ "\"nettcpcnt\": %lld, " ∷ "\"netudpcnt\": %lld, " ∷ "\"nettcpcon\": %lld, "
    ∷ "\"rchits\": %lld, " ∷ "\"rcmiss\": %lld, " ∷ "\"rcnocache\": %lld}" ∷ [])

unfoldable pub nfs_args : Sstat → List Arg
nfs_args ss =
    num ss.nfs.server.rpccnt
    ∷ num ss.nfs.server.rpcread
    ∷ num ss.nfs.server.rpcwrite
    ∷ num ss.nfs.server.nrbytes
    ∷ num ss.nfs.server.nwbytes
    ∷ num ss.nfs.server.rpcbadfmt
    ∷ num ss.nfs.server.rpcbadaut
    ∷ num ss.nfs.server.rpcbadcln
    ∷ num ss.nfs.server.netcnt
    ∷ num ss.nfs.server.nettcpcnt
    ∷ num ss.nfs.server.netudpcnt
    ∷ num ss.nfs.server.nettcpcon
    ∷ num ss.nfs.server.rchits
    ∷ num ss.nfs.server.rcmiss
    ∷ num ss.nfs.server.rcnoca
    ∷ []

unfoldable pub json_print_nfs : Sstat → Run (List Bytes)
json_print_nfs ss = object_line (codes "NFS") nfs_format (nfs_args ss)
