-- ===== src/Json/Print/Devices.antt =====
-- The print functions of json.c for devices.
use atophttpd.Prelude.{ℕ, false, List, [], ◌∷◌, pos, Bytes, codes, Run, ◌>>=◌}
use atophttpd.Printf.{Arg, num, str, format}
use atophttpd.Json.Sample.{Sstat, PerGpu, PerDsk, PerIfb}
use atophttpd.Json.Lines.{line, array_lines, first_n, until_unnamed}

unfoldable pub gpu_format : Bytes
gpu_format = format (
    "{\"gpuid\": %d, " ∷ "\"busid\": \"%.19s\", " ∷ "\"type\": \"%.19s\", " ∷ "\"gpupercnow\": %d, "
    ∷ "\"mempercnow\": %d, " ∷ "\"memtotnow\": %lld, " ∷ "\"memusenow\": %lld, "
    ∷ "\"samples\": %lld, " ∷ "\"gpuperccum\": %lld, " ∷ "\"memperccum\": %lld, "
    ∷ "\"memusecum\": %lld}" ∷ [])

unfoldable pub gpu_args : ℕ → PerGpu → List Arg
gpu_args i x =
    num (pos i)
    ∷ str x.busid
    ∷ str x.type
    ∷ num x.gpupercnow
    ∷ num x.mempercnow
    ∷ num x.memtotnow
    ∷ num x.memusenow
    ∷ num x.samples
    ∷ num x.gpuperccum
    ∷ num x.memperccum
    ∷ num x.memusecum
    ∷ []

unfoldable pub json_print_gpu : Sstat → Run (List Bytes)
json_print_gpu ss = do
  xs ← first_n ss.gpu.nrgpus ss.gpu.gpu
  array_lines (codes "GPU") (λ x. false) (λ i x. line gpu_format (gpu_args i x)) xs

unfoldable pub lvm_format : Bytes
lvm_format = format (
    "{\"lvmname\": \"%.19s\", " ∷ "\"io_ms\": %lld, " ∷ "\"nread\": %lld, " ∷ "\"ndiscrd\": %lld, "
    ∷ "\"nrsect\": %lld, " ∷ "\"nwrite\": %lld, " ∷ "\"nwsect\": %lld, " ∷ "\"avque\": %lld, "
    ∷ "\"inflight\": %lld}" ∷ [])

unfoldable pub lvm_args : PerDsk → List Arg
lvm_args x =
    str x.name
    ∷ num x.io_ms
    ∷ num x.nread
    ∷ num x.ndisc
    ∷ num x.nrsect
    ∷ num x.nwrite
    ∷ num x.nwsect
    ∷ num x.avque
    ∷ num x.inflight
    ∷ []

unfoldable pub json_print_lvm : Sstat → Run (List Bytes)
json_print_lvm ss = do
  xs ← until_unnamed (λ x. x.name) ss.dsk.lvm
  array_lines (codes "LVM") (λ x. false) (λ i x. line lvm_format (lvm_args x)) xs

unfoldable pub mdd_format : Bytes
mdd_format = format (
    "{\"mddname\": \"%.19s\", " ∷ "\"io_ms\": %lld, " ∷ "\"nread\": %lld, " ∷ "\"nrsect\": %lld, "
    ∷ "\"nwrite\": %lld, " ∷ "\"nwsect\": %lld, " ∷ "\"avque\": %lld, " ∷ "\"inflight\": %lld}"
    ∷ [])

unfoldable pub mdd_args : PerDsk → List Arg
mdd_args x =
    str x.name
    ∷ num x.io_ms
    ∷ num x.nread
    ∷ num x.nrsect
    ∷ num x.nwrite
    ∷ num x.nwsect
    ∷ num x.avque
    ∷ num x.inflight
    ∷ []

unfoldable pub json_print_mdd : Sstat → Run (List Bytes)
json_print_mdd ss = do
  xs ← until_unnamed (λ x. x.name) ss.dsk.mdd
  array_lines (codes "MDD") (λ x. false) (λ i x. line mdd_format (mdd_args x)) xs

unfoldable pub dsk_format : Bytes
dsk_format = format (
    "{\"dskname\": \"%.19s\", " ∷ "\"io_ms\": %lld, " ∷ "\"nread\": %lld, " ∷ "\"nrsect\": %lld, "
    ∷ "\"ndiscrd\": %lld, " ∷ "\"nwrite\": %lld, " ∷ "\"nwsect\": %lld, " ∷ "\"avque\": %lld, "
    ∷ "\"inflight\": %lld}" ∷ [])

unfoldable pub dsk_args : PerDsk → List Arg
dsk_args x =
    str x.name
    ∷ num x.io_ms
    ∷ num x.nread
    ∷ num x.nrsect
    ∷ num x.ndisc
    ∷ num x.nwrite
    ∷ num x.nwsect
    ∷ num x.avque
    ∷ num x.inflight
    ∷ []

unfoldable pub json_print_dsk : Sstat → Run (List Bytes)
json_print_dsk ss = do
  xs ← until_unnamed (λ x. x.name) ss.dsk.dsk
  array_lines (codes "DSK") (λ x. false) (λ i x. line dsk_format (dsk_args x)) xs

unfoldable pub ifb_format : Bytes
ifb_format = format (
    "{\"ibname\": \"%.19s\", " ∷ "\"portnr\": \"%hd\", " ∷ "\"lanes\": \"%hd\", "
    ∷ "\"maxrate\": %lld, " ∷ "\"rcvb\": %lld, " ∷ "\"sndb\": %lld, " ∷ "\"rcvp\": %lld, "
    ∷ "\"sndp\": %lld}" ∷ [])

unfoldable pub ifb_args : PerIfb → List Arg
ifb_args x =
    str x.ibname
    ∷ num x.portnr
    ∷ num x.lanes
    ∷ num x.rate
    ∷ num x.rcvb
    ∷ num x.sndb
    ∷ num x.rcvp
    ∷ num x.sndp
    ∷ []

unfoldable pub json_print_ifb : Sstat → Run (List Bytes)
json_print_ifb ss = do
  xs ← first_n ss.ifb.nrports ss.ifb.ifb
  array_lines (codes "IFB") (λ x. false) (λ i x. line ifb_format (ifb_args x)) xs
