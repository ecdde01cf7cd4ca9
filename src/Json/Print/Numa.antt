-- ===== src/Json/Print/Numa.antt =====
-- The print functions of json.c for nodes and caches.
use atophttpd.Prelude.{false, List, [], ◌∷◌, pos, Bytes, codes, Run, ◌>>=◌}
use atophttpd.Printf.{Arg, int, num, double, format}
use atophttpd.Json.Sample.{Sstat, MemPerNuma, CpuPerNuma, PerLlc}
use atophttpd.Json.Lines.{Env, times, line, array_lines, first_n}

unfoldable pub num_format : Bytes
num_format = format (
    "{\"frag\": \"%f\", " ∷ "\"totmem\": %lld, " ∷ "\"freemem\": %lld, " ∷ "\"active\": %lld, "
    ∷ "\"inactive\": %lld, " ∷ "\"filepage\": %lld, " ∷ "\"dirtymem\": %lld, "
    ∷ "\"slabmem\": %lld, " ∷ "\"slabreclaim\": %lld, " ∷ "\"shmem\": %lld, " ∷ "\"tothp\": %lld}"
    ∷ [])

unfoldable pub num_args : Env → Sstat → MemPerNuma → List Arg
num_args env ss x =
    double (env.times_100 x.frag)
    ∷ int (times x.totmem (pos env.pagesize))
    ∷ int (times x.freemem (pos env.pagesize))
    ∷ int (times x.active (pos env.pagesize))
    ∷ int (times x.inactive (pos env.pagesize))
    ∷ int (times x.filepage (pos env.pagesize))
    ∷ int (times x.dirtymem (pos env.pagesize))
    ∷ int (times x.slabmem (pos env.pagesize))
    ∷ int (times x.slabreclaim (pos env.pagesize))
    ∷ int (times x.shmem (pos env.pagesize))
    ∷ int (times x.tothp ss.mem.hugepagesz)
    ∷ []

unfoldable pub json_print_num : Env → Sstat → Run (List Bytes)
json_print_num env ss = do
  xs ← first_n ss.memnuma.nrnuma ss.memnuma.numa
  array_lines (codes "NUM") (λ x. false) (λ i x. line num_format (num_args env ss x)) xs

unfoldable pub nuc_format : Bytes
nuc_format = format (
    "{\"numanr\": \"%d\", " ∷ "\"nrcpu\": %lld, " ∷ "\"stime\": %lld, " ∷ "\"utime\": %lld, "
    ∷ "\"ntime\": %lld, " ∷ "\"itime\": %lld, " ∷ "\"wtime\": %lld, " ∷ "\"Itime\": %lld, "
    ∷ "\"Stime\": %lld, " ∷ "\"steal\": %lld, " ∷ "\"guest\": %lld}" ∷ [])

unfoldable pub nuc_args : CpuPerNuma → List Arg
nuc_args x =
    num x.numanr
    ∷ num x.nrcpu
    ∷ num x.stime
    ∷ num x.utime
    ∷ num x.ntime
    ∷ num x.itime
    ∷ num x.wtime
    ∷ num x.irq_time
    ∷ num x.softirq_time
    ∷ num x.steal
    ∷ num x.guest
    ∷ []

unfoldable pub json_print_nuc : Sstat → Run (List Bytes)
json_print_nuc ss = do
  xs ← first_n ss.cpunuma.nrnuma ss.cpunuma.numa
  array_lines (codes "NUC") (λ x. false) (λ i x. line nuc_format (nuc_args x)) xs

unfoldable pub llc_format : Bytes
llc_format = format (
    "{\"LLC\": \"%3d\", " ∷ "\"occupancy\": \"%3.1f\", " ∷ "\"mbm_total\": \"%lld\", "
    ∷ "\"mbm_local\": %lld}" ∷ [])

unfoldable pub llc_args : Env → PerLlc → List Arg
llc_args env x =
    num x.id ∷ double (env.times_100 x.occupancy) ∷ num x.mbm_total ∷ num x.mbm_local ∷ []

unfoldable pub json_print_llc : Env → Sstat → Run (List Bytes)
json_print_llc env ss = do
  xs ← first_n ss.llc.nrllcs ss.llc.perllc
  array_lines (codes "LLC") (λ x. false) (λ i x. line llc_format (llc_args env x)) xs
