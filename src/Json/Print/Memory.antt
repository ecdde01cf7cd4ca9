-- ===== src/Json/Print/Memory.antt =====
-- The print functions of json.c for memory and pressure.
use atophttpd.Prelude.{List, [], ◌∷◌, pos, Bytes, codes, if◌then◌else◌, Run, done}
use atophttpd.Printf.{Arg, int, num, chr, double, format}
use atophttpd.Json.Sample.{Sstat}
use atophttpd.Json.Lines.{Env, times, object_line}

unfoldable pub mem_format : Bytes
mem_format = format (
    ", %s: {" ∷ "\"physmem\": %lld, " ∷ "\"freemem\": %lld, " ∷ "\"cachemem\": %lld, "
    ∷ "\"buffermem\": %lld, " ∷ "\"slabmem\": %lld, " ∷ "\"cachedrt\": %lld, "
    ∷ "\"slabreclaim\": %lld, " ∷ "\"vmwballoon\": %lld, " ∷ "\"shmem\": %lld, "
    ∷ "\"shmrss\": %lld, " ∷ "\"shmswp\": %lld, " ∷ "\"pagetables\": %lld, "
    ∷ "\"hugepagesz\": %lld, " ∷ "\"tothugepage\": %lld, " ∷ "\"freehugepage\": %lld, "
    ∷ "\"tcpsk\": %lld, " ∷ "\"udpsk\": %lld}" ∷ [])

unfoldable pub mem_args : Env → Sstat → List Arg
mem_args env ss =
    int (times ss.mem.physmem (pos env.pagesize))
    ∷ int (times ss.mem.freemem (pos env.pagesize))
    ∷ int (times ss.mem.cachemem (pos env.pagesize))
    ∷ int (times ss.mem.buffermem (pos env.pagesize))
    ∷ int (times ss.mem.slabmem (pos env.pagesize))
    ∷ int (times ss.mem.cachedrt (pos env.pagesize))
    ∷ int (times ss.mem.slabreclaim (pos env.pagesize))
    ∷ int (times ss.mem.vmwballoon (pos env.pagesize))
    ∷ int (times ss.mem.shmem (pos env.pagesize))
    ∷ int (times ss.mem.shmrss (pos env.pagesize))
    ∷ int (times ss.mem.shmswp (pos env.pagesize))
    ∷ int (times ss.mem.pagetables (pos env.pagesize))
    ∷ num ss.mem.hugepagesz
    ∷ num ss.mem.tothugepage
    ∷ num ss.mem.freehugepage
    ∷ int (times ss.mem.tcpsock (pos env.pagesize))
    ∷ int (times ss.mem.udpsock (pos env.pagesize))
    ∷ []

unfoldable pub json_print_mem : Env → Sstat → Run (List Bytes)
json_print_mem env ss = object_line (codes "MEM") mem_format (mem_args env ss)

unfoldable pub swp_format : Bytes
swp_format = format (
    ", %s: {" ∷ "\"totswap\": %lld, " ∷ "\"freeswap\": %lld, " ∷ "\"swcac\": %lld, "
    ∷ "\"committed\": %lld, " ∷ "\"commitlim\": %lld}" ∷ [])

unfoldable pub swp_args : Env → Sstat → List Arg
swp_args env ss =
    int (times ss.mem.totswap (pos env.pagesize))
    ∷ int (times ss.mem.freeswap (pos env.pagesize))
    ∷ int (times ss.mem.swapcached (pos env.pagesize))
    ∷ int (times ss.mem.committed (pos env.pagesize))
    ∷ int (times ss.mem.commitlim (pos env.pagesize))
    ∷ []

unfoldable pub json_print_swp : Env → Sstat → Run (List Bytes)
json_print_swp env ss = object_line (codes "SWP") swp_format (swp_args env ss)

unfoldable pub pag_format : Bytes
pag_format = format (
    ", %s: {" ∷ "\"stall\": %lld, " ∷ "\"compacts\": %lld, " ∷ "\"numamigs\": %lld, "
    ∷ "\"migrates\": %lld, " ∷ "\"pgscans\": %lld, " ∷ "\"pgsteal\": %lld,"
    ∷ "\"allocstall\": %lld, " ∷ "\"pgins\": %lld, " ∷ "\"pgouts\": %lld, " ∷ "\"swins\": %lld, "
    ∷ "\"swouts\": %lld, " ∷ "\"oomkills\": %lld}" ∷ [])

unfoldable pub pag_args : Sstat → List Arg
pag_args ss =
    num ss.mem.allocstall
    ∷ num ss.mem.compactstall
    ∷ num ss.mem.numamigrate
    ∷ num ss.mem.pgmigrate
    ∷ num ss.mem.pgscans
    ∷ num ss.mem.pgsteal
    ∷ num ss.mem.allocstall
    ∷ num ss.mem.pgins
    ∷ num ss.mem.pgouts
    ∷ num ss.mem.swins
    ∷ num ss.mem.swouts
    ∷ num ss.mem.oomkills
    ∷ []

unfoldable pub json_print_pag : Sstat → Run (List Bytes)
json_print_pag ss = object_line (codes "PAG") pag_format (pag_args ss)

unfoldable pub psi_format : Bytes
psi_format = format (
    ", %s: {" ∷ "\"psi\": \"%c\", " ∷ "\"cs10\": %.1f, " ∷ "\"cs60\": %.1f, " ∷ "\"cs300\": %.1f, "
    ∷ "\"cstot\": %llu, " ∷ "\"ms10\": %.1f, " ∷ "\"ms60\": %.1f, " ∷ "\"ms300\": %.1f, "
    ∷ "\"mstot\": %llu, " ∷ "\"mf10\": %.1f, " ∷ "\"mf60\": %.1f, " ∷ "\"mf300\": %.1f, "
    ∷ "\"mftot\": %llu, " ∷ "\"ios10\": %.1f, " ∷ "\"ios60\": %.1f, " ∷ "\"ios300\": %.1f, "
    ∷ "\"iostot\": %llu, " ∷ "\"iof10\": %.1f, " ∷ "\"iof60\": %.1f, " ∷ "\"iof300\": %.1f, "
    ∷ "\"ioftot\": %llu}" ∷ [])

unfoldable pub psi_args : Sstat → List Arg
psi_args ss =
    chr (if ss.psi.present then b'y' else b'n')
    ∷ double ss.psi.cpusome.avg10
    ∷ double ss.psi.cpusome.avg60
    ∷ double ss.psi.cpusome.avg300
    ∷ num ss.psi.cpusome.total
    ∷ double ss.psi.memsome.avg10
    ∷ double ss.psi.memsome.avg60
    ∷ double ss.psi.memsome.avg300
    ∷ num ss.psi.memsome.total
    ∷ double ss.psi.memfull.avg10
    ∷ double ss.psi.memfull.avg60
    ∷ double ss.psi.memfull.avg300
    ∷ num ss.psi.memfull.total
    ∷ double ss.psi.iosome.avg10
    ∷ double ss.psi.iosome.avg60
    ∷ double ss.psi.iosome.avg300
    ∷ num ss.psi.iosome.total
    ∷ double ss.psi.iofull.avg10
    ∷ double ss.psi.iofull.avg60
    ∷ double ss.psi.iofull.avg300
    ∷ num ss.psi.iofull.total
    ∷ []

unfoldable pub json_print_psi : Sstat → Run (List Bytes)
json_print_psi ss =
    if ss.psi.present then object_line (codes "PSI") psi_format (psi_args ss) else done []
