-- ===== src/Json/Print/Tasks.antt =====
-- The print functions of json.c for processes and threads.
use atophttpd.Prelude.{
  ℕ, ◌+◌, ◌%◌, ◌/◌, ◌^◌, List, [], ◌∷◌, ℤ, pos, negsuc, eqb_ℤ, ltb_ℤ, Bytes, codes, ◌==◌,
  if◌then◌else◌, length, Run, done, ◌>>=◌,
}
use atophttpd.Atop.{Atop, has_flag}
use atophttpd.Printf.{low_32, Arg, int, num, str, chr, format}
use atophttpd.Json.Sample.{Tstat}
use atophttpd.Json.Lines.{Env, quot, times, bit, task_lines}

-- What `excode` says: a thread or a process, and how it ended.
unfoldable pub exit_state : ℤ → Bytes
exit_state excode =
    let first = if ltb_ℤ excode (pos 0) then b'N' else b'-' in
    let bits = low_32 excode in
    if bits % 2 ^ 8 == 0
    then first ∷ b'E' ∷ []
    else if bits / 2 ^ 7 % 2 == 1
    then first ∷ b'C' ∷ []
    else first ∷ b'S' ∷ []

unfoldable pub exit_code : ℤ → ℤ
exit_code excode =
    let bits = low_32 excode in
    if bits % 2 ^ 8 == 0 then pos (bits / 2 ^ 8 % 2 ^ 8) else pos (bits % 2 ^ 7 + 256)

unfoldable pub prg_format : Bytes
prg_format = format (
    "{\"pid\": %d, " ∷ "\"name\": \"(%.19s)\", " ∷ "\"state\": \"%c\", " ∷ "\"ruid\": %d, "
    ∷ "\"rgid\": %d, " ∷ "\"tgid\": %d, " ∷ "\"nthr\": %d, " ∷ "\"st\": \"%s\", "
    ∷ "\"exitcode\": %d, " ∷ "\"btime\": \"%ld\", " ∷ "\"cmdline\": \"(%.130s)\", "
    ∷ "\"ppid\": %d, " ∷ "\"nthrrun\": %d, " ∷ "\"nthrslpi\": %d, " ∷ "\"nthrslpu\": %d, "
    ∷ "\"euid\": %d, " ∷ "\"egid\": %d, " ∷ "\"elaps\": \"%ld\", " ∷ "\"isproc\": %d, "
    ∷ "\"cid\": \"%.19s\"}" ∷ [])

unfoldable pub prg_args : Tstat → List Arg
prg_args ps =
    num ps.gen.pid
    ∷ str ps.gen.name
    ∷ chr ps.gen.state
    ∷ num ps.gen.ruid
    ∷ num ps.gen.rgid
    ∷ num ps.gen.tgid
    ∷ num ps.gen.nthr
    ∷ str (exit_state ps.gen.excode)
    ∷ num (exit_code ps.gen.excode)
    ∷ num ps.gen.btime
    ∷ str ps.gen.cmdline
    ∷ num ps.gen.ppid
    ∷ num ps.gen.nthrrun
    ∷ num ps.gen.nthrslpi
    ∷ num ps.gen.nthrslpu
    ∷ num ps.gen.euid
    ∷ num ps.gen.egid
    ∷ num ps.gen.elaps
    ∷ num (bit ps.gen.isproc)
    ∷ str (if length ps.gen.container == 0 then codes "-" else ps.gen.container)
    ∷ []

unfoldable pub json_print_prg : List Tstat → Run (List Bytes)
json_print_prg tasks = task_lines (codes "PRG") prg_format prg_args tasks

unfoldable pub prc_format : Bytes
prc_format = format (
    "{\"pid\": %d, " ∷ "\"utime\": %lld, " ∷ "\"stime\": %lld, " ∷ "\"nice\": %d, "
    ∷ "\"prio\": %d, " ∷ "\"curcpu\": %d, " ∷ "\"tgid\": %d, " ∷ "\"isproc\": %d, "
    ∷ "\"rundelay\": %lld, " ∷ "\"blkdelay\": %lld, " ∷ "\"sleepavg\": %d}" ∷ [])

unfoldable pub prc_args : Env → Tstat → List Arg
prc_args env ps =
    num ps.gen.pid
    ∷ num ps.cpu.utime
    ∷ num ps.cpu.stime
    ∷ num ps.cpu.nice
    ∷ num ps.cpu.prio
    ∷ num ps.cpu.curcpu
    ∷ num ps.gen.tgid
    ∷ num (bit ps.gen.isproc)
    ∷ int (quot ps.cpu.rundelay (pos 1000000))
    ∷ int (times ps.cpu.blkdelay (pos 1000) >>= λ ms. quot ms (pos env.hertz))
    ∷ num ps.cpu.sleepavg
    ∷ []

unfoldable pub json_print_prc : Env → List Tstat → Run (List Bytes)
json_print_prc env tasks = task_lines (codes "PRC") prc_format (prc_args env) tasks

unfoldable pub prm_format : Bytes
prm_format = format (
    "{\"pid\": %d, " ∷ "\"vmem\": %lld, " ∷ "\"rmem\": %lld, " ∷ "\"vexec\": %lld, "
    ∷ "\"vgrow\": %lld, " ∷ "\"rgrow\": %lld, " ∷ "\"minflt\": %lld, " ∷ "\"majflt\": %lld, "
    ∷ "\"vlibs\": %lld, " ∷ "\"vdata\": %lld, " ∷ "\"vstack\": %lld, " ∷ "\"vlock\": %lld, "
    ∷ "\"vswap\": %lld, " ∷ "\"pmem\": %lld}" ∷ [])

unfoldable pub prm_args : Tstat → List Arg
prm_args ps =
    num ps.gen.pid
    ∷ num ps.mem.vmem
    ∷ num ps.mem.rmem
    ∷ num ps.mem.vexec
    ∷ num ps.mem.vgrow
    ∷ num ps.mem.rgrow
    ∷ num ps.mem.minflt
    ∷ num ps.mem.majflt
    ∷ num ps.mem.vlibs
    ∷ num ps.mem.vdata
    ∷ num ps.mem.vstack
    ∷ num ps.mem.vlock
    ∷ num ps.mem.vswap
    ∷ num (if eqb_ℤ ps.mem.pmem (negsuc 0) then pos 0 else ps.mem.pmem)
    ∷ []

unfoldable pub json_print_prm : List Tstat → Run (List Bytes)
json_print_prm tasks = task_lines (codes "PRM") prm_format prm_args tasks

unfoldable pub prd_format : Bytes
prd_format = format (
    "{\"pid\": %d, " ∷ "\"rio\": %lld, " ∷ "\"rsz\": %lld, " ∷ "\"wio\": %lld, " ∷ "\"wsz\": %lld, "
    ∷ "\"cwsz\": %lld}" ∷ [])

unfoldable pub prd_args : Tstat → List Arg
prd_args ps =
    num ps.gen.pid
    ∷ num ps.dsk.rio
    ∷ num ps.dsk.rsz
    ∷ num ps.dsk.wio
    ∷ num ps.dsk.wsz
    ∷ num ps.dsk.cwsz
    ∷ []

unfoldable pub json_print_prd : List Tstat → Run (List Bytes)
json_print_prd tasks = task_lines (codes "PRD") prd_format prd_args tasks

unfoldable pub prn_format : Bytes
prn_format = format (
    "{\"pid\": %d, " ∷ "\"tcpsnd\": \"%lld\", " ∷ "\"tcpssz\": \"%lld\", "
    ∷ "\"tcprcv\": \"%lld\", " ∷ "\"tcprsz\": \"%lld\", " ∷ "\"udpsnd\": \"%lld\", "
    ∷ "\"udpssz\": \"%lld\", " ∷ "\"udprcv\": \"%lld\", " ∷ "\"udprsz\": \"%lld\"}" ∷ [])

unfoldable pub prn_args : Tstat → List Arg
prn_args ps =
    num ps.gen.pid
    ∷ num ps.net.tcpsnd
    ∷ num ps.net.tcpssz
    ∷ num ps.net.tcprcv
    ∷ num ps.net.tcprsz
    ∷ num ps.net.udpsnd
    ∷ num ps.net.udpssz
    ∷ num ps.net.udprcv
    ∷ num ps.net.udprsz
    ∷ []

unfoldable pub json_print_prn : Atop → ℕ → List Tstat → Run (List Bytes)
json_print_prn a flags tasks =
    if has_flag flags a.netatop then task_lines (codes "PRN") prn_format prn_args tasks else done []

unfoldable pub pre_format : Bytes
pre_format = format (
    "{\"pid\": %d, " ∷ "\"gpustate\": \"%c\", " ∷ "\"nrgpus\": %d, " ∷ "\"gpulist\": \"%x\", "
    ∷ "\"gpubusy\": %d, " ∷ "\"membusy\": %d, " ∷ "\"memnow\": %lld, " ∷ "\"memcum\": %lld, "
    ∷ "\"sample\": %lld}" ∷ [])

unfoldable pub pre_args : Tstat → List Arg
pre_args ps =
    num ps.gen.pid
    ∷ chr (if ps.gpu.state == 0 then b'N' else ps.gpu.state)
    ∷ num ps.gpu.nrgpus
    ∷ num ps.gpu.gpulist
    ∷ num ps.gpu.gpubusy
    ∷ num ps.gpu.membusy
    ∷ num ps.gpu.memnow
    ∷ num ps.gpu.memcum
    ∷ num ps.gpu.sample
    ∷ []

unfoldable pub json_print_pre : Atop → ℕ → List Tstat → Run (List Bytes)
json_print_pre a flags tasks =
    if has_flag flags a.gpustat then task_lines (codes "PRE") pre_format pre_args tasks else done []
