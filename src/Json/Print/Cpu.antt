-- ===== src/Json/Print/Cpu.antt =====
-- The print functions of json.c for processors and load.
use atophttpd.Prelude.{
  ℕ, false, not, ◌&&◌, List, [], ◌∷◌, ℤ, pos, eqb_ℤ, Bytes, codes, if◌then◌else◌, get_elem?, Run,
  done, ◌>>=◌, cell,
}
use atophttpd.Printf.{Arg, int, num, double, format}
use atophttpd.Json.Sample.{Sstat, PerCpu}
use atophttpd.Json.Lines.{Env, quot, times, plus, line, object_line, array_lines, to_int, first_n}

-- `json_calc_freqscale`: the frequency, and its part of the maximum in percent, as an `int`.
unfoldable pub json_calc_freqscale : ℤ → ℤ → ℤ → Run (ℤ × ℤ)
json_calc_freqscale maxfreq cnt ticks =
    if not (eqb_ℤ maxfreq (pos 0)) && not (eqb_ℤ ticks (pos 0))
    then (do
      freq ← quot cnt ticks
      hundred ← times (pos 100) freq
      perc ← quot hundred maxfreq
      done (freq, to_int perc))
    else if not (eqb_ℤ maxfreq (pos 0))
    then (do hundred ← times (pos 100) cnt; perc ← quot hundred maxfreq; done (cnt, to_int perc))
    else if not (eqb_ℤ cnt (pos 0))
    then done (cnt, pos 100)
    else done (pos 0, pos 100)

unfoldable pub sum_freqs : List PerCpu → ℤ × ℤ → Run (ℤ × ℤ)
sum_freqs [] sums = done sums
sum_freqs (x ∷ xs) sums = do
  cnt ← plus sums.0 x.cnt
  ticks ← plus sums.1 x.ticks
  sum_freqs xs (cnt, ticks)

-- A count of 1 instruction stands for none.
unfoldable pub reset_instr : Sstat → Sstat
reset_instr ss =
    if eqb_ℤ ss.cpu.all.instr (pos 1)
    then record ss {
      cpu = record ss.cpu { all = record ss.cpu.all { instr = pos 0; cycle = pos 0 } };
    }
    else ss

unfoldable pub cpu_all_format : Bytes
cpu_all_format = format (
    ", %s: {" ∷ "\"hertz\": %u, " ∷ "\"nrcpu\": %lld, " ∷ "\"stime\": %lld, " ∷ "\"utime\": %lld, "
    ∷ "\"ntime\": %lld, " ∷ "\"itime\": %lld, " ∷ "\"wtime\": %lld, " ∷ "\"Itime\": %lld, "
    ∷ "\"Stime\": %lld, " ∷ "\"steal\": %lld, " ∷ "\"guest\": %lld, " ∷ "\"freq\": %lld, "
    ∷ "\"freqperc\": %d, " ∷ "\"instr\": %lld, " ∷ "\"cycle\": %lld}" ∷ [])

unfoldable pub cpu_all_args : Env → Run (ℤ × ℤ) → Sstat → List Arg
cpu_all_args env scale ss =
    num (pos env.hertz)
    ∷ num ss.cpu.nrcpu
    ∷ num ss.cpu.all.stime
    ∷ num ss.cpu.all.utime
    ∷ num ss.cpu.all.ntime
    ∷ num ss.cpu.all.itime
    ∷ num ss.cpu.all.wtime
    ∷ num ss.cpu.all.irq_time
    ∷ num ss.cpu.all.softirq_time
    ∷ num ss.cpu.all.steal
    ∷ num ss.cpu.all.guest
    ∷ int (scale >>= λ r. done r.0)
    ∷ int (scale >>= λ r. done r.1)
    ∷ num ss.cpu.all.instr
    ∷ num ss.cpu.all.cycle
    ∷ []

unfoldable pub json_print_cpu_all : Env → Sstat → Run (List Bytes)
json_print_cpu_all env ss = do
  xs ← first_n ss.cpu.nrcpu ss.cpu.cpu
  sums ← sum_freqs xs (pos 0, pos 0)
  first ← cell (get_elem? ss.cpu.cpu 0)
  let scale = json_calc_freqscale first.maxfreq sums.0 sums.1
  object_line (codes "CPU") cpu_all_format (cpu_all_args env scale (reset_instr ss))

unfoldable pub cpu_format : Bytes
cpu_format = format (
    "{\"cpuid\": %d, " ∷ "\"stime\": %lld, " ∷ "\"utime\": %lld, " ∷ "\"ntime\": %lld, "
    ∷ "\"itime\": %lld, " ∷ "\"wtime\": %lld, " ∷ "\"Itime\": %lld, " ∷ "\"Stime\": %lld, "
    ∷ "\"steal\": %lld, " ∷ "\"guest\": %lld, " ∷ "\"freq\": %lld, " ∷ "\"freqperc\": %d, "
    ∷ "\"instr\": %lld, " ∷ "\"cycle\": %lld}" ∷ [])

unfoldable pub cpu_args : Run (ℤ × ℤ) → ℕ → PerCpu → List Arg
cpu_args scale i x =
    num (pos i)
    ∷ num x.stime
    ∷ num x.utime
    ∷ num x.ntime
    ∷ num x.itime
    ∷ num x.wtime
    ∷ num x.irq_time
    ∷ num x.softirq_time
    ∷ num x.steal
    ∷ num x.guest
    ∷ int (scale >>= λ r. done r.0)
    ∷ int (scale >>= λ r. done r.1)
    ∷ num x.instr
    ∷ num x.cycle
    ∷ []

-- The row of a processor: its frequency is scaled by the maximum of the first one.
unfoldable pub cpu_line : Sstat → ℕ → PerCpu → Run Bytes
cpu_line ss i x = do
  first ← cell (get_elem? ss.cpu.cpu 0)
  line cpu_format (cpu_args (json_calc_freqscale first.maxfreq x.cnt x.ticks) i x)

unfoldable pub json_print_cpu : Sstat → Run (List Bytes)
json_print_cpu ss = do
  xs ← first_n ss.cpu.nrcpu ss.cpu.cpu
  array_lines (codes "cpu") (λ x. false) (cpu_line ss) xs

unfoldable pub cpl_format : Bytes
cpl_format = format (
    ", %s: {" ∷ "\"lavg1\": %.2f, " ∷ "\"lavg5\": %.2f, " ∷ "\"lavg15\": %.2f, " ∷ "\"csw\": %lld, "
    ∷ "\"devint\": %lld}" ∷ [])

unfoldable pub cpl_args : Sstat → List Arg
cpl_args ss =
    double ss.cpu.lavg1
    ∷ double ss.cpu.lavg5
    ∷ double ss.cpu.lavg15
    ∷ num ss.cpu.csw
    ∷ num ss.cpu.devint
    ∷ []

unfoldable pub json_print_cpl : Sstat → Run (List Bytes)
json_print_cpl ss = object_line (codes "CPL") cpl_format (cpl_args ss)
