-- ===== src/Json/WellFormed/Cpu.antt =====
-- The texts of the print functions for processors and load keep the JSON well formed.
use atophttpd.Prelude.{ℕ, refl, ◌∷◌, pos, codes, get_elem?, cell, Returns, Returns-bind}
use atophttpd.CString.{is_digit}
use atophttpd.Printf.{header, pieces, role}
use atophttpd.Json.Sample.{Sstat, PerCpu}
use atophttpd.Json.Syntax.{step, class_of}
use atophttpd.Json.Format.{FormatFits, check, bound}
use atophttpd.Json.Lines.{Env, first_n}
use atophttpd.Json.Lines.Leads.{Keeps, IsRow, line-IsRow, object_line-Keeps}
use atophttpd.Json.Lines.Opening.{IsLabel_lem}
use atophttpd.Json.Lines.Fits.{all_shown, Shown, Shown-Keeps}
use atophttpd.Json.Print.Cpu.{
  cpl_format, cpl_args, json_print_cpl, json_calc_freqscale, sum_freqs, reset_instr, cpu_line,
  cpu_all_format, cpu_all_args, cpu_format, cpu_args, json_print_cpu_all, json_print_cpu,
}

abbrev pub CplFits : Sstat → Type 0
CplFits ss = FormatFits cpl_format (header (codes "CPL") ∷ cpl_args ss)

pub json_print_cpl-Keeps : (ss : Sstat) → CplFits ss → Keeps (json_print_cpl ss)
unfolding json_print_cpl cpl_format cpl_args check pieces role is_digit bound step class_of
json_print_cpl-Keeps ss = object_line-Keeps (codes "CPL") cpl_format (cpl_args ss) (refl, refl)

-- Every sum is in range, there is a first processor, and the values that are printed fit.
abbrev pub CpuAllFits : Env → Sstat → Type 0
CpuAllFits env ss = Returns (first_n ss.cpu.nrcpu ss.cpu.cpu) (λ xs.
    Returns (sum_freqs xs (pos 0, pos 0)) (λ sums. Returns (cell (get_elem? ss.cpu.cpu 0)) (λ x.
      let scale = json_calc_freqscale x.maxfreq sums.0 sums.1 in
      FormatFits cpu_all_format (header (codes "CPU") ∷ cpu_all_args env scale (reset_instr ss)))))

pub json_print_cpu_all-Keeps :
    (env : Env) (ss : Sstat) → CpuAllFits env ss → Keeps (json_print_cpu_all env ss)
unfolding json_print_cpu_all cpu_all_format cpu_all_args check pieces role is_digit bound step
    class_of
json_print_cpu_all-Keeps env ss fit m v =
    Returns-bind _ _ (first_n ss.cpu.nrcpu ss.cpu.cpu) _ fit (λ xs f.
      Returns-bind _ _ (sum_freqs xs (pos 0, pos 0)) _ f (λ sums g.
        Returns-bind _ _ (cell (get_elem? ss.cpu.cpu 0)) _ g (λ x h.
          let args =
            cpu_all_args env (json_calc_freqscale x.maxfreq sums.0 sums.1) (reset_instr ss) in
          object_line-Keeps (codes "CPU") cpu_all_format args (refl, refl) h m v)))

abbrev pub CpuRowFits : Sstat → ℕ → PerCpu → Type 0
CpuRowFits ss i x =
    Returns (cell (get_elem? ss.cpu.cpu 0))
      (λ y. FormatFits cpu_format (cpu_args (json_calc_freqscale y.maxfreq x.cnt x.ticks) i x))

cpu_line-IsRow : (ss : Sstat) (i : ℕ) (x : PerCpu) → CpuRowFits ss i x → IsRow (cpu_line ss i x)
unfolding cpu_line cpu_format cpu_args check pieces role is_digit bound step class_of
cpu_line-IsRow ss i x fit m v = Returns-bind _ _ (cell (get_elem? ss.cpu.cpu 0)) _ fit (λ y h.
    line-IsRow cpu_format (cpu_args (json_calc_freqscale y.maxfreq x.cnt x.ticks) i x) (refl, refl)
      h m v)

abbrev pub CpuFits : Sstat → Type 0
CpuFits ss = Returns (first_n ss.cpu.nrcpu ss.cpu.cpu) (λ xs. Shown all_shown (CpuRowFits ss) 0 xs)

pub json_print_cpu-Keeps : (ss : Sstat) → CpuFits ss → Keeps (json_print_cpu ss)
unfolding json_print_cpu
json_print_cpu-Keeps ss fit =
    Shown-Keeps (codes "cpu") (CpuRowFits ss) (cpu_line ss) (first_n ss.cpu.nrcpu ss.cpu.cpu)
      (IsLabel_lem (codes "cpu") refl) (cpu_line-IsRow ss) fit
