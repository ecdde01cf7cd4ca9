-- ===== src/Examples/Roomy.antt =====
-- The texts of a sample that fits under every label, with their lengths.
use atophttpd.Prelude.{
  ℕ, ◌≤◌, refl, Bool-cases, inl, inr, [], str_eq, arith, Returns, length, Bytes, List, Run,
}
use atophttpd.CString.{is_digit, print_int, print_digits}
use atophttpd.Atop.{has_flag}
use atophttpd.Printf.{pieces, role, printf, snprintf, filled, render, convert}
use atophttpd.Json.Lines.{
  times, plus, quot, to_int, object_line, open_array, rows, array_lines, task_lines, first_cells,
  until_unnamed,
}
use atophttpd.Json.Lines.Arrays.{opens}
use atophttpd.Json.Print.Cpu.{
  json_calc_freqscale, sum_freqs, reset_instr, cpu_all_format, cpu_all_args, json_print_cpu_all,
  cpu_format, cpu_args, cpu_line, json_print_cpu, cpl_format, cpl_args, json_print_cpl,
}
use atophttpd.Json.Print.Devices.{
  json_print_gpu, json_print_lvm, json_print_mdd, json_print_dsk, json_print_ifb,
}
use atophttpd.Json.Print.Memory.{
  mem_format, mem_args, json_print_mem, swp_format, swp_args, json_print_swp, pag_format, pag_args,
  json_print_pag, json_print_psi,
}
use atophttpd.Json.Print.Nfs.{
  json_print_nfm, nfc_format, nfc_args, json_print_nfc, nfs_format, nfs_args, json_print_nfs,
}
use atophttpd.Json.Print.Net.{net_format, net_args, json_print_net}
use atophttpd.Json.Print.Numa.{json_print_num, json_print_nuc, json_print_llc}
use atophttpd.Json.Print.Tasks.{
  json_print_prg, json_print_prc, json_print_prm, json_print_prd, json_print_prn, json_print_pre,
}
use atophttpd.Json.Out.{labeldef}
use atophttpd.Output.Bounds.{joined}
use atophttpd.Server.Samples.Sent.{label_room, SampleFits}
use atophttpd.Examples.Files.{atop}
use atophttpd.Examples.Sample.{small_env}
use atophttpd.Examples.Json.{cpl}
use atophttpd.Examples.Whole.{
  whole, cpu_all_fits, cpu_fits, mem_fits, swp_fits, pag_fits, nfc_fits, nfs_fits, net_fits,
}

abbrev Roomy : Run (List Bytes) → Type 0
Roomy texts = Returns texts (λ ts. length (joined ts) ≤ label_room)

cpu_all_room : Roomy (json_print_cpu_all small_env whole)
unfolding json_print_cpu_all object_line times plus quot to_int first_cells json_calc_freqscale
    sum_freqs reset_instr cpu_all_format cpu_all_args printf snprintf filled render convert pieces
    role is_digit print_int print_digits
cpu_all_room = omega arith

cpu_room : Roomy (json_print_cpu whole)
unfolding json_print_cpu array_lines open_array rows first_cells until_unnamed times plus quot
    to_int json_calc_freqscale cpu_format cpu_args cpu_line printf snprintf filled render convert
    pieces role is_digit print_int print_digits
cpu_room = omega arith

cpl_room : Roomy (json_print_cpl whole)
unfolding json_print_cpl object_line cpl_format cpl_args printf snprintf filled render convert
    pieces role is_digit print_int print_digits
cpl_room = omega arith

gpu_room : Roomy (json_print_gpu whole)
unfolding json_print_gpu array_lines open_array rows first_cells until_unnamed printf snprintf
    filled render convert pieces role is_digit print_int print_digits
gpu_room = omega arith

mem_room : Roomy (json_print_mem small_env whole)
unfolding json_print_mem object_line times plus quot to_int mem_format mem_args printf snprintf
    filled render convert pieces role is_digit print_int print_digits
mem_room = omega arith

swp_room : Roomy (json_print_swp small_env whole)
unfolding json_print_swp object_line times plus quot to_int swp_format swp_args printf snprintf
    filled render convert pieces role is_digit print_int print_digits
swp_room = omega arith

pag_room : Roomy (json_print_pag whole)
unfolding json_print_pag object_line times plus quot to_int pag_format pag_args printf snprintf
    filled render convert pieces role is_digit print_int print_digits
pag_room = omega arith

psi_room : Roomy (json_print_psi whole)
unfolding json_print_psi printf snprintf filled render convert pieces role is_digit print_int
    print_digits
psi_room = omega arith

lvm_room : Roomy (json_print_lvm whole)
unfolding json_print_lvm array_lines open_array rows first_cells until_unnamed printf snprintf
    filled render convert pieces role is_digit print_int print_digits
lvm_room = omega arith

mdd_room : Roomy (json_print_mdd whole)
unfolding json_print_mdd array_lines open_array rows first_cells until_unnamed printf snprintf
    filled render convert pieces role is_digit print_int print_digits
mdd_room = omega arith

dsk_room : Roomy (json_print_dsk whole)
unfolding json_print_dsk array_lines open_array rows first_cells until_unnamed printf snprintf
    filled render convert pieces role is_digit print_int print_digits
dsk_room = omega arith

nfm_room : Roomy (json_print_nfm small_env whole)
unfolding json_print_nfm array_lines open_array rows first_cells until_unnamed printf snprintf
    filled render convert pieces role is_digit print_int print_digits
nfm_room = omega arith

nfc_room : Roomy (json_print_nfc whole)
unfolding json_print_nfc object_line nfc_format nfc_args printf snprintf filled render convert
    pieces role is_digit print_int print_digits
nfc_room = omega arith

nfs_room : Roomy (json_print_nfs whole)
unfolding json_print_nfs object_line times plus quot to_int nfs_format nfs_args printf snprintf
    filled render convert pieces role is_digit print_int print_digits
nfs_room = omega arith

net_room : Roomy (json_print_net whole)
unfolding json_print_net array_lines open_array rows first_cells until_unnamed times plus quot
    to_int net_format net_args printf snprintf filled render convert pieces role is_digit print_int
    print_digits
net_room = omega arith

ifb_room : Roomy (json_print_ifb whole)
unfolding json_print_ifb array_lines open_array rows first_cells until_unnamed printf snprintf
    filled render convert pieces role is_digit print_int print_digits
ifb_room = omega arith

num_room : Roomy (json_print_num small_env whole)
unfolding json_print_num array_lines open_array rows first_cells until_unnamed printf snprintf
    filled render convert pieces role is_digit print_int print_digits
num_room = omega arith

nuc_room : Roomy (json_print_nuc whole)
unfolding json_print_nuc array_lines open_array rows first_cells until_unnamed printf snprintf
    filled render convert pieces role is_digit print_int print_digits
nuc_room = omega arith

llc_room : Roomy (json_print_llc small_env whole)
unfolding json_print_llc array_lines open_array rows first_cells until_unnamed printf snprintf
    filled render convert pieces role is_digit print_int print_digits
llc_room = omega arith

prg_room : Roomy (json_print_prg [])
unfolding json_print_prg task_lines array_lines open_array rows first_cells until_unnamed printf
    snprintf filled render convert pieces role is_digit print_int print_digits
prg_room = omega arith

prc_room : Roomy (json_print_prc small_env [])
unfolding json_print_prc task_lines array_lines open_array rows first_cells until_unnamed printf
    snprintf filled render convert pieces role is_digit print_int print_digits
prc_room = omega arith

prm_room : Roomy (json_print_prm [])
unfolding json_print_prm task_lines array_lines open_array rows first_cells until_unnamed printf
    snprintf filled render convert pieces role is_digit print_int print_digits
prm_room = omega arith

prd_room : Roomy (json_print_prd [])
unfolding json_print_prd task_lines array_lines open_array rows first_cells until_unnamed printf
    snprintf filled render convert pieces role is_digit print_int print_digits
prd_room = omega arith

prn_room : (flags : ℕ) → Roomy (json_print_prn atop flags [])
unfolding json_print_prn task_lines array_lines open_array rows first_cells until_unnamed printf
    snprintf filled render convert pieces role is_digit print_int print_digits
prn_room flags = elim (Bool-cases (has_flag flags atop.netatop)) [
  | inl y ↦ rw (y, json_print_prn) (omega arith)
  | inr k ↦ rw (k, json_print_prn) (omega arith)
]

pre_room : (flags : ℕ) → Roomy (json_print_pre atop flags [])
unfolding json_print_pre task_lines array_lines open_array rows first_cells until_unnamed printf
    snprintf filled render convert pieces role is_digit print_int print_digits
pre_room flags = elim (Bool-cases (has_flag flags atop.gpustat)) [
  | inl y ↦ rw (y, json_print_pre) (omega arith)
  | inr k ↦ rw (k, json_print_pre) (omega arith)
]

pub whole-SampleFits : (flags : ℕ) → SampleFits atop small_env flags whole []
unfolding labeldef str_eq first_cells until_unnamed opens cpl_args
whole-SampleFits flags = (
  (cpu_all_fits, cpu_all_room),
  (
    (cpu_fits, cpu_room),
    (
      (cpl, cpl_room),
      (
        (tt, gpu_room),
        (
          (mem_fits, mem_room),
          (
            (swp_fits, swp_room),
            (
              (pag_fits, pag_room),
              (
                ((λ e. absurd (cc e)), psi_room),
                (
                  (tt, lvm_room),
                  (
                    (tt, mdd_room),
                    (
                      (tt, dsk_room),
                      (
                        (tt, nfm_room),
                        (
                          (nfc_fits, nfc_room),
                          (
                            (nfs_fits, nfs_room),
                            (
                              (net_fits, net_room),
                              (
                                (tt, ifb_room),
                                (
                                  (tt, num_room),
                                  (
                                    (tt, nuc_room),
                                    (
                                      (tt, llc_room),
                                      (
                                        ((refl, tt), prg_room),
                                        (
                                          ((refl, tt), prc_room),
                                          (
                                            ((refl, tt), prm_room),
                                            (
                                              ((refl, tt), prd_room),
                                              (
                                                ((λ e. (refl, tt)), prn_room flags),
                                                (((λ e. (refl, tt)), pre_room flags), tt),
                                              ),
                                            ),
                                          ),
                                        ),
                                      ),
                                    ),
                                  ),
                                ),
                              ),
                            ),
                          ),
                        ),
                      ),
                    ),
                  ),
                ),
              ),
            ),
          ),
        ),
      ),
    ),
  ),
)
