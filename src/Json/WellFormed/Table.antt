-- ===== src/Json/WellFormed/Table.antt =====
-- The table of the print functions: what is asked of a sample under each label.
use atophttpd.Prelude.{ℕ, List, [], ◌∷◌, Bytes, codes, str_eq, if◌then◌else◌, All}
use atophttpd.Atop.{Atop}
use atophttpd.Json.Sample.{Sstat, Tstat}
use atophttpd.Json.Lines.{Env}
use atophttpd.Json.Lines.Leads.{Keeps}
use atophttpd.Json.Out.{Prifunc, labeldef}
use atophttpd.Json.WellFormed.Cpu.{
  CpuAllFits, CpuFits, CplFits, json_print_cpu_all-Keeps, json_print_cpu-Keeps,
  json_print_cpl-Keeps,
}
use atophttpd.Json.WellFormed.Memory.{
  MemFits, SwpFits, PagFits, PsiFits, json_print_mem-Keeps, json_print_swp-Keeps,
  json_print_pag-Keeps, json_print_psi-Keeps,
}
use atophttpd.Json.WellFormed.Devices.{
  GpuFits, LvmFits, MddFits, DskFits, IfbFits, json_print_gpu-Keeps, json_print_lvm-Keeps,
  json_print_mdd-Keeps, json_print_dsk-Keeps, json_print_ifb-Keeps,
}
use atophttpd.Json.WellFormed.Nfs.{
  NfmFits, NfcFits, NfsFits, json_print_nfm-Keeps, json_print_nfc-Keeps, json_print_nfs-Keeps,
}
use atophttpd.Json.WellFormed.Net.{NetFits, json_print_net-Keeps}
use atophttpd.Json.WellFormed.Numa.{
  NumFits, NucFits, LlcFits, json_print_num-Keeps, json_print_nuc-Keeps, json_print_llc-Keeps,
}
use atophttpd.Json.WellFormed.Tasks.{
  PrgFits, PrcFits, PrmFits, PrdFits, PrnFits, PreFits, json_print_prg-Keeps, json_print_prc-Keeps,
  json_print_prm-Keeps, json_print_prd-Keeps, json_print_prn-Keeps, json_print_pre-Keeps,
}

-- The demand under the first entry of a label.
abbrev pub DemandOf : List (Bytes × Type 0) → Bytes → Type 0
DemandOf [] label = ⊥
DemandOf (d ∷ ds) label = if str_eq d.0 label then d.1 else DemandOf ds label

module _ (a : Atop) (env : Env) (flags : ℕ) (ss : Sstat) (tasks : List Tstat) where
  abbrev pub demands : List (Bytes × Type 0)
  demands =
      (codes "CPU", CpuAllFits env ss)
      ∷ (codes "cpu", CpuFits ss)
      ∷ (codes "CPL", CplFits ss)
      ∷ (codes "GPU", GpuFits ss)
      ∷ (codes "MEM", MemFits env ss)
      ∷ (codes "SWP", SwpFits env ss)
      ∷ (codes "PAG", PagFits ss)
      ∷ (codes "PSI", PsiFits ss)
      ∷ (codes "LVM", LvmFits ss)
      ∷ (codes "MDD", MddFits ss)
      ∷ (codes "DSK", DskFits ss)
      ∷ (codes "NFM", NfmFits env ss)
      ∷ (codes "NFC", NfcFits ss)
      ∷ (codes "NFS", NfsFits ss)
      ∷ (codes "NET", NetFits ss)
      ∷ (codes "IFB", IfbFits ss)
      ∷ (codes "NUM", NumFits env ss)
      ∷ (codes "NUC", NucFits ss)
      ∷ (codes "LLC", LlcFits env ss)
      ∷ (codes "PRG", PrgFits tasks)
      ∷ (codes "PRC", PrcFits env tasks)
      ∷ (codes "PRM", PrmFits tasks)
      ∷ (codes "PRD", PrdFits tasks)
      ∷ (codes "PRN", PrnFits a flags tasks)
      ∷ (codes "PRE", PreFits a flags tasks)
      ∷ []

  abbrev pub LabelFits : Bytes → Type 0
  LabelFits = DemandOf demands

  -- A print function does its part when its label fits.
  abbrev pub Prints : Bytes → Prifunc → Type 0
  Prints label prifunc = LabelFits label → Keeps (prifunc flags ss tasks)

  pub labeldef-Prints : All (λ d. Prints d.label d.prifunc) (labeldef a env)
  unfolding labeldef str_eq
  labeldef-Prints = (
    json_print_cpu_all-Keeps env ss,
    (
      json_print_cpu-Keeps ss,
      (
        json_print_cpl-Keeps ss,
        (
          json_print_gpu-Keeps ss,
          (
            json_print_mem-Keeps env ss,
            (
              json_print_swp-Keeps env ss,
              (
                json_print_pag-Keeps ss,
                (
                  json_print_psi-Keeps ss,
                  (
                    json_print_lvm-Keeps ss,
                    (
                      json_print_mdd-Keeps ss,
                      (
                        json_print_dsk-Keeps ss,
                        (
                          json_print_nfm-Keeps env ss,
                          (
                            json_print_nfc-Keeps ss,
                            (
                              json_print_nfs-Keeps ss,
                              (
                                json_print_net-Keeps ss,
                                (
                                  json_print_ifb-Keeps ss,
                                  (
                                    json_print_num-Keeps env ss,
                                    (
                                      json_print_nuc-Keeps ss,
                                      (
                                        json_print_llc-Keeps env ss,
                                        (
                                          json_print_prg-Keeps tasks,
                                          (
                                            json_print_prc-Keeps env tasks,
                                            (
                                              json_print_prm-Keeps tasks,
                                              (
                                                json_print_prd-Keeps tasks,
                                                (
                                                  json_print_prn-Keeps a flags tasks,
                                                  (json_print_pre-Keeps a flags tasks, tt),
                                                ),
                                              ),
                                            ),
                                          ),
                                        ),
                                      ),
                                    ),
                                  ),
                                ),
                              ),
                            ),
                          ),
                        ),
                      ),
                    ),
                  ),
                ),
              ),
            ),
          ),
        ),
      ),
    ),
  )
