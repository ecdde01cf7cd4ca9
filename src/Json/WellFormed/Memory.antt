-- ===== src/Json/WellFormed/Memory.antt =====
-- The texts of the print functions for memory keep the JSON well formed.
use atophttpd.Prelude.{◌≡◌, refl, true, ◌∷◌, codes}
use atophttpd.CString.{is_digit}
use atophttpd.Printf.{header, pieces, role}
use atophttpd.Json.Sample.{Sstat}
use atophttpd.Json.Syntax.{step, class_of}
use atophttpd.Json.Format.{FormatFits, check, bound}
use atophttpd.Json.Lines.{Env, object_line}
use atophttpd.Json.Lines.Leads.{Keeps, object_line-Keeps, Keeps-if}
use atophttpd.Json.Print.Memory.{
  mem_format, mem_args, json_print_mem, swp_format, swp_args, json_print_swp, pag_format, pag_args,
  json_print_pag, psi_format, psi_args, json_print_psi,
}

abbrev pub MemFits : Env → Sstat → Type 0
MemFits env ss = FormatFits mem_format (header (codes "MEM") ∷ mem_args env ss)

pub json_print_mem-Keeps : (env : Env) (ss : Sstat) → MemFits env ss → Keeps (json_print_mem env ss)
unfolding json_print_mem mem_format mem_args check pieces role is_digit bound step class_of
json_print_mem-Keeps env ss =
    object_line-Keeps (codes "MEM") mem_format (mem_args env ss) (refl, refl)

abbrev pub SwpFits : Env → Sstat → Type 0
SwpFits env ss = FormatFits swp_format (header (codes "SWP") ∷ swp_args env ss)

pub json_print_swp-Keeps : (env : Env) (ss : Sstat) → SwpFits env ss → Keeps (json_print_swp env ss)
unfolding json_print_swp swp_format swp_args check pieces role is_digit bound step class_of
json_print_swp-Keeps env ss =
    object_line-Keeps (codes "SWP") swp_format (swp_args env ss) (refl, refl)

abbrev pub PagFits : Sstat → Type 0
PagFits ss = FormatFits pag_format (header (codes "PAG") ∷ pag_args ss)

pub json_print_pag-Keeps : (ss : Sstat) → PagFits ss → Keeps (json_print_pag ss)
unfolding json_print_pag pag_format pag_args check pieces role is_digit bound step class_of
json_print_pag-Keeps ss = object_line-Keeps (codes "PAG") pag_format (pag_args ss) (refl, refl)

abbrev pub PsiFits : Sstat → Type 0
PsiFits ss = ss.psi.present ≡ true → FormatFits psi_format (header (codes "PSI") ∷ psi_args ss)

pub json_print_psi-Keeps : (ss : Sstat) → PsiFits ss → Keeps (json_print_psi ss)
unfolding json_print_psi psi_format psi_args check pieces role is_digit bound step class_of
json_print_psi-Keeps ss fit =
    Keeps-if ss.psi.present (object_line (codes "PSI") psi_format (psi_args ss))
      (λ y. object_line-Keeps (codes "PSI") psi_format (psi_args ss) (refl, refl) (fit y))
