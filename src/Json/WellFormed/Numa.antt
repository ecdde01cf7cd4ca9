-- ===== src/Json/WellFormed/Numa.antt =====
-- The texts of the print functions for nodes and caches keep the JSON well formed.
use atophttpd.Prelude.{refl, codes, Returns}
use atophttpd.CString.{is_digit}
use atophttpd.Printf.{pieces, role}
use atophttpd.Json.Sample.{Sstat}
use atophttpd.Json.Syntax.{step, class_of}
use atophttpd.Json.Format.{check, bound}
use atophttpd.Json.Lines.{Env, first_n}
use atophttpd.Json.Lines.Leads.{Keeps}
use atophttpd.Json.Lines.Opening.{IsLabel_lem}
use atophttpd.Json.Lines.Fits.{CellsFit, TakesRows, cells-Keeps}
use atophttpd.Json.Print.Numa.{
  num_format, num_args, json_print_num, nuc_format, nuc_args, json_print_nuc, llc_format, llc_args,
  json_print_llc,
}

abbrev pub NumFits : Env → Sstat → Type 0
NumFits env ss =
    Returns (first_n ss.memnuma.nrnuma ss.memnuma.numa)
      (CellsFit num_format (λ i x. num_args env ss x))

num_takes : (env : Env) (ss : Sstat) → TakesRows num_format (λ i x. num_args env ss x)
unfolding num_format num_args check pieces role is_digit bound step class_of
num_takes env ss i x = (refl, refl)

pub json_print_num-Keeps : (env : Env) (ss : Sstat) → NumFits env ss → Keeps (json_print_num env ss)
unfolding json_print_num
json_print_num-Keeps env ss =
    cells-Keeps (codes "NUM") num_format (λ i x. num_args env ss x)
      (first_n ss.memnuma.nrnuma ss.memnuma.numa) (IsLabel_lem (codes "NUM") refl)
      (num_takes env ss)

abbrev pub NucFits : Sstat → Type 0
NucFits ss =
    Returns (first_n ss.cpunuma.nrnuma ss.cpunuma.numa) (CellsFit nuc_format (λ i x. nuc_args x))

nuc_takes : TakesRows nuc_format (λ i x. nuc_args x)
unfolding nuc_format nuc_args check pieces role is_digit bound step class_of
nuc_takes i x = (refl, refl)

pub json_print_nuc-Keeps : (ss : Sstat) → NucFits ss → Keeps (json_print_nuc ss)
unfolding json_print_nuc
json_print_nuc-Keeps ss =
    cells-Keeps (codes "NUC") nuc_format (λ i x. nuc_args x)
      (first_n ss.cpunuma.nrnuma ss.cpunuma.numa) (IsLabel_lem (codes "NUC") refl) nuc_takes

abbrev pub LlcFits : Env → Sstat → Type 0
LlcFits env ss =
    Returns (first_n ss.llc.nrllcs ss.llc.perllc) (CellsFit llc_format (λ i x. llc_args env x))

llc_takes : (env : Env) → TakesRows llc_format (λ i x. llc_args env x)
unfolding llc_format llc_args check pieces role is_digit bound step class_of
llc_takes env i x = (refl, refl)

pub json_print_llc-Keeps : (env : Env) (ss : Sstat) → LlcFits env ss → Keeps (json_print_llc env ss)
unfolding json_print_llc
json_print_llc-Keeps env ss =
    cells-Keeps (codes "LLC") llc_format (λ i x. llc_args env x)
      (first_n ss.llc.nrllcs ss.llc.perllc) (IsLabel_lem (codes "LLC") refl) (llc_takes env)
