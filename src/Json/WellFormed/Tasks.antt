-- ===== src/Json/WellFormed/Tasks.antt =====
-- The texts of the print functions for processes and threads keep the JSON well formed.
use atophttpd.Prelude.{ℕ, ◌≡◌, refl, true, List, codes}
use atophttpd.Atop.{Atop, has_flag}
use atophttpd.CString.{is_digit}
use atophttpd.Printf.{pieces, role}
use atophttpd.Json.Sample.{Tstat}
use atophttpd.Json.Syntax.{step, class_of}
use atophttpd.Json.Format.{check, bound}
use atophttpd.Json.Lines.{Env, task_lines}
use atophttpd.Json.Lines.Leads.{Keeps, Keeps-if}
use atophttpd.Json.Lines.Opening.{IsLabel_lem}
use atophttpd.Json.Lines.Fits.{TakesRows, TasksFit, task_lines-Keeps}
use atophttpd.Json.Print.Tasks.{
  prg_format, prg_args, json_print_prg, prc_format, prc_args, json_print_prc, prm_format, prm_args,
  json_print_prm, prd_format, prd_args, json_print_prd, prn_format, prn_args, json_print_prn,
  pre_format, pre_args, json_print_pre,
}

prg_takes : TakesRows prg_format (λ i x. prg_args x)
unfolding prg_format prg_args check pieces role is_digit bound step class_of
prg_takes i x = (refl, refl)

abbrev pub PrgFits : List Tstat → Type 0
PrgFits tasks = TasksFit prg_format prg_args tasks

pub json_print_prg-Keeps : (tasks : List Tstat) → PrgFits tasks → Keeps (json_print_prg tasks)
unfolding json_print_prg
json_print_prg-Keeps =
    task_lines-Keeps (codes "PRG") prg_format prg_args (IsLabel_lem (codes "PRG") refl) prg_takes

prc_takes : (env : Env) → TakesRows prc_format (λ i x. prc_args env x)
unfolding prc_format prc_args check pieces role is_digit bound step class_of
prc_takes env i x = (refl, refl)

abbrev pub PrcFits : Env → List Tstat → Type 0
PrcFits env tasks = TasksFit prc_format (prc_args env) tasks

pub json_print_prc-Keeps :
    (env : Env) (tasks : List Tstat) → PrcFits env tasks → Keeps (json_print_prc env tasks)
unfolding json_print_prc
json_print_prc-Keeps env =
    task_lines-Keeps (codes "PRC") prc_format (prc_args env) (IsLabel_lem (codes "PRC") refl)
      (prc_takes env)

prm_takes : TakesRows prm_format (λ i x. prm_args x)
unfolding prm_format prm_args check pieces role is_digit bound step class_of
prm_takes i x = (refl, refl)

abbrev pub PrmFits : List Tstat → Type 0
PrmFits tasks = TasksFit prm_format prm_args tasks

pub json_print_prm-Keeps : (tasks : List Tstat) → PrmFits tasks → Keeps (json_print_prm tasks)
unfolding json_print_prm
json_print_prm-Keeps =
    task_lines-Keeps (codes "PRM") prm_format prm_args (IsLabel_lem (codes "PRM") refl) prm_takes

prd_takes : TakesRows prd_format (λ i x. prd_args x)
unfolding prd_format prd_args check pieces role is_digit bound step class_of
prd_takes i x = (refl, refl)

abbrev pub PrdFits : List Tstat → Type 0
PrdFits tasks = TasksFit prd_format prd_args tasks

pub json_print_prd-Keeps : (tasks : List Tstat) → PrdFits tasks → Keeps (json_print_prd tasks)
unfolding json_print_prd
json_print_prd-Keeps =
    task_lines-Keeps (codes "PRD") prd_format prd_args (IsLabel_lem (codes "PRD") refl) prd_takes

prn_takes : TakesRows prn_format (λ i x. prn_args x)
unfolding prn_format prn_args check pieces role is_digit bound step class_of
prn_takes i x = (refl, refl)

abbrev pub PrnFits : Atop → ℕ → List Tstat → Type 0
PrnFits a flags tasks = has_flag flags a.netatop ≡ true → TasksFit prn_format prn_args tasks

pub json_print_prn-Keeps :
    (a : Atop) (flags : ℕ) (tasks : List Tstat)
    → PrnFits a flags tasks
    → Keeps (json_print_prn a flags tasks)
unfolding json_print_prn
json_print_prn-Keeps a flags tasks fit =
    Keeps-if (has_flag flags a.netatop) (task_lines (codes "PRN") prn_format prn_args tasks) (λ y.
      task_lines-Keeps (codes "PRN") prn_format prn_args (IsLabel_lem (codes "PRN") refl) prn_takes
        tasks (fit y))

pre_takes : TakesRows pre_format (λ i x. pre_args x)
unfolding pre_format pre_args check pieces role is_digit bound step class_of
pre_takes i x = (refl, refl)

abbrev pub PreFits : Atop → ℕ → List Tstat → Type 0
PreFits a flags tasks = has_flag flags a.gpustat ≡ true → TasksFit pre_format pre_args tasks

pub json_print_pre-Keeps :
    (a : Atop) (flags : ℕ) (tasks : List Tstat)
    → PreFits a flags tasks
    → Keeps (json_print_pre a flags tasks)
unfolding json_print_pre
json_print_pre-Keeps a flags tasks fit =
    Keeps-if (has_flag flags a.gpustat) (task_lines (codes "PRE") pre_format pre_args tasks) (λ y.
      task_lines-Keeps (codes "PRE") pre_format pre_args (IsLabel_lem (codes "PRE") refl) pre_takes
        tasks (fit y))
