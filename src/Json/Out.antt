-- ===== src/Json/Out.antt =====
-- `jsondef` and `jsonout`: which labels are printed, and the whole text.
pub mod Choose
pub mod Commas
pub mod Marks
use atophttpd.Prelude.{
  ℕ, zero, suc, ◌+◌, Bool, true, false, ◌||◌, List, [], ◌∷◌, ◌++◌, map, Option, none, some, ℤ, pos,
  Bytes, codes, str_eq, ◌==◌, if◌then◌else◌, length, take, Run, done, crash, ◌>>=◌,
}
use mathlib.Core.Option
use atophttpd.Atop.{Atop, minus, einval}
use atophttpd.Output.{Output, output_all, output_samp_done}
use atophttpd.Printf.{num, str, format, snprintf}
use atophttpd.Json.Sample.{Sstat, Tstat}
use atophttpd.Json.Lines.{Env}
use atophttpd.Json.Print.Cpu.{json_print_cpu_all, json_print_cpu, json_print_cpl}
use atophttpd.Json.Print.Memory.{json_print_mem, json_print_swp, json_print_pag, json_print_psi}
use atophttpd.Json.Print.Devices.{
  json_print_gpu, json_print_lvm, json_print_mdd, json_print_dsk, json_print_ifb,
}
use atophttpd.Json.Print.Nfs.{json_print_nfm, json_print_nfc, json_print_nfs}
use atophttpd.Json.Print.Net.{json_print_net}
use atophttpd.Json.Print.Numa.{json_print_num, json_print_nuc, json_print_llc}
use atophttpd.Json.Print.Tasks.{
  json_print_prg, json_print_prc, json_print_prm, json_print_prd, json_print_prn, json_print_pre,
}

-- `P` is the type of the print functions.
pub record Labeldef (P : Type 0) : Type 0 where
  pub label : Bytes
  pub valid : Bool
  pub prifunc : P

-- The parts between commas; an empty one behind the last comma is not read.
unfoldable pub split_from : Bytes → Bytes → List Bytes
split_from [] [] = []
split_from (a ∷ acc) [] = (a ∷ acc) ∷ []
split_from acc (c ∷ s) =
    let next = acc ∷ split_from [] s in
    let same = split_from (acc ++ c ∷ []) s in if c == b',' then next else same

-- The first label of that name is made valid.
module _ {P : Type 0} where
  unfoldable pub set_valid : Bytes → List (Labeldef P) → Option (List (Labeldef P))
  set_valid name [] = none
  set_valid name (d ∷ ds) =
      if str_eq d.label name
      then some (record d { valid = true } ∷ ds)
      else Option.map (λ es. d ∷ es) (set_valid name ds)

  abbrev pub all_valid : List (Labeldef P) → List (Labeldef P)
  all_valid [] = []
  all_valid (d ∷ ds) = record d { valid = true } ∷ all_valid ds

-- What `jsondef` makes of the table, or the text that it puts out before it gives up.
pub data Choice (P : Type 0) : Type 0 where
  accepted : List (Labeldef P) → Choice P
  refused : Bytes → Choice P

-- `snprintf` into 64 bytes, and the string that it leaves there.
abbrev pub unsupported : Bytes → Bytes
unsupported name = take 63 (codes "json lables not supported: " ++ (name ++ 10 ∷ []))

module _ {P : Type 0} where
  unfoldable pub choose : List Bytes → List (Labeldef P) → Choice P
  choose [] ds = accepted ds
  choose (name ∷ names) ds = elim (set_valid name ds) [
    | some es ↦ choose names es
    | none ↦
        if str_eq name (codes "ALL") then accepted (all_valid ds) else refused (unsupported name)
  ]

  unfoldable pub jsondef : Bytes → List (Labeldef P) → Choice P
  jsondef [] ds = accepted ds
  jsondef (c ∷ pd) ds =
      if c == b'-'
      then refused (codes "json lables should be followed by label list" ++ 10 ∷ [])
      else choose (split_from [] (c ∷ pd)) ds

-- A print function takes the flags, the system's statistics and the tasks.
abbrev pub Prifunc : Type 0
Prifunc = ℕ → Sstat → List Tstat → Run (List Bytes)

abbrev entry : Bytes → Prifunc → Labeldef Prifunc
entry label prifunc = record { label = label; valid = false; prifunc = prifunc }

-- The table `labeldef`.
unfoldable pub labeldef : Atop → Env → List (Labeldef Prifunc)
labeldef a env =
    entry (codes "CPU") (λ flags ss ps. json_print_cpu_all env ss)
    ∷ entry (codes "cpu") (λ flags ss ps. json_print_cpu ss)
    ∷ entry (codes "CPL") (λ flags ss ps. json_print_cpl ss)
    ∷ entry (codes "GPU") (λ flags ss ps. json_print_gpu ss)
    ∷ entry (codes "MEM") (λ flags ss ps. json_print_mem env ss)
    ∷ entry (codes "SWP") (λ flags ss ps. json_print_swp env ss)
    ∷ entry (codes "PAG") (λ flags ss ps. json_print_pag ss)
    ∷ entry (codes "PSI") (λ flags ss ps. json_print_psi ss)
    ∷ entry (codes "LVM") (λ flags ss ps. json_print_lvm ss)
    ∷ entry (codes "MDD") (λ flags ss ps. json_print_mdd ss)
    ∷ entry (codes "DSK") (λ flags ss ps. json_print_dsk ss)
    ∷ entry (codes "NFM") (λ flags ss ps. json_print_nfm env ss)
    ∷ entry (codes "NFC") (λ flags ss ps. json_print_nfc ss)
    ∷ entry (codes "NFS") (λ flags ss ps. json_print_nfs ss)
    ∷ entry (codes "NET") (λ flags ss ps. json_print_net ss)
    ∷ entry (codes "IFB") (λ flags ss ps. json_print_ifb ss)
    ∷ entry (codes "NUM") (λ flags ss ps. json_print_num env ss)
    ∷ entry (codes "NUC") (λ flags ss ps. json_print_nuc ss)
    ∷ entry (codes "LLC") (λ flags ss ps. json_print_llc env ss)
    ∷ entry (codes "PRG") (λ flags ss ps. json_print_prg ps)
    ∷ entry (codes "PRC") (λ flags ss ps. json_print_prc env ps)
    ∷ entry (codes "PRM") (λ flags ss ps. json_print_prm ps)
    ∷ entry (codes "PRD") (λ flags ss ps. json_print_prd ps)
    ∷ entry (codes "PRN") (λ flags ss ps. json_print_prn a flags ps)
    ∷ entry (codes "PRE") (λ flags ss ps. json_print_pre a flags ps)
    ∷ []

-- Quotes and backslashes become `#`.
abbrev pub replace : ℕ → ℕ
replace c = if c == b'"' || c == b'\\' then b'#' else c

unfoldable pub clean_task : Env → Tstat → Tstat
clean_task env ps =
    let cmdline = if env.hidecmdline then codes "***" else map replace ps.gen.cmdline in
    record ps { gen = record ps.gen { name = map replace ps.gen.name; cmdline = cmdline } }

unfoldable pub print_valid : ℕ → Sstat → List Tstat → List (Labeldef Prifunc) → Run (List Bytes)
print_valid flags ss ps [] = done []
print_valid flags ss ps (d ∷ ds) =
    let rest = print_valid flags ss ps ds in
    if d.valid then (do texts ← d.prifunc flags ss ps; more ← rest; done (texts ++ more)) else rest

unfoldable pub general_format : Bytes
general_format = format ("{\"host\": \"%s\", " ∷ "\"timestamp\": %ld, " ∷ "\"elapsed\": %d" ∷ [])

-- What `jsonout` puts out for the labels that are valid.
unfoldable pub sample_texts :
    Env → ℕ → ℤ → ℤ → List Tstat → Sstat → List (Labeldef Prifunc) → Run (List Bytes)
sample_texts env flags curtime numsecs taskall ss ds = do
  general ← snprintf 256 general_format (str env.nodename ∷ num curtime ∷ num numsecs ∷ [])
  texts ← print_valid flags ss (map (clean_task env) taskall) ds
  done (general ∷ (texts ++ (b'}' ∷ 10 ∷ []) ∷ []))

module _ (a : Atop) (env : Env) {W : Type 0} (callback : Option (Output → W → Run W)) where
  -- The texts go through the buffer; then the callback sends them.
  unfoldable pub jsonout :
      ℕ → Bytes → ℤ → ℤ → List Tstat → Sstat → Output → W → Run (ℤ × Output × W)
  jsonout flags pd curtime numsecs taskall ss op w = elim (jsondef pd (labeldef a env)) [
    | refused err ↦ do
      op' ← output_all op (err ∷ [])
      sent ← output_samp_done callback op' w
      done (minus einval, sent.0, sent.1)
    | accepted ds ↦ do
      texts ← sample_texts env flags curtime numsecs taskall ss ds
      op' ← output_all op texts
      sent ← output_samp_done callback op' w
      done (pos 0, sent.0, sent.1)
  ]
