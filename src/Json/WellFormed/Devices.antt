-- ===== src/Json/WellFormed/Devices.antt =====
-- The texts of the print functions for devices keep the JSON well formed.
use atophttpd.Prelude.{refl, codes, Returns}
use atophttpd.CString.{is_digit}
use atophttpd.Printf.{pieces, role}
use atophttpd.Json.Sample.{Sstat}
use atophttpd.Json.Syntax.{step, class_of}
use atophttpd.Json.Format.{check, bound}
use atophttpd.Json.Lines.{first_n, until_unnamed}
use atophttpd.Json.Lines.Leads.{Keeps}
use atophttpd.Json.Lines.Opening.{IsLabel_lem}
use atophttpd.Json.Lines.Fits.{CellsFit, TakesRows, cells-Keeps}
use atophttpd.Json.Print.Devices.{
  gpu_format, gpu_args, json_print_gpu, lvm_format, lvm_args, json_print_lvm, mdd_format, mdd_args,
  json_print_mdd, dsk_format, dsk_args, json_print_dsk, ifb_format, ifb_args, json_print_ifb,
}

abbrev pub GpuFits : Sstat → Type 0
GpuFits ss = Returns (first_n ss.gpu.nrgpus ss.gpu.gpu) (CellsFit gpu_format gpu_args)

gpu_takes : TakesRows gpu_format gpu_args
unfolding gpu_format gpu_args check pieces role is_digit bound step class_of
gpu_takes i x = (refl, refl)

pub json_print_gpu-Keeps : (ss : Sstat) → GpuFits ss → Keeps (json_print_gpu ss)
unfolding json_print_gpu
json_print_gpu-Keeps ss =
    cells-Keeps (codes "GPU") gpu_format gpu_args (first_n ss.gpu.nrgpus ss.gpu.gpu)
      (IsLabel_lem (codes "GPU") refl) gpu_takes

abbrev pub LvmFits : Sstat → Type 0
LvmFits ss =
    Returns (until_unnamed (λ x. x.name) ss.dsk.lvm) (CellsFit lvm_format (λ i x. lvm_args x))

lvm_takes : TakesRows lvm_format (λ i x. lvm_args x)
unfolding lvm_format lvm_args check pieces role is_digit bound step class_of
lvm_takes i x = (refl, refl)

pub json_print_lvm-Keeps : (ss : Sstat) → LvmFits ss → Keeps (json_print_lvm ss)
unfolding json_print_lvm
json_print_lvm-Keeps ss =
    cells-Keeps (codes "LVM") lvm_format (λ i x. lvm_args x)
      (until_unnamed (λ x. x.name) ss.dsk.lvm) (IsLabel_lem (codes "LVM") refl) lvm_takes

abbrev pub MddFits : Sstat → Type 0
MddFits ss =
    Returns (until_unnamed (λ x. x.name) ss.dsk.mdd) (CellsFit mdd_format (λ i x. mdd_args x))

mdd_takes : TakesRows mdd_format (λ i x. mdd_args x)
unfolding mdd_format mdd_args check pieces role is_digit bound step class_of
mdd_takes i x = (refl, refl)

pub json_print_mdd-Keeps : (ss : Sstat) → MddFits ss → Keeps (json_print_mdd ss)
unfolding json_print_mdd
json_print_mdd-Keeps ss =
    cells-Keeps (codes "MDD") mdd_format (λ i x. mdd_args x)
      (until_unnamed (λ x. x.name) ss.dsk.mdd) (IsLabel_lem (codes "MDD") refl) mdd_takes

abbrev pub DskFits : Sstat → Type 0
DskFits ss =
    Returns (until_unnamed (λ x. x.name) ss.dsk.dsk) (CellsFit dsk_format (λ i x. dsk_args x))

dsk_takes : TakesRows dsk_format (λ i x. dsk_args x)
unfolding dsk_format dsk_args check pieces role is_digit bound step class_of
dsk_takes i x = (refl, refl)

pub json_print_dsk-Keeps : (ss : Sstat) → DskFits ss → Keeps (json_print_dsk ss)
unfolding json_print_dsk
json_print_dsk-Keeps ss =
    cells-Keeps (codes "DSK") dsk_format (λ i x. dsk_args x)
      (until_unnamed (λ x. x.name) ss.dsk.dsk) (IsLabel_lem (codes "DSK") refl) dsk_takes

abbrev pub IfbFits : Sstat → Type 0
IfbFits ss = Returns (first_n ss.ifb.nrports ss.ifb.ifb) (CellsFit ifb_format (λ i x. ifb_args x))

ifb_takes : TakesRows ifb_format (λ i x. ifb_args x)
unfolding ifb_format ifb_args check pieces role is_digit bound step class_of
ifb_takes i x = (refl, refl)

pub json_print_ifb-Keeps : (ss : Sstat) → IfbFits ss → Keeps (json_print_ifb ss)
unfolding json_print_ifb
json_print_ifb-Keeps ss =
    cells-Keeps (codes "IFB") ifb_format (λ i x. ifb_args x) (first_n ss.ifb.nrports ss.ifb.ifb)
      (IsLabel_lem (codes "IFB") refl) ifb_takes
