-- ===== src/Json/WellFormed/Nfs.antt =====
-- The texts of the print functions for NFS keep the JSON well formed.
use atophttpd.Prelude.{refl, ◌∷◌, codes, Returns}
use atophttpd.CString.{is_digit}
use atophttpd.Printf.{header, pieces, role}
use atophttpd.Json.Sample.{Sstat}
use atophttpd.Json.Syntax.{step, class_of}
use atophttpd.Json.Format.{FormatFits, check, bound}
use atophttpd.Json.Lines.{Env, first_n}
use atophttpd.Json.Lines.Leads.{Keeps, object_line-Keeps}
use atophttpd.Json.Lines.Opening.{IsLabel_lem}
use atophttpd.Json.Lines.Fits.{CellsFit, TakesRows, cells-Keeps}
use atophttpd.Json.Print.Nfs.{
  nfc_format, nfc_args, json_print_nfc, nfs_format, nfs_args, json_print_nfs, nfm_format, nfm_args,
  json_print_nfm,
}

abbrev pub NfcFits : Sstat → Type 0
NfcFits ss = FormatFits nfc_format (header (codes "NFC") ∷ nfc_args ss)

pub json_print_nfc-Keeps : (ss : Sstat) → NfcFits ss → Keeps (json_print_nfc ss)
unfolding json_print_nfc nfc_format nfc_args check pieces role is_digit bound step class_of
json_print_nfc-Keeps ss = object_line-Keeps (codes "NFC") nfc_format (nfc_args ss) (refl, refl)

abbrev pub NfsFits : Sstat → Type 0
NfsFits ss = FormatFits nfs_format (header (codes "NFS") ∷ nfs_args ss)

pub json_print_nfs-Keeps : (ss : Sstat) → NfsFits ss → Keeps (json_print_nfs ss)
unfolding json_print_nfs nfs_format nfs_args check pieces role is_digit bound step class_of
json_print_nfs-Keeps ss = object_line-Keeps (codes "NFS") nfs_format (nfs_args ss) (refl, refl)

abbrev pub NfmFits : Env → Sstat → Type 0
NfmFits env ss =
    Returns (first_n ss.nfs.nrmounts ss.nfs.nfsmnt) (CellsFit nfm_format (λ i x. nfm_args env x))

nfm_takes : (env : Env) → TakesRows nfm_format (λ i x. nfm_args env x)
unfolding nfm_format nfm_args check pieces role is_digit bound step class_of
nfm_takes env i x = (refl, refl)

pub json_print_nfm-Keeps : (env : Env) (ss : Sstat) → NfmFits env ss → Keeps (json_print_nfm env ss)
unfolding json_print_nfm
json_print_nfm-Keeps env ss =
    cells-Keeps (codes "NFM") nfm_format (λ i x. nfm_args env x)
      (first_n ss.nfs.nrmounts ss.nfs.nfsmnt) (IsLabel_lem (codes "NFM") refl) (nfm_takes env)
