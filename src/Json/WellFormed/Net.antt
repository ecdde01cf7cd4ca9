-- ===== src/Json/WellFormed/Net.antt =====
-- The texts of the print functions for the network keep the JSON well formed.
use atophttpd.Prelude.{
  subst, ◌≡◌, refl, List, [], ◌∷◌, ◌++◌, Bytes, codes, Run, done, crash, ◌>>=◌, Returns,
}
use atophttpd.CString.{is_digit}
use atophttpd.Printf.{pieces, role}
use atophttpd.Json.Sample.{Sstat}
use atophttpd.Json.Syntax.{step, class_of}
use atophttpd.Json.Format.{FormatFits, check, bound}
use atophttpd.Json.Lines.{line, array_lines, until_unnamed}
use atophttpd.Json.Lines.Leads.{Keeps, line-Keeps, Keeps-append}
use atophttpd.Json.Lines.Opening.{IsLabel_lem}
use atophttpd.Json.Lines.Fits.{all_shown, CellsFit, TakesRows, cells-Keeps}
use atophttpd.Json.Print.Net.{net_format, net_args, intf_format, intf_args, json_print_net}

-- The counters of the protocols, and the interfaces.
abbrev pub NetFits : Sstat → Type 0
NetFits ss =
    FormatFits net_format (net_args ss)
    × Returns (until_unnamed (λ x. x.name) ss.intf) (CellsFit intf_format (λ i x. intf_args x))

intf_takes : TakesRows intf_format (λ i x. intf_args x)
unfolding intf_format intf_args check pieces role is_digit bound step class_of
intf_takes i x = (refl, refl)

-- A text before the texts of a computation.
bind_text :
    {A : Type 0} (t : Run Bytes) (xs : Run A) (f : A → Run (List Bytes))
    → (t >>= λ u. done (u ∷ [])) >>= (λ us. (xs >>= f) >>= λ vs. done (us ++ vs))
      ≡ t >>= (λ u. xs >>= (λ x. f x >>= λ vs. done (u ∷ vs)))
bind_text (done u) (done x) f = refl
bind_text (done u) crash f = refl
bind_text crash xs f = refl

general-Keeps :
    (ss : Sstat)
    → FormatFits net_format (net_args ss)
    → Keeps (line net_format (net_args ss) >>= λ t. done (t ∷ []))
unfolding net_format net_args check pieces role is_digit bound step class_of
general-Keeps ss = line-Keeps net_format (net_args ss) (refl, refl)

pub json_print_net-Keeps : (ss : Sstat) → NetFits ss → Keeps (json_print_net ss)
unfolding json_print_net
json_print_net-Keeps ss (f, g) =
    let intfs = until_unnamed (λ x. x.name) ss.intf in
    let rows = intfs >>= λ xs.
    array_lines (codes "NET") all_shown (λ i x. line intf_format (intf_args x)) xs in
    subst Keeps
      (bind_text (line net_format (net_args ss)) intfs
        (array_lines (codes "NET") all_shown (λ i x. line intf_format (intf_args x))))
      (Keeps-append (line net_format (net_args ss) >>= λ t. done (t ∷ [])) rows (general-Keeps ss f)
        (cells-Keeps (codes "NET") intf_format (λ i x. intf_args x) intfs
          (IsLabel_lem (codes "NET") refl) intf_takes g))
