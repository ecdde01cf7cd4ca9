-- ===== src/Json/Lines.antt =====
-- What the print functions of json.c share: arithmetic, lines, and the loops that print an array.
-- A print function gives the texts that it hands to `output_samp`, in order.
pub mod Leads
pub mod Opening
pub mod Arrays
pub mod Fits
use atophttpd.Prelude.{
  ℕ, zero, suc, ◌+◌, ◌-◌, ◌*◌, ◌/◌, ◌%◌, ◌^◌, ◌<◌, Bool, true, false, not, ◌&&◌, List, [], ◌∷◌,
  ◌++◌, ℤ, pos, negsuc, pos_part, neg_part, eqb_ℤ, Bytes, codes, ltb, leb, ◌==◌, if◌then◌else◌,
  length, Run, done, crash, ◌>>=◌, ◌>>◌, assert,
}
use atophttpd.Printf.{Arg, header, Double, printf, snprintf}
use atophttpd.Json.Sample.{Tstat}

-- Globals: `hertz`, `pagesize`, the name of the host, `hidecmdline`; and a multiplication of floating-point
-- numbers by 100.
pub record Env : Type 0 where
  pub hertz : ℕ
  pub pagesize : ℕ
  pub nodename : Bytes
  pub hidecmdline : Bool
  pub times_100 : Double → Double

-- a - b, as an integer.
abbrev sub_ℕ : ℕ → ℕ → ℤ
sub_ℕ a b = if leb b a then pos (a - b) else negsuc (b - a - 1)

-- A result that a `long long` holds; the overflow is undefined.
abbrev pub long_long : ℤ → Run ℤ
long_long z = if ltb (pos_part z) (2 ^ 63) && leb (neg_part z) (2 ^ 63) then done z else crash

unfoldable pub times : ℤ → ℤ → Run ℤ
times a b = long_long (
    sub_ℕ (pos_part a * pos_part b + neg_part a * neg_part b)
      (pos_part a * neg_part b + neg_part a * pos_part b))

unfoldable pub plus : ℤ → ℤ → Run ℤ
plus a b = long_long (sub_ℕ (pos_part a + pos_part b) (neg_part a + neg_part b))

abbrev same_sign : ℤ → ℤ → Bool
same_sign (pos a) (pos b) = true
same_sign (negsuc a) (negsuc b) = true
same_sign _ _ = false

-- A division, which rounds towards zero.
unfoldable pub quot : ℤ → ℤ → Run ℤ
quot a b =
    let q = (pos_part a + neg_part a) / (pos_part b + neg_part b) in
    let signed = if same_sign a b then sub_ℕ q 0 else sub_ℕ 0 q in
    if eqb_ℤ b (pos 0) then crash else long_long signed

-- A number as an `int`: its low 32 bits.
unfoldable pub to_int : ℤ → ℤ
to_int z =
    let bits = (pos_part z % 2 ^ 32 + (2 ^ 32 - neg_part z % 2 ^ 32)) % 2 ^ 32 in
    if ltb bits (2 ^ 31) then pos bits else negsuc (2 ^ 32 - 1 - bits)

-- `!!b`
abbrev pub bit : Bool → ℤ
bit true = pos 1
bit false = pos 0

abbrev pub line_buf_size : ℕ
line_buf_size = 1024

abbrev pub len_hp_size : ℕ
len_hp_size = 64

-- `snprintf` into `buf`, and its bytes.
abbrev pub line : Bytes → List Arg → Run Bytes
line fmt args = snprintf line_buf_size fmt args

-- The only line of a print function.
unfoldable pub object_line : Bytes → Bytes → List Arg → Run (List Bytes)
object_line label fmt args = do text ← line fmt (header label ∷ args); done (text ∷ [])

-- `sprintf(br, ", %s: [", hp)`
unfoldable pub open_array : Bytes → Run Bytes
open_array label = do
  text ← printf (codes ", %s: [") (header label ∷ [])
  assert (ltb (length text) len_hp_size)
  done text

module _ {A : Type 0} (skip : A → Bool) (row : ℕ → A → Run Bytes) where
  -- The loop over an array from an index on: every row but that of index 0 comes behind a comma.
  unfoldable pub rows : ℕ → List A → Run (List Bytes)
  rows i [] = done []
  rows i (x ∷ xs) =
      let rest = rows (suc i) xs in
      if skip x then rest else do
        text ← row i x
        more ← rest
        done (if i == 0 then text ∷ more else codes ", " ∷ text ∷ more)

unfoldable pub array_lines :
    {A : Type 0} → Bytes → (A → Bool) → (ℕ → A → Run Bytes) → List A → Run (List Bytes)
array_lines label skip row xs = do
  opening ← open_array label
  texts ← rows skip row 0 xs
  done (opening ∷ (texts ++ codes "]" ∷ []))

-- The thread that stands for a process is left out.
abbrev pub is_main_thread : Tstat → Bool
is_main_thread ps = eqb_ℤ ps.gen.tgid ps.gen.pid && not ps.gen.isproc

unfoldable pub task_lines : Bytes → Bytes → (Tstat → List Arg) → List Tstat → Run (List Bytes)
task_lines label fmt args tasks =
    array_lines label is_main_thread (λ i ps. line fmt (args ps)) tasks

-- The first cells of an array, as many as a count says.
unfoldable pub first_cells {ℓ} : {A : Type ℓ} → ℕ → List A → Run (List A)
first_cells zero xs = done []
first_cells (suc n) [] = crash
first_cells (suc n) (x ∷ xs) = do rest ← first_cells n xs; done (x ∷ rest)

abbrev pub first_n {ℓ} : {A : Type ℓ} → ℤ → List A → Run (List A)
first_n n xs = first_cells (pos_part n) xs

-- The cells of an array before the first one without a name, which is there.
unfoldable pub until_unnamed {ℓ} : {A : Type ℓ} → (A → Bytes) → List A → Run (List A)
until_unnamed name [] = crash
until_unnamed name (x ∷ xs) =
    let rest = until_unnamed name xs in
    if length (name x) == 0 then done [] else (do more ← rest; done (x ∷ more))
