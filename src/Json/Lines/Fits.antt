-- ===== src/Json/Lines/Fits.antt =====
-- What is asked of the data of a print function, and the loops over it.
use atophttpd.Prelude.{
  ℕ, suc, none, ◌≡◌, refl, Bool, true, false, List, [], ◌∷◌, Bytes, Run, ◌>>=◌, Returns,
  Returns-bind,
}
use atophttpd.Printf.{Arg}
use atophttpd.Json.Sample.{Tstat}
use atophttpd.Output.Bounds.{joined}
use atophttpd.Json.Syntax.{Mode, value, after, run}
use atophttpd.Json.Syntax.Cover.{Covers}
use atophttpd.Json.Format.{FormatFits}
use atophttpd.Json.Format.Sound.{TakesFormat}
use atophttpd.Json.Lines.{line_buf_size, line, array_lines, is_main_thread, task_lines}
use atophttpd.Json.Lines.Leads.{in_object, in_array, Keeps, IsRow, line-IsRow}
use atophttpd.Json.Lines.Arrays.{RowsFit, opens, array_lines-Keeps, array_lines-none}
use atophttpd.Json.Lines.Opening.{IsLabel}

-- The cells of an array that a loop prints, with their indices.
abbrev pub Shown : {A : Type 0} → (A → Bool) → (ℕ → A → Type 0) → ℕ → List A → Type 0
Shown skip F i [] = Unit
Shown skip F i (x ∷ xs) = (skip x ≡ false → F i x) × Shown skip F (suc i) xs

module _ {A : Type 0} (skip : A → Bool) (F : ℕ → A → Type 0) (row : ℕ → A → Run Bytes) where
  pub Shown-RowsFit :
      ((i : ℕ) (x : A) → F i x → IsRow (row i x))
      → (i : ℕ) (xs : List A) → Shown skip F i xs
      → RowsFit skip row i xs
  Shown-RowsFit h i [] f = f
  Shown-RowsFit h i (x ∷ xs) f = ((λ n. h i x (f.0 n)), Shown-RowsFit h (suc i) xs f.1)

-- No cell of an array of devices is skipped.
abbrev pub all_shown : {A : Type 0} → A → Bool
all_shown x = false

abbrev pub CellsFit : {A : Type 0} → Bytes → (ℕ → A → List Arg) → List A → Type 0
CellsFit fmt args xs = Shown all_shown (λ i x. FormatFits fmt (args i x)) 0 xs

opens-all_shown : {A : Type 0} (xs : List A) → opens all_shown xs ≡ true
unfolding opens
opens-all_shown [] = refl
opens-all_shown (x ∷ xs) = refl

abbrev pub TakesRows : {A : Type 0} → Bytes → (ℕ → A → List Arg) → Type 0
TakesRows {A} fmt args =
    (i : ℕ) (x : A) → TakesFormat (value, in_array) (after, in_array) line_buf_size fmt (args i x)

-- An array of devices.
pub Shown-Keeps :
    {A : Type 0} (label : Bytes) (F : ℕ → A → Type 0) (row : ℕ → A → Run Bytes)
    (source : Run (List A))
    → IsLabel label
    → ((i : ℕ) (x : A) → F i x → IsRow (row i x))
    → Returns source (Shown all_shown F 0)
    → Keeps (source >>= λ xs. array_lines label all_shown row xs)
Shown-Keeps label F row source l rows fit m v = Returns-bind _ _ source _ fit (λ xs f.
    array_lines-Keeps all_shown row label xs l (Shown-RowsFit all_shown F row rows 0 xs f)
      (opens-all_shown xs) m v)

-- An array of devices whose rows have one format.
pub cells-Keeps :
    {A : Type 0} (label fmt : Bytes) (args : ℕ → A → List Arg) (source : Run (List A))
    → IsLabel label
    → TakesRows fmt args
    → Returns source (CellsFit fmt args)
    → Keeps (source >>= λ xs. array_lines label all_shown (λ i x. line fmt (args i x)) xs)
cells-Keeps label fmt args source l takes =
    Shown-Keeps label (λ i x. FormatFits fmt (args i x)) (λ i x. line fmt (args i x)) source l
      (λ i x. line-IsRow fmt (args i x) (takes i x))

-- The tasks that a print function shows.
abbrev pub TasksShown : Bytes → (Tstat → List Arg) → List Tstat → Type 0
TasksShown fmt args tasks = Shown is_main_thread (λ i ps. FormatFits fmt (args ps)) 0 tasks

-- The first task is shown, or none is, and the ones that are shown fit.
abbrev pub TasksFit : Bytes → (Tstat → List Arg) → List Tstat → Type 0
TasksFit fmt args tasks = (opens is_main_thread tasks ≡ true) × TasksShown fmt args tasks

module _ (label fmt : Bytes) (args : Tstat → List Arg) (l : IsLabel label)
    (takes : TakesRows fmt (λ i x. args x)) where
  rows_of :
      (tasks : List Tstat)
      → TasksShown fmt args tasks
      → RowsFit is_main_thread (λ i ps. line fmt (args ps)) 0 tasks
  rows_of tasks =
      Shown-RowsFit is_main_thread (λ i ps. FormatFits fmt (args ps)) (λ i ps. line fmt (args ps))
        (λ i x. line-IsRow fmt (args x) (takes i x)) 0 tasks

  pub task_lines-Keeps :
      (tasks : List Tstat) → TasksFit fmt args tasks → Keeps (task_lines label fmt args tasks)
  unfolding task_lines
  task_lines-Keeps tasks (o, f) =
      array_lines-Keeps is_main_thread (λ i ps. line fmt (args ps)) label tasks l (rows_of tasks f)
        o

  -- For a label and a row format that the recogniser takes, and tasks whose values fit: a print
  -- function that leaves out the first task and prints a later one ends without a crash, and its
  -- texts, behind a member of an object, are no part of a JSON text: the recogniser refuses them.
  pub task_lines-none :
      (tasks : List Tstat) (m : Mode)
      → TasksShown fmt args tasks
      → Covers after m
      → opens is_main_thread tasks ≡ false
      → Returns (task_lines label fmt args tasks) (λ ts. run (m, in_object) (joined ts) ≡ none)
  unfolding task_lines
  task_lines-none tasks m f =
      array_lines-none is_main_thread (λ i ps. line fmt (args ps)) label tasks m l (rows_of tasks f)
