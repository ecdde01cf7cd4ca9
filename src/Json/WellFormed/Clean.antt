-- ===== src/Json/WellFormed/Clean.antt =====
-- What `jsonout` does to the names of tasks makes the rows of PRG well formed.
use atophttpd.Prelude.{
  ℕ, suc, ◌≡◌, refl, ap, ◌∙◌, ◌≤◌, ◌<◌, ◌%◌, ◌/◌, ◌^◌, ◌+◌, inl, inr, Bool, true, false, List, [],
  ◌∷◌, map, ℤ, pos, ltb_ℤ, Bytes, codes, leb, ◌==◌, if◌then◌else◌, length, All, Bool-cases, arith,
}
use atophttpd.CString.{is_digit}
use atophttpd.Printf.{pieces, role, is_64, low_32}
use atophttpd.Json.Sample.{Tstat}
use atophttpd.Json.Format.{is_plain, Plain, FormatFits}
use atophttpd.Json.Lines.{Env, bit, is_main_thread}
use atophttpd.Json.Lines.Leads.{Keeps}
use atophttpd.Json.Lines.Arrays.{opens, skips_all}
use atophttpd.Json.Lines.Fits.{Shown}
use atophttpd.Json.Print.Tasks.{exit_state, exit_code, prg_format, prg_args, json_print_prg}
use atophttpd.Json.Out.{replace, clean_task}
use atophttpd.Json.WellFormed.Tasks.{json_print_prg-Keeps}

-- No control characters.
abbrev pub Printable : Bytes → Type 0
Printable s = All (λ c. leb 32 c ≡ true) s

replace-plain : (c : ℕ) → leb 32 c ≡ true → is_plain (replace c) ≡ true
replace-plain c h = ground (arith, h)

replaced-Plain : (s : Bytes) → Printable s → Plain (map replace s)
replaced-Plain [] h = tt
replaced-Plain (c ∷ s) h = (replace-plain c h.0, replaced-Plain s h.1)

-- A task with numbers of 64 bits, a letter for its state, and texts without control characters.
pub record IsTask (ps : Tstat) : Type 0 where
  pub numbers :
      All
        (λ z. is_64 z ≡ true)
        (ps.gen.pid ∷ ps.gen.ruid ∷ ps.gen.rgid ∷ ps.gen.tgid ∷ ps.gen.nthr ∷ ps.gen.btime
          ∷ ps.gen.ppid ∷ ps.gen.nthrrun ∷ ps.gen.nthrslpi ∷ ps.gen.nthrslpu ∷ ps.gen.euid
          ∷ ps.gen.egid ∷ ps.gen.elaps ∷ [])
  pub state : is_plain ps.gen.state ≡ true
  pub name : Printable ps.gen.name
  pub cmdline : Printable ps.gen.cmdline
  pub container : Plain ps.gen.container

small-is_64 : (n : ℕ) → n < 1000 → is_64 (pos n) ≡ true
small-is_64 n h = ground (arith, h)

exit_code-is_64 : (z : ℤ) → is_64 (exit_code z) ≡ true
unfolding exit_code
exit_code-is_64 z = elim (Bool-cases (low_32 z % 2 ^ 8 == 0)) [
  | inl y ↦ rw (y, exit_code) (small-is_64 (low_32 z / 2 ^ 8 % 2 ^ 8) (omega arith))
  | inr n ↦ rw (n, exit_code) (small-is_64 (low_32 z % 2 ^ 7 + 256) (omega arith))
]

two-Plain :
    (b : Bool) (c : ℕ)
    → is_plain c ≡ true
    → Plain ((if b then b'N' else b'-') ∷ c ∷ [])
      × (length ((if b then b'N' else b'-') ∷ c ∷ []) ≤ 64)
two-Plain true c h = ((refl, (h, tt)), omega arith)
two-Plain false c h = ((refl, (h, tt)), omega arith)

exit_state-Plain : (z : ℤ) → Plain (exit_state z) × (length (exit_state z) ≤ 64)
unfolding exit_state
exit_state-Plain z = elim (Bool-cases (low_32 z % 2 ^ 8 == 0)) [
  | inl y ↦ rw (y, exit_state) (two-Plain (ltb_ℤ z (pos 0)) b'E' refl)
  | inr n ↦ elim (Bool-cases (low_32 z / 2 ^ 7 % 2 == 1)) [
    | inl y ↦ rw (n, y, exit_state) (two-Plain (ltb_ℤ z (pos 0)) b'C' refl)
    | inr k ↦ rw (n, k, exit_state) (two-Plain (ltb_ℤ z (pos 0)) b'S' refl)
  ]
]

cmdline-Plain :
    (env : Env) (ps : Tstat) → Printable ps.gen.cmdline → Plain (clean_task env ps).gen.cmdline
unfolding clean_task
cmdline-Plain env ps h = elim (Bool-cases env.hidecmdline) [
  | inl y ↦ rw (y, clean_task) (refl, (refl, (refl, tt)))
  | inr n ↦ rw (n, clean_task) (replaced-Plain ps.gen.cmdline h)
]

bit-is_64 : (b : Bool) → is_64 (bit b) ≡ true
bit-is_64 true = refl
bit-is_64 false = refl

container-Plain : (s : Bytes) → Plain s → Plain (if length s == 0 then codes "-" else s)
container-Plain [] h = (refl, tt)
container-Plain (c ∷ s) h =
    let some_cell : (length (c ∷ s) == 0) ≡ false = ground arith in rw (some_cell) h

clean_task-FormatFits :
    (env : Env) (ps : Tstat) → IsTask ps → FormatFits prg_format (prg_args (clean_task env ps))
unfolding prg_format prg_args pieces role is_digit clean_task
clean_task-FormatFits env ps t =
    let (
      pid,
      (
        ruid,
        (
          rgid,
          (tgid, (nthr, (btime, (ppid, (nthrrun, (slpi, (slpu, (euid, (egid, (elaps, u)))))))))),
        ),
      ),
    ) =
      t.numbers in
    (
      pid,
      (
        replaced-Plain ps.gen.name t.name,
        (
          t.state,
          (
            ruid,
            (
              rgid,
              (
                tgid,
                (
                  nthr,
                  (
                    exit_state-Plain ps.gen.excode,
                    (
                      exit_code-is_64 ps.gen.excode,
                      (
                        btime,
                        (
                          cmdline-Plain env ps t.cmdline,
                          (
                            ppid,
                            (
                              nthrrun,
                              (
                                slpi,
                                (
                                  slpu,
                                  (
                                    euid,
                                    (
                                      egid,
                                      (
                                        elaps,
                                        (
                                          bit-is_64 ps.gen.isproc,
                                          (container-Plain ps.gen.container t.container, u),
                                        ),
                                      ),
                                    ),
                                  ),
                                ),
                              ),
                            ),
                          ),
                        ),
                      ),
                    ),
                  ),
                ),
              ),
            ),
          ),
        ),
      ),
    )

module _ (env : Env) where
  cleaned-Shown :
      (i : ℕ) (tasks : List Tstat)
      → All IsTask tasks
      → Shown is_main_thread
          (λ i ps. FormatFits prg_format (prg_args ps))
          i
          (map (clean_task env) tasks)
  cleaned-Shown i [] h = tt
  cleaned-Shown i (ps ∷ tasks) h =
      ((λ e. clean_task-FormatFits env ps h.0), cleaned-Shown (suc i) tasks h.1)

  cleaned-skips_all :
      (tasks : List Tstat)
      → skips_all is_main_thread (map (clean_task env) tasks) ≡ skips_all is_main_thread tasks
  unfolding skips_all clean_task
  cleaned-skips_all [] = refl
  cleaned-skips_all (ps ∷ tasks) =
      ap (λ b. if is_main_thread ps then b else false) (cleaned-skips_all tasks)

  cleaned-opens :
      (tasks : List Tstat)
      → opens is_main_thread (map (clean_task env) tasks) ≡ opens is_main_thread tasks
  unfolding opens clean_task
  cleaned-opens [] = refl
  cleaned-opens (ps ∷ tasks) =
      ap (λ b. if is_main_thread ps then b else true) (cleaned-skips_all tasks)

  -- When the numbers of the tasks have 64 bits, their states are plain letters, the names of
  -- their containers are plain, and their names and command lines hold no control characters, but
  -- quotes or backslashes as they like, and the first task is printed or none is: PRG on the
  -- tasks that `jsonout` has cleaned ends without a crash, its texts fit the buffer of a line,
  -- and lead from behind one member of an object to behind another one.
  pub json_print_prg-cleaned :
      (tasks : List Tstat)
      → All IsTask tasks
      → opens is_main_thread tasks ≡ true
      → Keeps (json_print_prg (map (clean_task env) tasks))
  json_print_prg-cleaned tasks h o =
      json_print_prg-Keeps (map (clean_task env) tasks)
        (cleaned-opens tasks ∙ o, cleaned-Shown 0 tasks h)
