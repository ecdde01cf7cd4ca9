-- ===== src/Examples/Labels.antt =====
-- Labels, tasks and the sending of a sample at concrete inputs.
use atophttpd.Prelude.{
  ◌≡◌, ◌≤◌, ◌*◌, ◌/◌, refl, true, false, [], ◌∷◌, ◌++◌, map, none, some, pos, codes, str_eq, done,
  Returns, arith,
}
use atophttpd.Atop.{minus, einval}
use atophttpd.CString.{is_digit}
use atophttpd.Output.{Output, buf}
use atophttpd.Output.Bounds.{joined, IsBuffer}
use atophttpd.Connection.Socket.{sockets}
use atophttpd.Http.Response.{http_prepare_response}
use atophttpd.Printf.{pieces, role}
use atophttpd.Json.Sample.{Tstat}
use atophttpd.Json.Syntax.{after, run, step, class_of}
use atophttpd.Json.Syntax.Cover.{same}
use atophttpd.Json.Format.{check, bound}
use atophttpd.Json.Lines.{task_lines}
use atophttpd.Json.Lines.Leads.{in_object, Keeps}
use atophttpd.Json.Lines.Arrays.{opens, skips_all}
use atophttpd.Json.Lines.Opening.{IsLabel_lem}
use atophttpd.Json.Lines.Fits.{TakesRows, TasksShown, task_lines-none}
use atophttpd.Json.Print.Cpu.{json_calc_freqscale}
use atophttpd.Json.Print.Scale.{json_calc_freqscale_lem}
use atophttpd.Json.Print.Tasks.{prd_format, prd_args, json_print_prg}
use atophttpd.Json.Out.{
  jsondef, choose, split_from, set_valid, unsupported, labeldef, clean_task, jsonout,
}
use atophttpd.Json.Out.Marks.{labels, Distinct, choice_of, jsondef_lem}
use atophttpd.Json.Out.Commas.{commas}
use atophttpd.Json.WellFormed.Clean.{IsTask, json_print_prg-cleaned}
use atophttpd.Json.WellFormed.Answer.{send_plain, Answered, jsonout-refused}
use atophttpd.Examples.Accepted.{ready, accepted as connected}
use atophttpd.Examples.Files.{atop}
use atophttpd.Examples.Sample.{small_env, small_sstat, small_task}

jsondef_lem_example :
    jsondef
      (commas ((codes "CPU" ∷ codes "PRC" ∷ []) ++ codes "XYZ" ∷ []))
      (labeldef atop small_env)
    ≡ choice_of (codes "CPU" ∷ codes "PRC" ∷ []) (codes "XYZ" ∷ []) (labeldef atop small_env)
unfolding labeldef str_eq commas
jsondef_lem_example =
    jsondef_lem (codes "CPU" ∷ codes "PRC" ∷ []) (codes "XYZ" ∷ []) (labeldef atop small_env)
      distinct
      (
        ((refl, (refl, (refl, tt))), refl),
        (((refl, (refl, (refl, tt))), refl), (((refl, (refl, (refl, tt))), refl), tt)),
      )
      (refl, (refl, tt)) refl refl
  where
    distinct : Distinct (labels (labeldef atop small_env))
    distinct = (
      refl,
      (
        refl,
        (
          refl,
          (
            refl,
            (
              refl,
              (
                refl,
                (
                  refl,
                  (
                    refl,
                    (
                      refl,
                      (
                        refl,
                        (
                          refl,
                          (
                            refl,
                            (
                              refl,
                              (
                                refl,
                                (
                                  refl,
                                  (
                                    refl,
                                    (
                                      refl,
                                      (
                                        refl,
                                        (refl, (refl, (refl, (refl, (refl, (refl, (refl, tt))))))),
                                      ),
                                    ),
                                  ),
                                ),
                              ),
                            ),
                          ),
                        ),
                      ),
                    ),
                  ),
                ),
              ),
            ),
          ),
        ),
      ),
    )

json_calc_freqscale_lem_example :
    (json_calc_freqscale (pos 4000) (pos 9000) (pos 3)
      ≡ done (pos (9000 / 3), pos (100 * (9000 / 3) / 4000)))
    × (100 * (9000 / 3) / 4000 ≤ 100)
json_calc_freqscale_lem_example =
    json_calc_freqscale_lem 4000 9000 3 (omega arith) (omega arith) (omega arith) (omega arith)
      (omega arith)

small_task-IsTask : IsTask small_task
small_task-IsTask = record {
  numbers = (
    refl,
    (
      refl,
      (refl, (refl, (refl, (refl, (refl, (refl, (refl, (refl, (refl, (refl, (refl, tt))))))))))),
    ),
  );
  state = refl;
  name = (refl, (refl, (refl, tt)));
  cmdline = (refl, tt);
  container = (refl, tt);
}

json_print_prg-cleaned_example :
    Keeps (json_print_prg (map (clean_task small_env) (small_task ∷ [])))
unfolding opens
json_print_prg-cleaned_example =
    json_print_prg-cleaned small_env (small_task ∷ []) (small_task-IsTask, tt) refl

-- The thread that stands for a process, and the process.
abbrev main_thread : Tstat
main_thread = record small_task {
  gen = record small_task.gen { tgid = pos 7; pid = pos 7; isproc = false };
}

prd_takes : TakesRows prd_format (λ i x. prd_args x)
unfolding prd_format prd_args check pieces role is_digit bound step class_of
prd_takes i x = (refl, refl)

prd_shown : TasksShown prd_format prd_args (main_thread ∷ small_task ∷ [])
unfolding prd_format prd_args pieces role is_digit
prd_shown = ((λ e. absurd (cc e)), ((λ e. (refl, (refl, (refl, (refl, (refl, (refl, tt))))))), tt))

task_lines-none_example :
    Returns
      (task_lines (codes "PRD") prd_format prd_args (main_thread ∷ small_task ∷ []))
      (λ ts. run (after, in_object) (joined ts) ≡ none)
unfolding opens skips_all
task_lines-none_example =
    task_lines-none (codes "PRD") prd_format prd_args (IsLabel_lem (codes "PRD") refl) prd_takes
      (main_thread ∷ small_task ∷ []) after prd_shown (same after) refl

abbrev pub new_buffer : Output
new_buffer = record { output_type = buf; allocated = false; size = 0; contents = []; written = [] }

pub new_buffer-IsBuffer : IsBuffer new_buffer
new_buffer-IsBuffer = record {
  is_buf = refl;
  fresh = λ h. refl;
  inside = λ h. absurd (cc h);
  enough = λ h. absurd (cc h);
}

jsonout-refused_example :
    Returns
      (jsonout atop small_env
        (some (send_plain sockets ready (λ ob. (true, ob))))
        0
        (codes "XYZ")
        (pos 1700)
        (pos 10)
        []
        small_sstat
        new_buffer
        connected)
      (λ r.
        (r.0 ≡ minus einval)
        × ((IsBuffer r.1 × (r.1.contents ≡ []))
            × Answered sockets connected (λ body. body ≡ unsupported (codes "XYZ")) r.2))
unfolding http_prepare_response jsondef choose split_from set_valid labeldef str_eq
jsonout-refused_example =
    jsonout-refused sockets ready (λ ob. (true, ob)) connected refl refl atop small_env 0
      small_sstat (pos 1700) (pos 10) [] (codes "XYZ") new_buffer new_buffer-IsBuffer refl
      (unsupported (codes "XYZ")) refl
