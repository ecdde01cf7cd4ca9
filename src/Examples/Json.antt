-- ===== src/Examples/Json.antt =====
-- The JSON output at concrete inputs.
use atophttpd.Prelude.{
  ℕ, ◌≡◌, ◌≤◌, ◌^◌, ◌-◌, length, refl, true, false, List, [], ◌∷◌, map, pos, codes, Returns, arith,
  some, str_eq,
}
use atophttpd.Output.Bounds.{IsBuffer}
use atophttpd.Connection.Socket.{sockets}
use atophttpd.Http.Response.{http_prepare_response}
use atophttpd.Json.Out.{jsonout, print_valid}
use atophttpd.Json.WellFormed.Answer.{send_plain, Answered, jsonout-Answered}
use atophttpd.Examples.Accepted.{ready, accepted as connected}
use atophttpd.Examples.Labels.{new_buffer, new_buffer-IsBuffer}
use atophttpd.Examples.Files.{atop}
use atophttpd.Examples.Sample.{quarter, small_env, small_sstat, small_task}
use atophttpd.Output.Bounds.{joined}
use atophttpd.Json.Syntax.{fraction, IsJson, run, step, class_of}
use atophttpd.Json.Syntax.Cover.{decimals}
use atophttpd.Json.Format.{IsFixed}
use atophttpd.CString.{is_digit, print_int, print_digits}
use atophttpd.Printf.{pieces, role, snprintf, printf, filled, render, convert}
use atophttpd.Json.Lines.{object_line, first_cells, quot, times}
use atophttpd.Json.Lines.Arrays.{opens}
use atophttpd.Json.Print.Cpu.{cpl_format, cpl_args, json_print_cpl}
use atophttpd.Json.Print.Devices.{gpu_format, gpu_args}
use atophttpd.Json.Print.Tasks.{prc_format, prc_args}
use atophttpd.Json.WellFormed.Cpu.{CplFits}
use atophttpd.Json.WellFormed.Devices.{GpuFits}
use atophttpd.Json.WellFormed.Tasks.{PrcFits}
use atophttpd.Json.Out.{
  Labeldef, Prifunc, accepted, refused, jsondef, choose, split_from, set_valid, labeldef,
  sample_texts, clean_task, general_format,
}
use atophttpd.Json.WellFormed.Whole.{GeneralFits, ValidFit, sample_texts-IsJson}

quarter-IsFixed : (n : ℕ) → IsFixed (quarter n)
unfolding run step class_of
quarter-IsFixed n = record {
  number = λ fs. (fraction, refl, decimals);
  plain_text = (refl, (refl, (refl, (refl, tt))));
  short = omega arith;
}

abbrev wanted : List (Labeldef Prifunc)
unfolding jsondef choose split_from set_valid labeldef str_eq
wanted = elim (jsondef (codes "CPL,GPU,PRC") (labeldef atop small_env)) [
  | accepted ds ↦ ds
  | refused err ↦ []
]

general : GeneralFits small_env (pos 1700) (pos 10)
unfolding general_format pieces role is_digit
general = (((refl, (refl, (refl, (refl, tt)))), omega arith), (refl, (refl, tt)))

unwanted : {A : Type 0} → false ≡ true → A
unwanted e = absurd (cc e)

pub cpl : CplFits small_sstat
unfolding cpl_format cpl_args pieces role is_digit
cpl = (
  ((refl, (refl, (refl, tt))), omega arith),
  (quarter-IsFixed, (quarter-IsFixed, (quarter-IsFixed, (refl, (refl, tt))))),
)

gpu : GpuFits small_sstat
unfolding gpu_format gpu_args pieces role is_digit first_cells
gpu = (
  (λ e. (
    refl,
    ((refl, tt), ((refl, tt), (refl, (refl, (refl, (refl, (refl, (refl, (refl, (refl, tt)))))))))),
  )),
  (
    (λ e. (
      refl,
      (
        (refl, tt),
        ((refl, tt), (refl, (refl, (refl, (refl, (refl, (refl, (refl, (refl, tt))))))))),
      ),
    )),
    tt,
  ),
)

prc : PrcFits small_env (map (clean_task small_env) (small_task ∷ []))
unfolding prc_format prc_args pieces role is_digit opens clean_task quot times
prc = (
  refl,
  (
    (λ e.
        (refl, (refl, (refl, (refl, (refl, (refl, (refl, (refl, (refl, (refl, (refl, tt)))))))))))),
    tt,
  ),
)

valid : ValidFit atop small_env 0 small_sstat (map (clean_task small_env) (small_task ∷ [])) wanted
unfolding jsondef choose split_from set_valid labeldef str_eq
valid = (
  unwanted,
  (
    unwanted,
    (
      (λ e. cpl),
      (
        (λ e. gpu),
        (
          unwanted,
          (
            unwanted,
            (
              unwanted,
              (
                unwanted,
                (
                  unwanted,
                  (
                    unwanted,
                    (
                      unwanted,
                      (
                        unwanted,
                        (
                          unwanted,
                          (
                            unwanted,
                            (
                              unwanted,
                              (
                                unwanted,
                                (
                                  unwanted,
                                  (
                                    unwanted,
                                    (
                                      unwanted,
                                      (
                                        unwanted,
                                        (
                                          (λ e. prc),
                                          (unwanted, (unwanted, (unwanted, (unwanted, tt)))),
                                        ),
                                      ),
                                    ),
                                  ),
                                ),
                              ),
                            ),
                          ),
                        ),
                      ),
                    ),
                  ),
                ),
              ),
            ),
          ),
        ),
      ),
    ),
  ),
)

sample_texts-IsJson_example :
    Returns
      (sample_texts small_env 0 (pos 1700) (pos 10) (small_task ∷ []) small_sstat wanted)
      (λ ts. IsJson (joined ts))
unfolding jsondef choose split_from set_valid labeldef str_eq
sample_texts-IsJson_example =
    sample_texts-IsJson atop small_env 0 small_sstat (pos 1700) (pos 10) (small_task ∷ [])
      (codes "CPL,GPU,PRC") wanted refl general valid

-- One object.
abbrev load : List (Labeldef Prifunc)
unfolding jsondef choose split_from set_valid labeldef str_eq
load = elim (jsondef (codes "CPL") (labeldef atop small_env)) [
  | accepted ds ↦ ds
  | refused err ↦ []
]

load_valid : ValidFit atop small_env 0 small_sstat [] load
unfolding jsondef choose split_from set_valid labeldef str_eq
load_valid = (
  unwanted,
  (
    unwanted,
    (
      (λ e. cpl),
      (
        unwanted,
        (
          unwanted,
          (
            unwanted,
            (
              unwanted,
              (
                unwanted,
                (
                  unwanted,
                  (
                    unwanted,
                    (
                      unwanted,
                      (
                        unwanted,
                        (
                          unwanted,
                          (
                            unwanted,
                            (
                              unwanted,
                              (
                                unwanted,
                                (
                                  unwanted,
                                  (
                                    unwanted,
                                    (
                                      unwanted,
                                      (
                                        unwanted,
                                        (
                                          unwanted,
                                          (unwanted, (unwanted, (unwanted, (unwanted, tt)))),
                                        ),
                                      ),
                                    ),
                                  ),
                                ),
                              ),
                            ),
                          ),
                        ),
                      ),
                    ),
                  ),
                ),
              ),
            ),
          ),
        ),
      ),
    ),
  ),
)

load_total :
    Returns
      (sample_texts small_env 0 (pos 1700) (pos 10) [] small_sstat load)
      (λ ts. length (joined ts) ≤ 2 ^ 30 - 1)
unfolding jsondef choose split_from set_valid labeldef str_eq sample_texts print_valid
    json_print_cpl object_line general_format cpl_format cpl_args snprintf printf filled render
    convert pieces role is_digit print_int print_digits
load_total = omega arith

jsonout-Answered_example :
    Returns
      (jsonout atop small_env
        (some (send_plain sockets ready (λ ob. (true, ob))))
        0
        (codes "CPL")
        (pos 1700)
        (pos 10)
        []
        small_sstat
        new_buffer
        connected)
      (λ r.
        (r.0 ≡ pos 0)
        × ((IsBuffer r.1 × (r.1.contents ≡ [])) × Answered sockets connected IsJson r.2))
unfolding http_prepare_response jsondef choose split_from set_valid labeldef str_eq
jsonout-Answered_example =
    jsonout-Answered sockets ready (λ ob. (true, ob)) connected refl refl atop small_env 0
      small_sstat (pos 1700) (pos 10) [] (codes "CPL") new_buffer new_buffer-IsBuffer refl load refl
      general load_valid load_total
