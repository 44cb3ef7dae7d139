-- ===== src/Cli/Pages.antt =====
-- internal/cli/dispatch.go: the commands that look at a page of the game, and those that run a profile.
use game_forge.Prelude.{
  true, List, [], ◌∷◌, ◌++◌, Text, codes, text_eq, is_empty, if◌then◌else◌, none, some, ok, err,
  ◌>>=◌, is_nil,
}
use game_forge.Prelude.Int.{ℤ, negsuc}
use game_forge.Cli.{
  Flag, bool_flag, text_flag, int_flag, duration_flag, Values, Parser, exit_usage, text_arg,
  int_arg, points_arg, Args, Call, with_output, call_of, opt_text, opt_count, opt_positive,
  opt_flag, opt_texts, first, parse_points, render_shot, render_sweep, render_pixel, render_eval,
  render_errors, render_gpu, render_profile_summary,
}
use game_forge.Cli.Commands.{Outcome}

abbrev unset : ℤ
unset = negsuc 0

-- `-seed` and `-world`, which several commands have.
unfoldable pub opt_seeds : Values → Args
opt_seeds v = opt_text "seed" (v.text "seed") ++ opt_text "world" (v.text "world")

unfoldable pub shot_call : Values → Call
unfolding first
shot_call v =
    call_of v "visual.shot"
      (("region", text_arg (v.text "region"))
        ∷ (opt_text "case" (first v.rest)
            ++ (opt_count "ticks" (v.int "ticks")
                ++ (opt_seeds v
                    ++ (opt_text "out" (v.text "out")
                        ++ (opt_text "expr" (v.text "expr")
                            ++ (opt_flag "unmuted" (v.flag "unmuted")
                                ++ ("leaseMs", int_arg (v.ms "lease")) ∷ [])))))))
      true render_shot

unfoldable pub cmd_shot : Parser → List Text → Outcome
unfolding shot_call
cmd_shot parse args =
    parse "shot"
      (with_output (
        int_flag "ticks" unset
        ∷ text_flag "seed" ""
        ∷ text_flag "world" ""
        ∷ text_flag "out" ""
        ∷ text_flag "region" "full"
        ∷ text_flag "expr" ""
        ∷ bool_flag "unmuted"
        ∷ duration_flag "lease" 600000
        ∷ []))
      args
    >>= λ v. ok (shot_call v)

unfoldable pub sweep_call : Values → Call
sweep_call v =
    call_of v "visual.sweep"
      (opt_count "ticks" (v.int "ticks") ++ opt_flag "unmuted" (v.flag "unmuted")) true render_sweep

unfoldable pub cmd_sweep : Parser → List Text → Outcome
unfolding sweep_call
cmd_sweep parse args =
    parse "sweep" (with_output (int_flag "ticks" unset ∷ bool_flag "unmuted" ∷ [])) args >>= λ v.
    ok (sweep_call v)

unfoldable pub pixel_args : Values → List (ℤ × ℤ) → Args
pixel_args v points =
    ("points", points_arg points)
    ∷ ("region", text_arg (v.text "region"))
    ∷ (opt_text "case" (v.text "case")
        ++ (opt_count "ticks" (v.int "ticks")
            ++ (opt_seeds v
                ++ (opt_text "image" (v.text "image") ++ opt_text "out" (v.text "out")))))

unfoldable pub pixel_call : Values → Outcome
unfolding pixel_args parse_points
pixel_call v = elim (parse_points v.rest) [
  | none ↦ err exit_usage
  | some points ↦
      if is_nil points
      then err exit_usage
      else ok (call_of v "visual.pixel" (pixel_args v points) true render_pixel)
]

abbrev pub pixel_flags : List Flag
pixel_flags = with_output (
    text_flag "case" ""
    ∷ int_flag "ticks" unset
    ∷ text_flag "seed" ""
    ∷ text_flag "world" ""
    ∷ text_flag "region" "full"
    ∷ text_flag "image" ""
    ∷ text_flag "out" ""
    ∷ [])

unfoldable pub cmd_pixel : Parser → List Text → Outcome
unfolding pixel_call
cmd_pixel parse args = parse "pixel" pixel_flags args >>= pixel_call

unfoldable pub eval_args : Values → Args
eval_args v =
    ("expr", text_arg (v.text "expr"))
    ∷ (opt_text "case" (v.text "case")
        ++ (opt_count "ticks" (v.int "ticks")
            ++ (opt_seeds v
                ++ (opt_text "click" (v.text "click")
                    ++ (opt_text "press" (v.text "press")
                        ++ (opt_flag "reload" (v.flag "reload")
                            ++ (opt_flag "unmuted" (v.flag "unmuted")
                                ++ ("leaseMs", int_arg (v.ms "lease")) ∷ [])))))))

unfoldable pub eval_call : Values → Outcome
unfolding eval_args
eval_call v =
    if is_empty (v.text "expr")
    then err exit_usage
    else ok (call_of v "browser.eval" (eval_args v) true render_eval)

abbrev pub eval_flags : List Flag
eval_flags = with_output (
    text_flag "expr" ""
    ∷ text_flag "case" ""
    ∷ int_flag "ticks" unset
    ∷ text_flag "seed" ""
    ∷ text_flag "world" ""
    ∷ text_flag "click" ""
    ∷ text_flag "press" ""
    ∷ bool_flag "reload"
    ∷ bool_flag "unmuted"
    ∷ duration_flag "lease" 600000
    ∷ [])

unfoldable pub cmd_eval : Parser → List Text → Outcome
unfolding eval_call
cmd_eval parse args = parse "eval" eval_flags args >>= eval_call

unfoldable pub errors_call : Values → Call
errors_call v =
    call_of v "browser.errors"
      (opt_text "case" (v.text "case")
        ++ (opt_count "ticks" (v.int "ticks") ++ opt_flag "unmuted" (v.flag "unmuted")))
      true render_errors

unfoldable pub cmd_errors : Parser → List Text → Outcome
unfolding errors_call
cmd_errors parse args =
    parse "errors"
      (with_output (text_flag "case" "" ∷ int_flag "ticks" unset ∷ bool_flag "unmuted" ∷ [])) args
    >>= λ v. ok (errors_call v)

unfoldable pub gpu_call : Values → Call
gpu_call v =
    call_of v "gpu.run"
      (opt_text "scenario" (v.text "scenario")
        ++ (opt_count "ticks" (v.int "ticks")
            ++ (opt_positive "frames" (v.int "frames") ++ opt_flag "unmuted" (v.flag "unmuted"))))
      true render_gpu

unfoldable pub cmd_gpu : Parser → List Text → Outcome
unfolding gpu_call
cmd_gpu parse args =
    parse "gpu"
      (with_output (
        text_flag "scenario" ""
        ∷ int_flag "ticks" unset
        ∷ int_flag "frames" unset
        ∷ bool_flag "unmuted"
        ∷ []))
      args
    >>= λ v. ok (gpu_call v)

-- `profileCall`, with the output mode of `withOM`.
unfoldable pub profile_call : Values → Text → List Text → Call
profile_call v name extra =
    call_of v "profile.run"
      (("profile", text_arg name)
        ∷ (opt_flag "verbose" (v.flag "verbose")
            ++ (opt_flag "unmuted" (v.flag "unmuted") ++ opt_texts "extra" extra)))
      true render_profile_summary

unfoldable pub verify_call : Values → List Text → Call
unfolding profile_call
verify_call v [] = profile_call v (codes "verify") []
verify_call v (a ∷ extra) =
    if text_eq a (codes "full")
    then profile_call v (codes "verify_full") extra
    else profile_call v (codes "verify") (a ∷ extra)

abbrev profile_flags : List Flag
profile_flags = with_output (bool_flag "verbose" ∷ bool_flag "unmuted" ∷ [])

unfoldable pub cmd_verify : Parser → List Text → Outcome
unfolding verify_call
cmd_verify parse args = parse "verify" profile_flags args >>= λ v. ok (verify_call v v.rest)

-- The name of the flag set is only printed.
unfoldable pub cmd_profile_named : Parser → Text → List Text → Outcome
unfolding profile_call
cmd_profile_named parse name args =
    parse "profile" profile_flags args >>= λ v. ok (profile_call v name v.rest)
