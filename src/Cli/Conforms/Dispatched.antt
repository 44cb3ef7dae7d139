-- ===== src/Cli/Conforms/Dispatched.antt =====
-- internal/cli/dispatch.go, dispatch: every call that it makes fits the schema of its operation.
use game_forge.Prelude.{
  ℕ, Bool, false, String, List, [], ◌∷◌, Text, codes, text_eq, is_empty, some, Result, ok, err,
  ◌>>=◌, ◌≡◌, refl, any_by, if_both,
}
use game_forge.Cli.{Values, Parser, call_of, with_output}
use game_forge.Cli.Commands.{
  serve_flags, run_flags, compare_flags, Outcome, plain, cmd_doctor, cmd_ps, cmd_gc, cmd_tick,
  cmd_serve, cmd_project, cmd_scenario, cmd_scenario_run, cmd_scenario_compare,
}
use game_forge.Cli.Pages.{
  pixel_flags, eval_flags, cmd_shot, cmd_sweep, cmd_pixel, cmd_eval, cmd_errors, cmd_gpu,
  cmd_verify, cmd_profile_named,
}
use game_forge.Cli.Dispatch.{
  dispatch, dispatch_command, dispatch_page, dispatch_profile, cmd_profile, profile_commands,
}
use game_forge.Cli.Schemas.{required, op_names, a_duration}
use game_forge.Cli.Conforms.{
  IsUntested, add_untested, ConformsIf, kind_of, IsOf, no_more, made, none_made,
}
use game_forge.Cli.Conforms.Commands.{
  doctor_conforms, serve_conforms, describe_conforms, scenario_conforms, compare_conforms,
}
use game_forge.Cli.Conforms.Pages.{
  eval_conforms, shot_conforms, pixel_conforms, sweep_conforms, errors_conforms, gpu_conforms,
  profile_conforms, verify_conforms,
}

-- A command is over if its flags cannot be parsed.
parsed :
    (r : Result ℕ Values) {f : Values → Outcome}
    → ((v : Values) → ConformsIf (f v))
    → ConformsIf (r >>= f)
parsed (err code) h = none_made
parsed (ok v) h = h v

module _ (parse : Parser) where
  doctor_made : (args : List Text) → ConformsIf (cmd_doctor parse args)
  unfolding cmd_doctor
  doctor_made args = parsed _ doctor_conforms

  ps_made : (args : List Text) → ConformsIf (cmd_ps parse args)
  unfolding cmd_ps plain call_of required op_names
  ps_made args = parsed _ (λ v. made refl no_more refl)

  gc_made : (args : List Text) → ConformsIf (cmd_gc parse args)
  unfolding cmd_gc call_of required op_names kind_of IsOf IsUntested
  gc_made args = parsed _ (λ v. made refl (add_untested a_duration refl tt no_more) refl)

  tick_made : (args : List Text) → ConformsIf (cmd_tick parse args)
  unfolding cmd_tick plain call_of required op_names
  tick_made args = parsed _ (λ v. made refl no_more refl)

  serve_made : (args : List Text) → ConformsIf (cmd_serve parse args)
  unfolding cmd_serve
  serve_made args = parsed (parse "serve" serve_flags args) serve_conforms

  run_made : (args : List Text) → ConformsIf (cmd_scenario_run parse args)
  unfolding cmd_scenario_run
  run_made args = parsed (parse "scenario run" run_flags args) scenario_conforms

  compare_made : (args : List Text) → ConformsIf (cmd_scenario_compare parse args)
  unfolding cmd_scenario_compare
  compare_made args = parsed (parse "scenario compare" compare_flags args) compare_conforms

  shot_made : (args : List Text) → ConformsIf (cmd_shot parse args)
  unfolding cmd_shot
  shot_made args = parsed _ shot_conforms

  pixel_made : (args : List Text) → ConformsIf (cmd_pixel parse args)
  unfolding cmd_pixel
  pixel_made args = parsed (parse "pixel" pixel_flags args) pixel_conforms

  eval_made : (args : List Text) → ConformsIf (cmd_eval parse args)
  unfolding cmd_eval
  eval_made args = parsed (parse "eval" eval_flags args) eval_conforms

  errors_made : (args : List Text) → ConformsIf (cmd_errors parse args)
  unfolding cmd_errors
  errors_made args = parsed _ errors_conforms

  sweep_made : (args : List Text) → ConformsIf (cmd_sweep parse args)
  unfolding cmd_sweep
  sweep_made args = parsed _ sweep_conforms

  gpu_made : (args : List Text) → ConformsIf (cmd_gpu parse args)
  unfolding cmd_gpu
  gpu_made args = parsed _ gpu_conforms

  verify_made : (args : List Text) → ConformsIf (cmd_verify parse args)
  unfolding cmd_verify
  verify_made args = parsed _ (λ v. verify_conforms v v.rest)

  project_conforms : (args : List Text) → ConformsIf (cmd_project parse args)
  unfolding cmd_project plain call_of required op_names
  project_conforms [] = none_made
  project_conforms (a ∷ args) =
      if_both ConformsIf (text_eq a (codes "info"))
        (parsed (parse "project info" (with_output []) args) (λ v. made refl no_more refl))
        none_made

  scenarios_conform : (args : List Text) → ConformsIf (cmd_scenario parse args)
  unfolding cmd_scenario plain call_of required op_names
  scenarios_conform [] = none_made
  scenarios_conform (a ∷ args) =
      let is : String → Bool = λ name. text_eq a (codes name) in
      if_both ConformsIf (is "list")
        (parsed (parse "scenario list" (with_output []) args) (λ v. made refl no_more refl))
        (if_both ConformsIf (is "describe")
          (parsed (parse "scenario describe" (with_output []) args) describe_conforms)
          (if_both ConformsIf (is "run") (run_made args)
            (if_both ConformsIf (is "compare") (compare_made args) none_made)))

  named_conforms :
      (name : Text) (args : List Text)
      → is_empty name ≡ false
      → ConformsIf (cmd_profile_named parse name args)
  unfolding cmd_profile_named
  named_conforms name args h = parsed _ (λ v. profile_conforms v name v.rest h)

  profile_command_conforms : (args : List Text) → ConformsIf (cmd_profile parse args)
  unfolding cmd_profile
  profile_command_conforms [] = none_made
  profile_command_conforms ([] ∷ args) = none_made
  profile_command_conforms ((c ∷ name) ∷ args) = named_conforms (c ∷ name) args refl

  module _ (cmd : Text) (rest : List Text) (named : is_empty cmd ≡ false) where
    abbrev is : String → Bool
    is name = text_eq cmd (codes name)

    profiles_conform : ConformsIf (dispatch_profile parse cmd rest)
    unfolding dispatch_profile
    profiles_conform =
        if_both ConformsIf (any_by (text_eq cmd) profile_commands) (named_conforms cmd rest named) (
          if_both ConformsIf (is "verify") (verify_made rest) (
            if_both ConformsIf (is "profile") (profile_command_conforms rest)
              (named_conforms cmd rest named)))

    pages_conform : ConformsIf (dispatch_page parse cmd rest)
    unfolding dispatch_page
    pages_conform = if_both ConformsIf (is "shot") (shot_made rest) (
        if_both ConformsIf (is "pixel") (pixel_made rest) (
          if_both ConformsIf (is "eval") (eval_made rest) (
            if_both ConformsIf (is "errors") (errors_made rest) (
              if_both ConformsIf (is "sweep") (sweep_made rest)
                (if_both ConformsIf (is "gpu") (gpu_made rest) profiles_conform)))))

    commands_conform : ConformsIf (dispatch_command parse cmd rest)
    unfolding dispatch_command cmd_doctor cmd_ps cmd_gc cmd_tick cmd_serve plain call_of required
        op_names kind_of IsOf
    commands_conform = if_both ConformsIf (is "doctor") (doctor_made rest) (
        if_both ConformsIf (is "ps") (ps_made rest) (
          if_both ConformsIf (is "gc") (gc_made rest) (
            if_both ConformsIf (is "tick") (tick_made rest) (
              if_both ConformsIf (is "serve") (serve_made rest) (
                if_both ConformsIf (is "project") (project_conforms rest)
                  (if_both ConformsIf (is "scenario") (scenarios_conform rest) pages_conform))))))

  -- Whatever the flags are parsed to, a command line whose command is not empty ends with an exit code or makes
  -- a call for which the operation has a schema, every argument is a property of that schema and as the schema
  -- asks for, and the required properties are there. There are three exceptions, which the command line does
  -- not test: the name of a server may be any text, a duration may be below zero, and so may coordinates.
  pub dispatch-ConformsIf :
      (cmd : Text) (rest : List Text)
      → is_empty cmd ≡ false
      → (r : Outcome) × (dispatch parse (cmd ∷ rest) ≡ some r) × ConformsIf r
  unfolding dispatch
  dispatch-ConformsIf cmd rest named = (_, refl, commands_conform cmd rest named)
