-- ===== src/Cli/Dispatch.antt =====
-- internal/cli/dispatch.go, dispatch: the command of a command line. `none` stands for no argument, at which the
-- source's `args[0]` panics; its caller does not call it then.
use game_forge.Prelude.{
  List, [], ◌∷◌, Text, codes, text_eq, is_empty, if◌then◌else◌, Option, none, some, err, any_by,
}
use game_forge.Cli.{Parser, exit_usage}
use game_forge.Cli.Commands.{
  Outcome, cmd_doctor, cmd_ps, cmd_gc, cmd_tick, cmd_serve, cmd_project, cmd_scenario,
}
use game_forge.Cli.Pages.{
  cmd_shot, cmd_sweep, cmd_pixel, cmd_eval, cmd_errors, cmd_gpu, cmd_verify, cmd_profile_named,
}

-- The profiles that have a command of their own.
abbrev pub profile_commands : List Text
profile_commands =
    codes "test"
    ∷ codes "build"
    ∷ codes "prod"
    ∷ codes "check"
    ∷ codes "selfcheck"
    ∷ codes "policy"
    ∷ []

module _ (parse : Parser) where
  unfoldable pub cmd_profile : List Text → Outcome
  unfolding cmd_profile_named
  cmd_profile [] = err exit_usage
  cmd_profile (name ∷ rest) =
      if is_empty name then err exit_usage else cmd_profile_named parse name rest

  -- The cases behind the tools of the page.
  unfoldable pub dispatch_profile : Text → List Text → Outcome
  unfolding cmd_profile cmd_verify cmd_profile_named
  dispatch_profile cmd rest =
      if any_by (text_eq cmd) profile_commands
      then cmd_profile_named parse cmd rest
      else if text_eq cmd (codes "verify")
      then cmd_verify parse rest
      else if text_eq cmd (codes "profile")
      then cmd_profile rest
      else cmd_profile_named parse cmd rest

  unfoldable pub dispatch_page : Text → List Text → Outcome
  unfolding dispatch_profile cmd_shot cmd_pixel cmd_eval cmd_errors cmd_sweep cmd_gpu
  dispatch_page cmd rest =
      if text_eq cmd (codes "shot")
      then cmd_shot parse rest
      else if text_eq cmd (codes "pixel")
      then cmd_pixel parse rest
      else if text_eq cmd (codes "eval")
      then cmd_eval parse rest
      else if text_eq cmd (codes "errors")
      then cmd_errors parse rest
      else if text_eq cmd (codes "sweep")
      then cmd_sweep parse rest
      else if text_eq cmd (codes "gpu")
      then cmd_gpu parse rest
      else dispatch_profile cmd rest

  unfoldable pub dispatch_command : Text → List Text → Outcome
  unfolding dispatch_page cmd_doctor cmd_ps cmd_gc cmd_tick cmd_serve cmd_project cmd_scenario
  dispatch_command cmd rest =
      if text_eq cmd (codes "doctor")
      then cmd_doctor parse rest
      else if text_eq cmd (codes "ps")
      then cmd_ps parse rest
      else if text_eq cmd (codes "gc")
      then cmd_gc parse rest
      else if text_eq cmd (codes "tick")
      then cmd_tick parse rest
      else if text_eq cmd (codes "serve")
      then cmd_serve parse rest
      else if text_eq cmd (codes "project")
      then cmd_project parse rest
      else if text_eq cmd (codes "scenario")
      then cmd_scenario parse rest
      else dispatch_page cmd rest

  unfoldable pub dispatch : List Text → Option Outcome
  unfolding dispatch_command
  dispatch [] = none
  dispatch (cmd ∷ rest) = some (dispatch_command cmd rest)
