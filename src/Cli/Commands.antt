-- ===== src/Cli/Commands.antt =====
-- internal/cli/dispatch.go: the commands. Each declares its flags, parses, and makes its call or ends with the exit
-- code of a usage error; what it prints then is left out.
use game_forge.Prelude.{
  ℕ, true, false, String, List, [], ◌∷◌, ◌++◌, Text, codes, text_eq, is_empty, if◌then◌else◌, none,
  some, Result, ok, err, ◌>>=◌,
}
use game_forge.Prelude.Int.{ℤ, negsuc}
use game_forge.Cli.{
  Flag, bool_flag, text_flag, int_flag, duration_flag, list_flag, Values, Parser, Renderer,
  exit_usage, text_arg, int_arg, bool_arg, Args, Call, with_output, call_of, opt_text, opt_count,
  opt_flag, opt_texts, opt_params, first, param_map, render_doctor, render_resource_list,
  render_reclaim, render_server_start, render_server_state, render_project_info,
  render_scenario_list, render_json, render_scenario_run, render_scenario_compare,
}

abbrev minutes : ℕ
minutes = 60000

abbrev unset : ℤ
unset = negsuc 0

abbrev pub Outcome : Type 0
Outcome = Result ℕ Call

unfoldable pub doctor_call : Values → Call
doctor_call v =
    call_of v "doctor.run"
      (opt_flag "noCleanup" (v.flag "no-cleanup")
        ++ (opt_flag "unmuted" (v.flag "unmuted")
            ++ ("leaseMs", int_arg (v.ms "lease")) ∷ ("timeoutMs", int_arg (v.ms "timeout")) ∷ []))
      true render_doctor

unfoldable pub cmd_doctor : Parser → List Text → Outcome
unfolding doctor_call
cmd_doctor parse args =
    parse "doctor"
      (with_output (
        bool_flag "no-cleanup"
        ∷ duration_flag "lease" 300000
        ∷ duration_flag "timeout" 90000
        ∷ bool_flag "unmuted"
        ∷ []))
      args
    >>= λ v. ok (doctor_call v)

-- ps, tick, project info, scenario list: a call without arguments.
unfoldable pub plain : Parser → String → String → Renderer → List Text → Outcome
plain parse name op render args =
    parse name (with_output []) args >>= λ v. ok (call_of v op [] false render)

unfoldable pub cmd_ps : Parser → List Text → Outcome
unfolding plain
cmd_ps parse args = plain parse "ps" "resource.list" render_resource_list args

unfoldable pub cmd_gc : Parser → List Text → Outcome
cmd_gc parse args = parse "gc" (with_output (duration_flag "timeout" minutes ∷ [])) args >>= λ v.
    ok (call_of v "resource.gc" (("timeoutMs", int_arg (v.ms "timeout")) ∷ []) true render_reclaim)

unfoldable pub cmd_tick : Parser → List Text → Outcome
unfolding plain
cmd_tick parse args = plain parse "tick" "resource.tick" render_reclaim args

-- The action of serve, with its default.
unfoldable pub action_of : List Text → Text
action_of [] = codes "start"
action_of (a ∷ rest) = a

unfoldable pub serve_call : Values → Outcome
unfolding action_of
serve_call v =
    let action = action_of v.rest in
    let server = ("server", text_arg (v.text "server")) ∷ [] in
    if text_eq action (codes "start")
    then ok (
        call_of v "server.start" (server ++ ("leaseMs", int_arg (v.ms "lease")) ∷ []) true
          render_server_start)
    else if text_eq action (codes "stop")
    then ok (call_of v "server.stop" server true render_server_state)
    else if text_eq action (codes "status")
    then ok (call_of v "server.status" server false render_server_state)
    else err exit_usage

abbrev pub serve_flags : List Flag
serve_flags = with_output (text_flag "server" "dev" ∷ duration_flag "lease" 1800000 ∷ [])

unfoldable pub cmd_serve : Parser → List Text → Outcome
unfolding serve_call
cmd_serve parse args = parse "serve" serve_flags args >>= serve_call

unfoldable pub cmd_project : Parser → List Text → Outcome
unfolding plain
cmd_project parse [] = err exit_usage
cmd_project parse (a ∷ args) =
    if text_eq a (codes "info")
    then plain parse "project info" "project.info" render_project_info args
    else err exit_usage

unfoldable pub describe_call : Values → Outcome
unfolding first
describe_call v =
    let id = first v.rest in
    if is_empty id
    then err exit_usage
    else ok (call_of v "scenario.describe" (("id", text_arg id) ∷ []) false render_json)

unfoldable pub scenario_args : Values → Text → List (Text × Text) → Args
scenario_args v id pm =
    ("id", text_arg id)
    ∷ (opt_text "seed" (v.text "seed")
        ++ (opt_text "world" (v.text "world")
            ++ (opt_count "ticks" (v.int "ticks")
                ++ (opt_flag "browser" (v.flag "browser")
                    ++ (opt_flag "unmuted" (v.flag "unmuted") ++ opt_params pm)))))

unfoldable pub scenario_call : Values → Outcome
unfolding scenario_args first param_map
scenario_call v =
    let id = first v.rest in
    if is_empty id then err exit_usage else elim (param_map (v.list "param") []) [
      | none ↦ err exit_usage
      | some pm ↦ ok (call_of v "scenario.run" (scenario_args v id pm) true render_scenario_run)
    ]

abbrev pub run_flags : List Flag
run_flags = with_output (
    text_flag "seed" ""
    ∷ text_flag "world" ""
    ∷ int_flag "ticks" unset
    ∷ bool_flag "browser"
    ∷ bool_flag "unmuted"
    ∷ list_flag "param"
    ∷ [])

unfoldable pub cmd_scenario_run : Parser → List Text → Outcome
unfolding scenario_call
cmd_scenario_run parse args = parse "scenario run" run_flags args >>= scenario_call

unfoldable pub compare_args : Values → List (Text × Text) → Args
compare_args v pm =
    ("all", bool_arg (v.flag "all"))
    ∷ (opt_texts "ids" v.rest
        ++ (opt_text "seed" (v.text "seed")
            ++ (opt_text "world" (v.text "world")
                ++ (opt_count "ticks" (v.int "ticks")
                    ++ (opt_flag "unmuted" (v.flag "unmuted") ++ opt_params pm)))))

unfoldable pub compare_call : Values → Outcome
unfolding compare_args param_map
compare_call v = elim (param_map (v.list "param") []) [
  | none ↦ err exit_usage
  | some pm ↦ ok (call_of v "scenario.compare" (compare_args v pm) true render_scenario_compare)
]

abbrev pub compare_flags : List Flag
compare_flags = with_output (
    text_flag "seed" ""
    ∷ text_flag "world" ""
    ∷ int_flag "ticks" unset
    ∷ bool_flag "all"
    ∷ bool_flag "unmuted"
    ∷ list_flag "param"
    ∷ [])

unfoldable pub cmd_scenario_compare : Parser → List Text → Outcome
unfolding compare_call
cmd_scenario_compare parse args = parse "scenario compare" compare_flags args >>= compare_call

unfoldable pub cmd_scenario : Parser → List Text → Outcome
unfolding plain describe_call cmd_scenario_run cmd_scenario_compare
cmd_scenario parse [] = err exit_usage
cmd_scenario parse (a ∷ args) =
    if text_eq a (codes "list")
    then plain parse "scenario list" "scenario.list" render_scenario_list args
    else if text_eq a (codes "describe")
    then parse "scenario describe" (with_output []) args >>= describe_call
    else if text_eq a (codes "run")
    then cmd_scenario_run parse args
    else if text_eq a (codes "compare")
    then cmd_scenario_compare parse args
    else err exit_usage
