-- ===== src/Cli/Conforms/Commands.antt =====
-- internal/cli/dispatch.go: the calls of doctor, serve and scenario fit their schemas.
use game_forge.Prelude.{
  Bool, String, [], codes, text_eq, is_empty, ok, refl, lookup, Option-cases, if_both, inl, inr,
}
use game_forge.Cli.{Values, call_of, first, param_map}
use game_forge.Cli.Commands.{
  action_of, doctor_call, serve_call, describe_call, scenario_call, scenario_args, compare_call,
  compare_args,
}
use game_forge.Cli.Schemas.{a_server, some_text, a_duration, a_bool, required, op_names}
use game_forge.Cli.Conforms.{
  IsUntested, add_untested, ConformsIf, kind_of, IsOf, add, add_text, add_count, add_flag,
  add_texts, no_more, only_params, made, none_made, if_some, with_params,
}

pub doctor_conforms : (v : Values) → ConformsIf (ok (doctor_call v))
unfolding doctor_call call_of kind_of IsOf IsUntested op_names required
doctor_conforms v =
    made refl
      (add_flag _ _ refl (
        add_flag _ _ refl
          (add_untested a_duration refl tt (add_untested a_duration refl tt no_more))))
      refl

pub serve_conforms : (v : Values) → ConformsIf (serve_call v)
unfolding serve_call call_of kind_of IsOf IsUntested op_names required
serve_conforms v =
    let is : String → Bool = λ name. text_eq (action_of v.rest) (codes name) in
    if_both ConformsIf (is "start")
      (made refl (add_untested a_server refl tt (add_untested a_duration refl tt no_more)) refl)
      (if_both ConformsIf (is "stop") (made refl (add_untested a_server refl tt no_more) refl) (
        if_both ConformsIf (is "status") (made refl (add_untested a_server refl tt no_more) refl)
          none_made))

pub describe_conforms : (v : Values) → ConformsIf (describe_call v)
unfolding describe_call call_of kind_of IsOf IsUntested op_names required lookup
describe_conforms v = if_some (first v.rest) (λ e. made refl (add some_text refl e no_more) refl)

pub scenario_conforms : (v : Values) → ConformsIf (scenario_call v)
unfolding scenario_call scenario_args call_of kind_of IsOf IsUntested op_names required lookup
scenario_conforms v = elim (Option-cases (param_map (v.list "param") [])) [
  | inl e ↦ rw e (if_both ConformsIf (is_empty (first v.rest)) none_made none_made)
  | inr (pm, e) ↦ rw e (
      if_some (first v.rest) (λ i.
        made refl
          (add some_text refl i (
            add_text _ _ refl (
              add_text _ _ refl (
                add_count _ _ refl (add_flag _ _ refl (add_flag _ _ refl (only_params pm refl)))))))
          refl))
]

pub compare_conforms : (v : Values) → ConformsIf (compare_call v)
unfolding compare_call compare_args call_of kind_of IsOf IsUntested op_names required
compare_conforms v = with_params (param_map (v.list "param") []) (λ pm.
    made refl
      (add a_bool refl tt (
        add_texts _ _ refl (
          add_text _ _ refl
            (add_text _ _ refl (add_count _ _ refl (add_flag _ _ refl (only_params pm refl)))))))
      refl)
