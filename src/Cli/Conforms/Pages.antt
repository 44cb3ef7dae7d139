-- ===== src/Cli/Conforms/Pages.antt =====
-- internal/cli/dispatch.go: the calls of the commands that look at a page, and of profiles, fit their schemas.
use game_forge.Prelude.{
  true, false, List, [], ◌∷◌, Text, codes, text_eq, is_empty, if◌then◌else◌, Option, none, some, ok,
  err, ◌≡◌, refl, lookup, is_nil, if_both,
}
use game_forge.Prelude.Int.{ℤ}
use game_forge.Cli.{render_pixel, Values, call_of, exit_usage, parse_points}
use game_forge.Cli.Pages.{
  shot_call, sweep_call, pixel_args, pixel_call, eval_args, eval_call, errors_call, gpu_call,
  profile_call, verify_call,
}
use game_forge.Cli.Schemas.{a_text, some_text, a_duration, points, required, op_names}
use game_forge.Cli.Conforms.{
  IsUntested, add_untested, ConformsIf, kind_of, IsOf, add, add_text, add_count, add_positive,
  add_flag, add_texts, add_seeds, no_more, last, made, none_made, if_some,
}

pub eval_conforms : (v : Values) → ConformsIf (eval_call v)
unfolding eval_call eval_args call_of kind_of IsOf IsUntested op_names required
eval_conforms v = if_some (v.text "expr") (λ e.
    made refl
      (add a_text refl tt (
        add_text _ _ refl (
          add_count _ _ refl (
            add_seeds v refl refl (
              add_text _ _ refl (
                add_text _ _ refl (
                  add_flag _ _ refl
                    (add_flag _ _ refl (add_untested a_duration refl tt no_more)))))))))
      refl)

pub shot_conforms : (v : Values) → ConformsIf (ok (shot_call v))
unfolding shot_call call_of kind_of IsOf IsUntested op_names required
shot_conforms v =
    made refl
      (add a_text refl tt (
        add_text _ _ refl (
          add_count _ _ refl (
            add_seeds v refl refl (
              add_text _ _ refl (
                add_text _ _ refl
                  (add_flag _ _ refl (add_untested a_duration refl tt no_more))))))))
      refl

pub pixel_conforms : (v : Values) → ConformsIf (pixel_call v)
unfolding pixel_call pixel_args call_of kind_of IsOf IsUntested op_names required lookup
pixel_conforms v = with_points (parse_points v.rest)
  where
    with_points :
        (o : Option (List (ℤ × ℤ)))
        → ConformsIf (elim o [
          | none ↦ err exit_usage
          | some ps ↦
              if is_nil ps
              then err exit_usage
              else ok (call_of v "visual.pixel" (pixel_args v ps) true render_pixel)
        ])
    with_points none = none_made
    with_points (some []) = none_made
    with_points (some (p ∷ ps)) =
        made refl
          (add_untested points refl refl (
            add a_text refl tt (
              add_text _ _ refl (
                add_count _ _ refl (
                  add_seeds v refl refl
                    (add_text _ _ refl (last _ (add_text _ _ refl no_more))))))))
          refl

pub sweep_conforms : (v : Values) → ConformsIf (ok (sweep_call v))
unfolding sweep_call call_of kind_of IsOf IsUntested op_names required
sweep_conforms v = made refl (add_count _ _ refl (last _ (add_flag _ _ refl no_more))) refl

pub errors_conforms : (v : Values) → ConformsIf (ok (errors_call v))
unfolding errors_call call_of kind_of IsOf IsUntested op_names required
errors_conforms v =
    made refl (add_text _ _ refl (add_count _ _ refl (last _ (add_flag _ _ refl no_more)))) refl

pub gpu_conforms : (v : Values) → ConformsIf (ok (gpu_call v))
unfolding gpu_call call_of kind_of IsOf IsUntested op_names required
gpu_conforms v =
    made refl
      (add_text _ _ refl
        (add_count _ _ refl (add_positive _ _ refl (last _ (add_flag _ _ refl no_more)))))
      refl

pub profile_conforms :
    (v : Values) (name : Text) (extra : List Text)
    → is_empty name ≡ false
    → ConformsIf (ok (profile_call v name extra))
unfolding profile_call call_of kind_of IsOf IsUntested op_names required lookup
profile_conforms v name extra h =
    made refl
      (add some_text refl h
        (add_flag _ _ refl (add_flag _ _ refl (last _ (add_texts _ _ refl no_more)))))
      refl

pub verify_conforms : (v : Values) (rest : List Text) → ConformsIf (ok (verify_call v rest))
unfolding verify_call
verify_conforms v [] = profile_conforms v (codes "verify") [] refl
verify_conforms v (a ∷ extra) =
    if_both (λ c. ConformsIf (ok c)) (text_eq a (codes "full"))
      (profile_conforms v (codes "verify_full") extra refl)
      (profile_conforms v (codes "verify") (a ∷ extra) refl)
