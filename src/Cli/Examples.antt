-- ===== src/Cli/Examples.antt =====
-- Tests of the command line, and its theorem at a concrete input.
use game_forge.Prelude.{false, ◌==ₛ◌, [], ◌∷◌, codes, none, some, ok, ◌≡◌, refl, if◌then◌else◌}
use game_forge.Prelude.Int.{pos, negsuc}
use game_forge.Contract.{scan_decimal, is_space}
use game_forge.Cli.{Parser, param_map, parse_points}
use game_forge.Cli.Commands.{Outcome}
use game_forge.Cli.Dispatch.{dispatch}
use game_forge.Cli.Conforms.{ConformsIf}
use game_forge.Cli.Conforms.Dispatched.{dispatch-ConformsIf}

param_map_last :
    param_map (codes "a=1" ∷ codes "b=x=y" ∷ codes "a=2" ∷ []) []
    ≡ some ((codes "a", codes "2") ∷ (codes "b", codes "x=y") ∷ [])
unfolding param_map
param_map_last = refl

param_map_no_key : param_map (codes "=1" ∷ []) [] ≡ none
unfolding param_map
param_map_no_key = refl

parse_points_two :
    parse_points (codes "3,4" ∷ codes "0,-1" ∷ []) ≡ some ((pos 3, pos 4) ∷ (pos 0, negsuc 0) ∷ [])
unfolding parse_points scan_decimal is_space
parse_points_two = refl

-- A parser that sets no flag but -ticks and takes every argument for a positional one.
abbrev parser : Parser
parser name fs args = ok (record {
  flag = λ f. false;
  text = λ f. if f ==ₛ "region" then codes "full" else [];
  int = λ f. if f ==ₛ "ticks" then pos 60 else negsuc 0;
  ms = λ f. pos 600000;
  list = λ f. [];
  rest = args;
})

dispatch-ConformsIf_example :
    (r : Outcome) × (dispatch parser (codes "shot" ∷ codes "menu" ∷ []) ≡ some r) × ConformsIf r
dispatch-ConformsIf_example = dispatch-ConformsIf parser (codes "shot") (codes "menu" ∷ []) refl
