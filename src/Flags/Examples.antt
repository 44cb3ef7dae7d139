-- ===== src/Flags/Examples.antt =====
-- Tests of the order of arguments, and its theorem at a concrete input.
use game_forge.Prelude.{◌≡◌, refl, Bool, List, [], ◌∷◌, Text, codes, text_eq}
use game_forge.Flags.{reorder}

-- Only "v" is Boolean.
abbrev only_v : Text → Bool
only_v n = text_eq n (codes "v")

abbrev args : List Text
args =
    codes "run" ∷ codes "--name" ∷ codes "x" ∷ codes "-v" ∷ codes "-" ∷ codes "--" ∷ codes "-z" ∷ []

reorder_mixed :
    reorder only_v args
    ≡ codes "--name"
      ∷ codes "x"
      ∷ codes "-v"
      ∷ codes "--"
      ∷ codes "run"
      ∷ codes "-"
      ∷ codes "-z"
      ∷ []
unfolding reorder
reorder_mixed = refl

-- A last flag without its value ends up in front of a positional argument.
reorder_no_value :
    reorder only_v (codes "run" ∷ codes "--name" ∷ []) ≡ codes "--name" ∷ codes "run" ∷ []
unfolding reorder
reorder_no_value = refl
