-- ===== src/Project/Manifest/Examples.antt =====
-- Tests of the manifest, and its theorems at concrete inputs.
use game_forge.Contract.{parse}
use game_forge.Prelude.{◌≡◌, ◌↔◌, refl, [], ◌∷◌, none, some, ok, err}
use game_forge.Project.Samples.{game, smoke_stage, files, home}
use game_forge.Project.Manifest.{Stage, validate, discover, no_manifest, bad_stage, not_one_mode}
use game_forge.Project.Manifest.Laws.{IsManifest}
use game_forge.Project.Manifest.Validity.{validate_iff}

validate-game : validate game ≡ none
unfolding validate parse
validate-game = refl

-- A stage with no mode.
abbrev idle : Stage
idle = record smoke_stage { command = [] }

validate_idle :
    validate (record game { profiles = ("quick", smoke_stage ∷ idle ∷ []) ∷ [] })
    ≡ some (bad_stage "quick" 1 not_one_mode)
unfolding validate parse
validate_idle = refl

discover_below : discover files ("src" ∷ home) ≡ ok home
unfolding discover
discover_below = refl

discover_outside : discover files ("home" ∷ []) ≡ err no_manifest
unfolding discover
discover_outside = refl

validate_iff_example : (validate game ≡ none) ↔ IsManifest game
validate_iff_example = validate_iff game
