-- ===== src/Profile/Examples.antt =====
-- Tests of the profile runner, and its theorems at concrete inputs.
use game_forge.Prelude.{
  ℕ, ◌<◌, ◌≡◌, ◌≢◌, refl, true, ◌==ₛ◌, List, [], ◌∷◌, Bool-cases, inl, inr, subst, eq_iff, none,
  some, ok, err, all_by, if◌then◌else◌, arith, All,
}
use game_forge.Project.Samples.{game, smoke_stage, all_stage}
use game_forge.Project.Manifest.{Stage, Manifest, profile}
use game_forge.Profile.{Runners, StageResult, Summary, RunError, run, is_reference}
use game_forge.Profile.Laws.{Falls, run_total}
use game_forge.Profile.Cycle.{GoesOn, run_never_returns}
use game_forge.Profile.Expansion.{Expands, run-Expands}

abbrev passes : Stage → StageResult
passes s = record { name = s.name ∷ []; ok_flag = true; detail = ""; output = "" }

abbrev runners : Runners
runners = record {
  command = λ s. ok (passes s);
  sweep = λ s. err "no browser";
  prod = λ s. err "no browser";
  browser = λ s. err "no browser";
}

abbrev smoke_in_all : StageResult
smoke_in_all = record { name = "all" ∷ "smoke" ∷ []; ok_flag = true; detail = ""; output = "" }

abbrev full : Summary
full = record { profile_name = "full"; stages = smoke_in_all ∷ []; ok_flag = true }

run_full : run 2 runners game "full" ≡ some (some full, none)
unfolding run profile
run_full = refl

run_unknown : run 2 runners game "none" ≡ some (none, some (RunError.unknown_profile "none"))
unfolding run profile
run_unknown = refl

-- The rank of a reference to "quick", which has none itself.
abbrev flat : Stage → ℕ
flat s = if s.uses ==ₛ "quick" then 0 else 1

game-Falls : Falls game flat
unfolding profile is_reference
game-Falls s stages h = elim (Bool-cases ("quick" ==ₛ s.uses)) [
  | inl e ↦
      let q : smoke_stage ∷ [] ≡ stages = ground (arith, rw (e) at h) in
      subst (All (λ t. is_reference t ≡ true → flat t < flat s)) q (λ r. ground arith, tt)
  | inr e ↦ elim (Bool-cases ("full" ==ₛ s.uses)) [
    | inl f ↦
        let q : all_stage ∷ [] ≡ stages = ground (arith, rw (e, f) at h) in
        let u : "full" ≡ s.uses = (eq_iff "full" s.uses).0 f in
        subst (All (λ t. is_reference t ≡ true → flat t < flat s)) q
          (λ r. subst (λ x. 0 < (if x ==ₛ "quick" then 0 else 1)) u (omega arith), tt)
    | inr f ↦ ground (arith, rw (e, f) at h)
  ]
]

run_total_example : run 2 runners game "full" ≢ none
unfolding profile is_reference
run_total_example =
    run_total runners game flat game-Falls 2 "full" (all_stage ∷ []) refl (λ e. omega arith, tt)

run-Expands_example :
    (stages : List Stage) × (profile game "full" ≡ some stages)
    × Expands runners game none stages full.stages
    × (full.ok_flag ≡ all_by (λ (s : StageResult). s.ok_flag) full.stages)
unfolding run profile
run-Expands_example = run-Expands runners game 2 "full" full refl

-- A profile that refers to itself, in a manifest that is valid.
abbrev self_stage : Stage
self_stage = record all_stage { uses = "loop" }

abbrev looping : Manifest
looping = record game { profiles = ("loop", self_stage ∷ []) ∷ [] }

abbrev IsSelf : Stage → Type 0
IsSelf s = s.uses ≡ "loop"

IsSelf-GoesOn : GoesOn looping IsSelf (self_stage ∷ [])
unfolding is_reference
IsSelf-GoesOn = record {
  before = [];
  again = self_stage;
  after = [];
  shape = refl;
  plain = tt;
  refers = refl;
  endless = refl;
}

IsSelf-closed :
    (s : Stage)
    → IsSelf s
    → (stages : List Stage) × (profile looping s.uses ≡ some stages) × GoesOn looping IsSelf stages
unfolding profile
IsSelf-closed s e = (self_stage ∷ [], rw (e) refl, IsSelf-GoesOn)

run_never_returns_example : run 1000 runners looping "loop" ≡ none
unfolding profile
run_never_returns_example =
    run_never_returns runners looping IsSelf IsSelf-closed "loop" (self_stage ∷ []) refl
      IsSelf-GoesOn 1000
