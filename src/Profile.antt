-- ===== src/Profile.antt =====
-- Package internal/profile: the runner of profile.go. What a single stage does (a process, a browser, a
-- server) lies behind `run_stage`, an argument: it gives the outcome of every stage that has a mode.
-- `runNested` calls itself with no bound, so it takes fuel; `none` is a run that has not come back.
pub mod Laws
pub mod Cycle
pub mod Expansion
mod Examples
use game_forge.Prelude.{
  ℕ, zero, suc, ◌+◌, Bool, true, false, ◌&&◌, String, List, [], ◌∷◌, ◌++◌, Option, none, some,
  Result, ok, err, ltb, not, ◌==ₛ◌, if◌then◌else◌, all_by,
}
use game_forge.Project.Manifest.{Stage, Manifest, is_nil, profile}

-- The name of a result is the path of stage names behind it, outermost first.
pub record StageResult : Type 0 where
  pub name : List String
  pub ok_flag : Bool
  pub detail : String
  pub output : String

pub data RunError : Type 0 where
  unknown_profile : String → RunError
  depth_exceeded : RunError

pub record Summary : Type 0 where
  pub profile_name : String
  pub stages : List StageResult
  pub ok_flag : Bool

-- The four runners of one stage, each of which ends in a result or in an error text.
pub record Runners : Type 0 where
  pub command : Stage → Result String StageResult
  pub sweep : Stage → Result String StageResult
  pub prod : Stage → Result String StageResult
  pub browser : Stage → Result String StageResult

-- The `switch` of runStage.
run_stage : Runners → Stage → Result String StageResult
run_stage r s =
    if not (is_nil s.command)
    then r.command s
    else if s.sweep
    then r.sweep s
    else if s.prod
    then r.prod s
    else if s.browser
    then r.browser s
    else err "no runnable mode"

-- An error of the stage is a failed result.
settled : Stage → Result String StageResult → StageResult
settled s (ok res) = res
settled s (err e) = record { name = s.name ∷ []; ok_flag = false; detail = e; output = "" }

pub stage_result : Runners → Stage → StageResult
unfolding run_stage settled
stage_result r s = settled s (run_stage r s)

pub under : String → StageResult → StageResult
under outer res = record res { name = outer ∷ res.name }

pub is_reference : Stage → Bool
is_reference s = not (s.uses ==ₛ "")

abbrev pub Outcome : Type 0 → Type 0
Outcome A = Option (Result RunError A)

-- `more` is put behind what a nested run gave.
joined : Outcome (List StageResult) → Outcome (List StageResult) → Outcome (List StageResult)
joined none more = none
joined (some (err e)) more = some (err e)
joined (some (ok sub)) none = none
joined (some (ok sub)) (some (err e)) = some (err e)
joined (some (ok sub)) (some (ok rest)) = some (ok (sub ++ rest))

-- The loop of runNested over the stages of the profile that `outer` refers to; `nested` is the call of
-- runNested for a stage that refers to a profile in turn.
nested_stages :
    (Stage → Outcome (List StageResult)) → Runners → Stage → List Stage → Outcome (List StageResult)
unfolding is_reference joined under stage_result
nested_stages nested r outer [] = some (ok [])
nested_stages nested r outer (s ∷ rest) =
    let later = nested_stages nested r outer rest in
    if is_reference s
    then joined (nested s) later
    else joined (some (ok (under outer.name (stage_result r s) ∷ []))) later

-- runNested
pub run_nested : ℕ → Runners → Manifest → Stage → Outcome (List StageResult)
unfolding nested_stages
run_nested zero r m stage = none
run_nested (suc fuel) r m stage = elim (profile m stage.uses) [
  | none ↦ some (err (unknown_profile stage.uses))
  | some stages ↦ nested_stages (run_nested fuel r m) r stage stages
]

max_depth : ℕ
max_depth = 8

-- The loop of runStages; results that were appended before an error are kept.
top_stages :
    ℕ
    → Runners
    → Manifest
    → List StageResult
    → List Stage
    → Option (List StageResult × Option RunError)
unfolding is_reference run_nested stage_result
top_stages fuel r m done [] = some (done, none)
top_stages fuel r m done (s ∷ rest) =
    let plain = top_stages fuel r m (done ++ stage_result r s ∷ []) rest in
    if is_reference s
    then elim (run_nested fuel r m s) [
      | none ↦ none
      | some (err e) ↦ some (done, some e)
      | some (ok sub) ↦ top_stages fuel r m (done ++ sub) rest
    ]
    else plain

run_stages : ℕ → Runners → Manifest → List Stage → ℕ → Option (List StageResult × Option RunError)
unfolding top_stages max_depth
run_stages fuel r m stages depth =
    if ltb max_depth depth then some ([], some depth_exceeded) else top_stages fuel r m [] stages

-- The verdict is taken from the stages only when the run ended without an error.
summary : String → List StageResult × Option RunError → Summary × Option RunError
summary name (done, some e) =
    (record { profile_name = name; stages = done; ok_flag = true }, some e)
summary name (done, none) = (
  record {
    profile_name = name;
    stages = done;
    ok_flag = all_by (λ (s : StageResult). s.ok_flag) done;
  },
  none,
)

-- `Run` returns no summary for a profile that is not declared.
unfoldable pub run : ℕ → Runners → Manifest → String → Option (Option Summary × Option RunError)
unfolding run_stages summary
run fuel r m name = elim (profile m name) [
  | none ↦ some (none, some (unknown_profile name))
  | some stages ↦ elim (run_stages fuel r m stages 0) [
    | none ↦ none
    | some out ↦ some (some (summary name out).0, (summary name out).1)
  ]
]
