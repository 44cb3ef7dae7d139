-- ===== src/Project/Manifest/Laws.antt =====
-- Which manifests `validate` accepts.
use game_forge.Contract.{parse}
use game_forge.Prelude.Int.{pos}
use game_forge.Prelude.{
  ◌≡◌, Bool, true, false, not, ◌==ₛ◌, List, none, ok, arith, All, String, is_empty,
}
use game_forge.Project.Manifest.{
  Stage, Manifest, Adapter, validate_stage, lookup, has, is_nil, modes,
}

-- The five ways to run a stage.
pub data Mode : Type 0 where
  runs_profile runs_command runs_browser runs_prod runs_sweep : Mode

abbrev has_mode : Stage → Mode → Bool
has_mode s runs_profile = not (s.uses ==ₛ "")
has_mode s runs_command = not (is_nil s.command)
has_mode s runs_browser = s.browser
has_mode s runs_prod = s.prod
has_mode s runs_sweep = s.sweep

-- A stage that can be run: it has a name and exactly one mode, a profile that it refers to is declared,
-- and a browser or production stage has something to evaluate.
pub record IsStage (m : Manifest) (s : Stage) : Type 0 where
  pub named : (s.name ==ₛ "") ≡ false
  pub mode : Mode
  pub set : has_mode s mode ≡ true
  pub only : (k : Mode) → has_mode s k ≡ true → k ≡ mode
  pub declared : has_mode s runs_profile ≡ true → has (lookup s.uses m.profiles) ≡ true
  pub checked_browser : s.browser ≡ true → (s.eval ==ₛ "") ≡ false
  pub checked_prod : s.prod ≡ true → (s.eval ==ₛ "") ≡ false

first_mode : Bool → Bool → Bool → Bool → Mode
first_mode true _ _ _ = runs_profile
first_mode false true _ _ = runs_command
first_mode false false true _ = runs_browser
first_mode false false false true = runs_prod
first_mode false false false false = runs_sweep

abbrev mode_of : Stage → Mode
mode_of s = first_mode (not (s.uses ==ₛ "")) (not (is_nil s.command)) s.browser s.prod

set_of_modes : (s : Stage) → modes s ≡ 1 → has_mode s (mode_of s) ≡ true
unfolding modes first_mode
set_of_modes s h = ground arith

only_of_modes : (s : Stage) → modes s ≡ 1 → (k : Mode) → has_mode s k ≡ true → k ≡ mode_of s
unfolding modes first_mode
only_of_modes s h runs_profile e = ground arith
only_of_modes s h runs_command e = ground arith
only_of_modes s h runs_browser e = ground arith
only_of_modes s h runs_prod e = ground arith
only_of_modes s h runs_sweep e = ground arith

modes_of_only :
    (s : Stage) (mode : Mode)
    → has_mode s mode ≡ true
    → ((k : Mode) → has_mode s k ≡ true → k ≡ mode)
    → modes s ≡ 1
unfolding modes
modes_of_only s runs_profile h only =
    ground (arith, only runs_command, only runs_browser, only runs_prod, only runs_sweep)
modes_of_only s runs_command h only =
    ground (arith, only runs_profile, only runs_browser, only runs_prod, only runs_sweep)
modes_of_only s runs_browser h only =
    ground (arith, only runs_command, only runs_profile, only runs_prod, only runs_sweep)
modes_of_only s runs_prod h only =
    ground (arith, only runs_command, only runs_browser, only runs_profile, only runs_sweep)
modes_of_only s runs_sweep h only =
    ground (arith, only runs_command, only runs_browser, only runs_prod, only runs_profile)

pub validate_stage-IsStage : (m : Manifest) (s : Stage) → validate_stage m s ≡ none → IsStage m s
unfolding validate_stage
validate_stage-IsStage m s h =
    let count : modes s ≡ 1 = ground arith in
    record {
      named = ground arith;
      mode = mode_of s;
      set = set_of_modes s count;
      only = only_of_modes s count;
      declared = λ e. ground arith;
      checked_browser =
          λ e. ground (arith, only_of_modes s count runs_browser, only_of_modes s count runs_sweep);
      checked_prod = λ e. ground arith;
    }

pub validate_stage_of_IsStage : (m : Manifest) (s : Stage) → IsStage m s → validate_stage m s ≡ none
unfolding validate_stage
validate_stage_of_IsStage m s h =
    ground
      (arith, modes_of_only s h.mode h.set h.only, h.declared, h.checked_browser, h.checked_prod)

-- A declared adapter can be started and names its protocol.
pub record IsAdapter (entry : String × Adapter) : Type 0 where
  pub started : is_nil entry.1.command ≡ false
  pub spoken : (entry.1.protocol ==ₛ "") ≡ false

-- A profile has a stage, and each of its stages can be run.
pub record IsProfile (m : Manifest) (entry : String × List Stage) : Type 0 where
  pub given : is_nil entry.1 ≡ false
  pub stages : All (IsStage m) entry.1

pub record IsManifest (m : Manifest) : Type 0 where
  pub contract : parse m.contract ≡ ok (pos 1)
  pub named : is_empty m.project_id ≡ false
  pub adapters : All IsAdapter m.adapters
  pub profiles : All (IsProfile m) m.profiles
