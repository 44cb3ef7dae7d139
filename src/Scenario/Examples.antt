-- ===== src/Scenario/Examples.antt =====
-- Tests of the comparison of scenarios, and its theorems at concrete inputs.
use game_forge.Prelude.{
  ℕ, suc, ltb, Bool, true, false, String, if◌then◌else◌, none, some, ok, err, ◌≡◌, refl, ◌↔◌, [],
  ◌∷◌, List, Option,
}
use game_forge.Prelude.Int.{pos, negsuc}
use game_forge.Frontend.Json.{end}
use game_forge.Scenario.{
  Check, Report, Host, checks_equal, has_passed, matches, list_ids, compare_runs,
}
use game_forge.Scenario.Matching.{Agrees, IsDistinct, matches_iff}
use game_forge.Scenario.Batch.{CompareArgs, scenarios_differ, failed, scenario_compare}
use game_forge.Scenario.Batch.Accounts.{IsAnswer, scenario_compare-IsAnswer}

abbrev check_of : String → Bool → Check
check_of n b = record { name = n; passed = b; detail = "" }

abbrev report_of : String → List Check → Report
report_of digest cs = record {
  scenario = "jump";
  status = "PASS";
  sim_seed = pos 1;
  world_seed = pos 2;
  ticks = pos 600;
  params = end;
  checks = cs;
  metrics = end;
  digest = digest;
}

abbrev headless : Report
headless = report_of "d1" (check_of "lands" true ∷ check_of "scores" false ∷ [])

-- The same checks in another order.
abbrev in_browser : Report
in_browser = report_of "d1" (check_of "scores" false ∷ check_of "lands" true ∷ [])

matches_reordered : matches headless in_browser ≡ true
unfolding matches
matches_reordered = refl

-- A name that the browser reports twice stands in for one that it does not report, in one direction only.
checks_equal_repeated :
    checks_equal
      (check_of "a" true ∷ check_of "b" true ∷ [])
      (check_of "a" true ∷ check_of "a" true ∷ [])
    ≡ true
unfolding checks_equal
checks_equal_repeated = refl

checks_equal_missing :
    checks_equal
      (check_of "a" true ∷ check_of "a" true ∷ [])
      (check_of "a" true ∷ check_of "b" true ∷ [])
    ≡ false
unfolding checks_equal
checks_equal_missing = refl

matches_iff_example : (matches headless in_browser ≡ true) ↔ (
    (headless.digest ≡ in_browser.digest)
    × (has_passed headless ≡ has_passed in_browser)
    × Agrees headless.checks in_browser.checks)
unfolding IsDistinct
matches_iff_example = matches_iff headless in_browser (refl, (refl, tt)) (refl, (refl, tt))

-- Two scenarios; the browser cannot run the second.
abbrev game : Host ℕ
game = record {
  call = λ name params w. (ok name, suc w);
  eval_string = λ js w. (if ltb w 3 then ok js else err "no page", suc w);
  marshal = λ v. ok "x";
  unmarshal_report = λ raw. ok headless;
  unmarshal_ids = λ raw. ok ("jump" ∷ "fall" ∷ []);
}

abbrev opened : ℕ → Option String × ℕ
opened w = (none, w)

abbrev refused : ℕ → Option String × ℕ
refused w = (some "no server", w)

abbrev all_ids : CompareArgs
all_ids = record { ids = []; all = true; seed = ""; world = "w"; ticks = negsuc 0; params = [] }

scenario_compare_error :
    (scenario_compare game all_ids opened opened opened opened 0).0.error
    ≡ some (scenarios_differ 1)
unfolding scenario_compare list_ids compare_runs
scenario_compare_error = refl

scenario_compare_unserved :
    (scenario_compare game all_ids opened opened refused opened 0).0.error
    ≡ some (failed "no server")
unfolding scenario_compare list_ids
scenario_compare_unserved = refl

scenario_compare-IsAnswer_example :
    IsAnswer game all_ids (scenario_compare game all_ids opened opened opened opened 0).0
scenario_compare-IsAnswer_example =
    scenario_compare-IsAnswer game all_ids opened opened opened opened 0
