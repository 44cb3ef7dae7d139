-- ===== src/Scenario/Batch.antt =====
-- internal/core/ops.go, scenarioCompare: the comparison of the chosen scenarios, one after the other. What
-- the runtime opens before (the core, the adapter, the dev server, the browser) are arguments that
-- either fail with an error or go on; closing them again, the time limit and the times are left out.
pub mod Accounts
use game_forge.Prelude.{
  ℕ, zero, suc, Bool, true, false, ◌||◌, String, ◌++ₛ◌, List, [], ◌∷◌, ◌++◌, Option, none, some,
  Result, ok, err, ltb, if◌then◌else◌, is_nil, length,
}
use game_forge.Prelude.Int.{ℤ, pos, negsuc}
use game_forge.Scenario.{Host, RunOptions, CompareResult, compare_runs, list_ids}

pub record CompareArgs : Type 0 where
  pub ids : List String
  pub all : Bool
  pub seed : String
  pub world : String
  pub ticks : ℤ
  pub params : List (String × String)

pub record Row : Type 0 where
  pub id : String
  pub is_match : Bool
  pub digest : String
  pub headless : String
  pub browser : String
  pub explanation : String

-- A call `sink.Stage`.
pub record StageCall : Type 0 where
  pub name : String
  pub is_ok : Bool
  pub detail : String

-- `out` in the loop, with the calls of the sink.
pub record Tally : Type 0 where
  pub results : List Row
  pub differing : ℕ
  pub stages : List StageCall

pub record CompareOut : Type 0 where
  pub compared : ℕ
  pub differing : ℕ
  pub results : List Row

pub data CompareError : Type 0 where
  failed : String → CompareError
  scenarios_differ : ℕ → CompareError

set_ticks : ℤ → Option ℕ
set_ticks (pos zero) = none
set_ticks (pos (suc n)) = some (suc n)
set_ticks (negsuc n) = none

pub options_for : CompareArgs → String → RunOptions
unfolding set_ticks
options_for a id = record {
  id = id;
  seed = a.seed;
  world_seed = a.world;
  ticks = set_ticks a.ticks;
  params = a.params;
}

pub row_of : CompareResult → Row
row_of r =
    if r.is_match
    then record {
      id = r.id;
      is_match = true;
      digest = r.digest;
      headless = "";
      browser = "";
      explanation = r.explanation;
    }
    else record {
      id = r.id;
      is_match = false;
      digest = "";
      headless = r.headless;
      browser = r.browser;
      explanation = r.explanation;
    }

-- The rest of the loop's body after `Compare`.
unfoldable pub record_run : Tally → String → Result String CompareResult → Tally
unfolding row_of
record_run t id (err e) = record {
  results = t.results;
  differing = suc t.differing;
  stages = t.stages ++ record { name = "compare." ++ₛ id; is_ok = false; detail = "" } ∷ [];
}
record_run t id (ok r) = record {
  results = t.results ++ row_of r ∷ [];
  differing = if r.is_match then t.differing else suc t.differing;
  stages =
      t.stages
      ++ record { name = "compare." ++ₛ id; is_ok = r.is_match; detail = r.explanation } ∷ [];
}

module _ {W : Type 0} (h : Host W) (a : CompareArgs) where
  unfoldable pub compare_ids : List String → Tally → W → Tally × W
  unfolding record_run options_for
  compare_ids [] t w = (t, w)
  compare_ids (id ∷ ids) t w =
      let (r, w') = compare_runs h (options_for a id) w in compare_ids ids (record_run t id r) w'

-- The end of scenarioCompare: what it returns, and its error.
unfoldable pub finish : Tally → CompareOut × Option CompareError
finish t = (
  record { compared = length t.results; differing = t.differing; results = t.results },
  if ltb 0 t.differing then some (scenarios_differ t.differing) else none,
)

abbrev pub empty_tally : Tally
empty_tally = record { results = []; differing = 0; stages = [] }

-- What may fail on the way: an error, or nothing.
abbrev Opening : Type 0 → Type 0
Opening W = W → Option String × W

pub record Outcome : Type 0 where
  pub out : Option CompareOut
  pub error : Option CompareError
  pub stages : List StageCall

abbrev pub stopped_by : String → Outcome
stopped_by e = record { out = none; error = some (failed e); stages = [] }

module _ {W : Type 0} where
  -- `if err != nil { return nil, toErr(err) }`
  pub after : Option String × W → (W → Outcome × W) → Outcome × W
  after (some e, w) next = (stopped_by e, w)
  after (none, w) next = next w

  pub with_ids : Result String (List String) × W → (List String → W → Outcome × W) → Outcome × W
  with_ids (err e, w) next = (stopped_by e, w)
  with_ids (ok ids, w) next = next ids w

module _ {W : Type 0} (h : Host W) (a : CompareArgs) where
  pub choose_ids : W → Result String (List String) × W
  choose_ids w = if a.all || is_nil a.ids then list_ids h w else (ok a.ids, w)

  pub compared : List String → W → Outcome × W
  unfolding compare_ids finish
  compared ids w =
      let (t, w') = compare_ids h a ids empty_tally w in
      let (out, e) = finish t in (record { out = some out; error = e; stages = t.stages }, w')

  -- `core`, `adapter`, `server` and `browser` open what the loop needs, in this order.
  unfoldable pub scenario_compare : (core adapter server browser : Opening W) → W → Outcome × W
  unfolding after with_ids choose_ids compared
  scenario_compare core adapter server browser w = after (core w) (λ w1. after (adapter w1) (λ w2.
      with_ids (choose_ids w2)
        (λ ids w3. after (server w3) (λ w4. after (browser w4) (compared ids)))))
