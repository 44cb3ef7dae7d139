-- ===== src/Visual/Sweep.antt =====
-- internal/visual/visual.go, Sweep, and visualSweep of internal/core/ops.go. What the operation opens before (the
-- core, the manifest, the dev server with the browser) either fails with an error or goes on; closing
-- them again and the time limit are left out.
pub mod Verdicts
use game_forge.Prelude.{
  ℕ, suc, Bool, true, false, List, [], ◌∷◌, ◌++◌, Text, codes, if◌then◌else◌, ltb, Option, none,
  some, Result, ok, err,
}
use game_forge.Prelude.Int.{ℤ, is_positive}
use game_forge.Visual.{
  Page, Case, VisualError, load_failed, advance_failed, page_failed, after, load_case, advance,
  fresh_errors,
}

pub record SweepResult : Type 0 where
  pub case : Text
  pub kind : Text
  pub is_ok : Bool
  pub error : Option VisualError

-- The end of sweepOne and of the loop's body.
clean : List Text → Result VisualError Text
clean [] = ok []
clean (m ∷ ms) = err (page_failed (m ∷ ms))

pub result_of : Case → Result VisualError Text → SweepResult
result_of c (ok u) = record { case = c.name; kind = c.kind; is_ok = true; error = none }
result_of c (err e) = record { case = c.name; kind = c.kind; is_ok = false; error = some e }

abbrev cases_script : Text
cases_script = codes "JSON.stringify(window.__gameForge.visual.list())"

module _ {W : Type 0} (p : Page W) where
  unfoldable pub sweep_one : Text → ℤ → W → Result VisualError Text × W
  unfolding load_case advance fresh_errors clean
  sweep_one name ticks w = after load_failed (load_case p name [] [] (p.clear_errors w)) (λ u1 w1.
      after advance_failed (advance p ticks w1)
        (λ u2 w2. let (ms, w3) = fresh_errors p w2 in (clean ms, w3)))

  unfoldable pub sweep_cases : ℤ → List Case → W → List SweepResult × W
  unfolding sweep_one result_of
  sweep_cases ticks [] w = ([], w)
  sweep_cases ticks (c ∷ cs) w =
      let (r, w1) = sweep_one c.name ticks w in
      let (rs, w2) = sweep_cases ticks cs w1 in (result_of c r ∷ rs, w2)

  pub cases : W → Result Text (List Case) × W
  cases w = p.eval_cases cases_script w

-- `sweepOut`
pub record SweepOut : Type 0 where
  pub failed : ℕ
  pub cases : List SweepResult

-- A call `sink.Stage`.
pub record StageCall : Type 0 where
  pub name : Text
  pub is_ok : Bool
  pub detail : Option VisualError

pub data SweepError : Type 0 where
  stopped : Text → SweepError
  cases_failed : ℕ → SweepError

pub record Outcome : Type 0 where
  pub out : Option SweepOut
  pub error : Option SweepError
  pub stages : List StageCall

abbrev pub stopped_by : Text → Outcome
stopped_by e = record { out = none; error = some (stopped e); stages = [] }

-- The loop of visualSweep over the results.
unfoldable pub tally : List SweepResult → ℕ → ℕ
tally [] failed = failed
tally (r ∷ rs) failed = tally rs (if r.is_ok then failed else suc failed)

unfoldable pub stage_calls : List SweepResult → List StageCall
stage_calls [] = []
stage_calls (r ∷ rs) =
    record { name = codes "case." ++ r.case; is_ok = r.is_ok; detail = r.error } ∷ stage_calls rs

unfoldable pub reported : List SweepResult → Outcome
unfolding tally stage_calls
reported rs =
    let failed = tally rs 0 in
    record {
      out = some (record { failed = failed; cases = rs });
      error = if ltb 0 failed then some (cases_failed failed) else none;
      stages = stage_calls rs;
    }

-- What may fail on the way.
abbrev pub Opening : Type 0 → Type 0 → Type 0
Opening W A = W → Result Text A × W

pub with_opened : {W A : Type 0} → Result Text A × W → (A → W → Outcome × W) → Outcome × W
with_opened (err e, w) next = (stopped_by e, w)
with_opened (ok a, w) next = next a w

module _ {W : Type 0} (p : Page W) where
  unfoldable pub swept : ℤ → List Case → W → Outcome × W
  unfolding sweep_cases reported
  swept ticks cs w = let (rs, w') = sweep_cases p ticks cs w in (reported rs, w')

  -- `open_manifest` gives Visual.DefaultTicks, `open_page` the session that `p` is then about.
  unfoldable pub visual_sweep :
      ℤ → (open_manifest : Opening W ℤ) (open_page : Opening W Text) → W → Outcome × W
  unfolding with_opened cases swept
  visual_sweep asked open_manifest open_page w = with_opened (open_manifest w) (λ default w1.
      let ticks = if is_positive asked then asked else default in
      with_opened (open_page w1) (λ u w2. with_opened (cases p w2) (λ cs w3. swept ticks cs w3)))
