-- ===== src/Visual/Diagnostics.antt =====
-- internal/core/ops.go, browserErrors: the messages of a page and of its console. The session is opened by
-- `open_page`; closing it again and the time limit are left out.
pub mod Distinct
use game_forge.Prelude.{
  Bool, true, false, List, [], ◌∷◌, ◌++◌, Text, is_empty, text_eq, if◌then◌else◌, any_by, is_nil,
  Option, none, some, Result, ok, err, length, ℕ,
}
use game_forge.Prelude.Int.{ℤ}
use game_forge.Visual.{Page, load_case, advance, filter_noise}

-- `seen[m]`, where the map holds what was met.
pub seen : List Text → Text → Bool
seen met m = any_by (λ s. text_eq s m) met

-- The loop of `dedupe`; what was met is what was kept.
unfoldable pub dedupe_from : List Text → List Text → List Text
unfolding seen
dedupe_from met [] = []
dedupe_from met (m ∷ ms) =
    let again = dedupe_from met ms in
    let fresh = dedupe_from (m ∷ met) ms in if seen met m then again else m ∷ fresh

unfoldable pub dedupe : List Text → List Text
unfolding dedupe_from
dedupe ms = dedupe_from [] ms

-- `append(msgs, errs...)` if the messages could be read.
pub readable : Result Text (List Text) → List Text
readable (err e) = []
readable (ok ms) = ms

pub record ErrorsOut : Type 0 where
  pub is_ok : Bool
  pub messages : List Text

pub data ErrorsError : Type 0 where
  stopped : Text → ErrorsError
  diagnostics : ℕ → ErrorsError

pub record Outcome : Type 0 where
  pub out : Option ErrorsOut
  pub error : Option ErrorsError

abbrev pub stopped_by : Text → Outcome
stopped_by e = record { out = none; error = some (stopped e) }

unfoldable pub reported : List Text → Outcome
reported ms = record {
  out = some (record { is_ok = is_nil ms; messages = ms });
  error = if is_nil ms then none else some (diagnostics (length ms));
}

-- The rest after what may fail.
pub with_done : {W : Type 0} → Result Text Text × W → (W → Outcome × W) → Outcome × W
with_done (err e, w) next = (stopped_by e, w)
with_done (ok u, w) next = next w

module _ {W : Type 0} (p : Page W) where
  pub load_asked : Text → W → Result Text Text × W
  unfolding load_case
  load_asked name w = if is_empty name then (ok [], w) else load_case p name [] [] w

  unfoldable pub gathered : W → List Text × W
  unfolding readable
  gathered w =
      let (page, w1) = p.page_errors w in
      let (console, w2) = p.console_errors w1 in (readable page ++ readable console, w2)

  unfoldable pub collected : W → Outcome × W
  unfolding gathered filter_noise dedupe reported
  collected w = let (ms, w') = gathered w in (reported (dedupe (filter_noise p.other ms)), w')

  unfoldable pub browser_errors :
      Text → ℤ → (open_page : W → Result Text Text × W) → W → Outcome × W
  unfolding with_done load_asked advance collected
  browser_errors name ticks open_page w = with_done (open_page w) (λ w1.
      with_done (load_asked name (p.clear_errors w1))
        (λ w2. with_done (advance p ticks w2) (λ w3. collected w3)))
