-- ===== src/Visual/Sweep/Verdicts.antt =====
-- internal/core/ops.go, visualSweep: what its report and its error mean.
use game_forge.Prelude.{
  ℕ, suc, ◌+◌, true, List, [], ◌∷◌, ◌++◌, map, Text, codes, if◌then◌else◌, none, some, Result, ok,
  err, ◌≡◌, refl, ap, ◌∙◌, arith, ◌↔◌, inl, inr, All, length, ◌≤◌, ◌⊎◌,
}
use game_forge.Prelude.Int.{ℤ, is_positive}
use game_forge.Visual.{Page, Case, VisualError}
use game_forge.Visual.Sweep.{
  SweepResult, SweepOut, stopped, Outcome, stopped_by, result_of, sweep_one, sweep_cases, cases,
  tally, stage_calls, reported, Opening, with_opened, swept, visual_sweep,
}

-- The cases one after the other, from one state on, with the result of each.
data Judged {W : Type 0} (p : Page W) (ticks : ℤ) : List Case → W → List SweepResult → Type 0 where
  none_left : {w : W} → Judged p ticks [] w []
  next_case :
      {c : Case} {cs : List Case} {w w' : W} {v : Result VisualError Text} {rs : List SweepResult}
      → sweep_one p c.name ticks w ≡ (v, w')
      → Judged p ticks cs w' rs
      → Judged p ticks (c ∷ cs) w (result_of c v ∷ rs)

sweep_cases-Judged :
    {W : Type 0} (p : Page W) (ticks : ℤ) (cs : List Case) (w : W)
    → Judged p ticks cs w (sweep_cases p ticks cs w).0
unfolding sweep_cases
sweep_cases-Judged p ticks [] w = none_left
sweep_cases-Judged p ticks (c ∷ cs) w =
    next_case refl (sweep_cases-Judged p ticks cs (sweep_one p c.name ticks w).1)

-- How many results are ok.
good : List SweepResult → ℕ
good [] = 0
good (r ∷ rs) = let n = good rs in if r.is_ok then suc n else n

tally-good : (rs : List SweepResult) (n : ℕ) → tally rs n + good rs ≡ n + length rs
unfolding tally good
tally-good [] n = refl
tally-good (r ∷ rs) n = ground (arith, tally-good rs n, tally-good rs (suc n))

good-length : (rs : List SweepResult) → good rs ≤ length rs
unfolding good
good-length [] = omega arith
good-length (r ∷ rs) = ground (arith, good-length rs)

good-All : (rs : List SweepResult) → (good rs ≡ length rs) ↔ All (λ r. r.is_ok ≡ true) rs
unfolding good
good-All [] = (λ e. tt, λ h. refl)
good-All (r ∷ rs) = ground (arith, good-All rs, good-length rs)

result_of-case : (c : Case) (v : Result VisualError Text) → (result_of c v).case ≡ c.name
unfolding result_of
result_of-case c (ok u) = refl
result_of-case c (err e) = refl

stage_name : Text → Text
stage_name name = codes "case." ++ name

map-stage_calls :
    (rs : List SweepResult) → map (λ s. s.name) (stage_calls rs) ≡ map (λ r. stage_name r.case) rs
unfolding stage_calls stage_name
map-stage_calls [] = refl
map-stage_calls (r ∷ rs) = ap (λ names. (codes "case." ++ r.case) ∷ names) (map-stage_calls rs)

map-is_ok : (rs : List SweepResult) → map (λ s. s.is_ok) (stage_calls rs) ≡ map (λ r. r.is_ok) rs
unfolding stage_calls
map-is_ok [] = refl
map-is_ok (r ∷ rs) = ap (λ bs. r.is_ok ∷ bs) (map-is_ok rs)

module _ {W : Type 0} (p : Page W) (ticks : ℤ) where
  Judged-names :
      (cs : List Case) (w : W) (rs : List SweepResult)
      → Judged p ticks cs w rs
      → map (λ r. stage_name r.case) rs ≡ map (λ c. stage_name c.name) cs
  Judged-names [] w [] none_left = refl
  Judged-names (c ∷ cs) w (r ∷ rs) (next_case {v = v} e j) =
      rw (result_of-case c v, Judged-names cs _ rs j) refl
  Judged-names [] w (r ∷ rs) j = elim j [ ]
  Judged-names (c ∷ cs) w [] j = elim j [ ]

-- Nothing was swept, because of an error.
IsStopped : Outcome → Type 0
IsStopped r = (e : Text) × (r.out ≡ none) × (r.error ≡ some (stopped e)) × (r.stages ≡ [])

-- The report on the cases `cs`, swept from the state `w` on.
IsReport : {W : Type 0} → Page W → ℤ → List Case → W → Outcome → Type 0
unfolding good stage_name
IsReport p ticks cs w r =
    (out : SweepOut) × (r.out ≡ some out)
    × Judged p ticks cs w out.cases
    × (out.failed + good out.cases ≡ length out.cases)
    × (map (λ s. s.name) r.stages ≡ map (λ c. stage_name c.name) cs)
    × (map (λ s. s.is_ok) r.stages ≡ map (λ x. x.is_ok) out.cases)
    × ((r.error ≡ none) ↔ All (λ x. x.is_ok ≡ true) out.cases)

-- The ticks that are asked for, or those of the manifest.
chosen_ticks : ℤ → ℤ → ℤ
chosen_ticks asked default = if is_positive asked then asked else default

pub IsAnswer : {W : Type 0} → Page W → ℤ → Outcome → Type 0
unfolding IsStopped IsReport chosen_ticks
IsAnswer {W} p asked r =
    IsStopped r
    ⊎ ((default : ℤ) × (cs : List Case) × (v w : W) × (cases p v ≡ (ok cs, w))
        × IsReport p (chosen_ticks asked default) cs w r)

reported-none :
    (rs : List SweepResult) → ((reported rs).error ≡ none) ↔ All (λ r. r.is_ok ≡ true) rs
unfolding reported
reported-none rs = ground (arith, tally-good rs 0, good-All rs)

with_opened_both :
    {W A : Type 0} (Q : Outcome → Type 0) (r : Result Text A × W) (next : A → W → Outcome × W)
    → ((e : Text) → Q (stopped_by e))
    → ((a : A) (w : W) → r ≡ (ok a, w) → Q (next a w).0)
    → Q (with_opened r next).0
unfolding with_opened
with_opened_both Q (err e, w) next q g = q e
with_opened_both Q (ok a, w) next q g = g a w refl

module _ {W : Type 0} (p : Page W) where
  swept-IsReport :
      (ticks : ℤ) (cs : List Case) (w : W) → IsReport p ticks cs w (swept p ticks cs w).0
  unfolding swept IsReport reported
  swept-IsReport ticks cs w =
      let rs = (sweep_cases p ticks cs w).0 in
      let j = sweep_cases-Judged p ticks cs w in
      (
        record { failed = tally rs 0; cases = rs },
        refl,
        j,
        omega (arith, tally-good rs 0),
        map-stage_calls rs ∙ Judged-names p ticks cs w rs j,
        map-is_ok rs,
        reported-none rs,
      )

  -- `visualSweep` either stops with the error of what it could not open, or of the list of cases, without a
  -- result or a stage; or it sweeps every declared case, in the order of the list and each from
  -- where the one before it ended, with the ticks asked for or else those of the manifest. Then the
  -- results are those of `sweepOne`; `failed` and the results that are ok make up all
  -- results; there is one stage per case, named after it and with its verdict; and no error
  -- comes back exactly if every case is ok.
  visual_sweep-IsAnswer :
      (asked : ℤ) (open_manifest : Opening W ℤ) (open_page : Opening W Text) (w : W)
      → IsAnswer p asked (visual_sweep p asked open_manifest open_page w).0
  unfolding visual_sweep IsAnswer chosen_ticks
  visual_sweep-IsAnswer asked open_manifest open_page w =
      let no : (e : Text) → IsAnswer p asked (stopped_by e) = λ e. inl (e, refl, refl, refl) in
      with_opened_both (IsAnswer p asked) (open_manifest w) _ no (λ default w1 e1.
        with_opened_both (IsAnswer p asked) (open_page w1) _ no (λ u w2 e2.
          with_opened_both (IsAnswer p asked) (cases p w2) _ no
            (λ cs w3 e3. inr (default, cs, w2, w3, e3, swept-IsReport _ cs w3))))
