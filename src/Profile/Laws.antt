-- ===== src/Profile/Laws.antt =====
-- Runs of profiles whose references are not circular.
use game_forge.Prelude.{
  ℕ, zero, suc, ◌<◌, ◌≤◌, ◌≡◌, ◌≢◌, true, String, List, [], ◌∷◌, ◌++◌, none, some, ok, err, All,
  arith, Option-cases, Bool-cases, inl, inr,
}
use game_forge.Project.Manifest.{Stage, Manifest, profile}
use game_forge.Profile.{
  Runners, StageResult, Outcome, is_reference, joined, nested_stages, run_nested, top_stages,
  run_stages, run, stage_result, under, max_depth,
}

-- Each reference in a profile that is referred to has a smaller rank than the reference to the profile.
abbrev pub Falls : Manifest → (Stage → ℕ) → Type 0
Falls m rank =
    (s : Stage) (stages : List Stage)
    → profile m s.uses ≡ some stages
    → All (λ t. is_reference t ≡ true → rank t < rank s) stages

joined-ne-none : (a b : Outcome (List StageResult)) → a ≢ none → b ≢ none → joined a b ≢ none
unfolding joined
joined-ne-none none b ha hb = ha
joined-ne-none (some (err x)) b ha hb = ha
joined-ne-none (some (ok sub)) none ha hb = hb
joined-ne-none (some (ok sub)) (some (err x)) ha hb = hb
joined-ne-none (some (ok sub)) (some (ok rest)) ha hb = λ e. cc

ok-ne-none : (xs : List StageResult) → ◌≢◌ {A = Outcome (List StageResult)} (some (ok xs)) none
ok-ne-none xs = λ e. cc

module _ (r : Runners) (m : Manifest) (rank : Stage → ℕ) (falls : Falls m rank) where
  nested_stages-ne-none :
      (fuel : ℕ) (outer : Stage) (stages : List Stage)
      → ((t : Stage) → rank t < fuel → run_nested fuel r m t ≢ none)
      → All (λ t. is_reference t ≡ true → rank t < fuel) stages
      → nested_stages (run_nested fuel r m) r outer stages ≢ none
  unfolding nested_stages
  nested_stages-ne-none fuel outer [] runs small = ok-ne-none []
  nested_stages-ne-none fuel outer (t ∷ rest) runs small = elim (Bool-cases (is_reference t)) [
    | inl b ↦ rw b (
        joined-ne-none (run_nested fuel r m t) (nested_stages (run_nested fuel r m) r outer rest)
          (runs t (small.0 b)) (nested_stages-ne-none fuel outer rest runs small.1))
    | inr b ↦ rw b (
        joined-ne-none (some (ok (under outer.name (stage_result r t) ∷ [])))
          (nested_stages (run_nested fuel r m) r outer rest)
          (ok-ne-none (under outer.name (stage_result r t) ∷ []))
          (nested_stages-ne-none fuel outer rest runs small.1))
  ]

  All-weaken :
      (a b : ℕ) (stages : List Stage)
      → a ≤ b
      → All (λ t. is_reference t ≡ true → rank t < a) stages
      → All (λ t. is_reference t ≡ true → rank t < b) stages
  All-weaken a b [] h small = tt
  All-weaken a b (t ∷ rest) h small =
      (λ e. let q = small.0 e in omega arith, All-weaken a b rest h small.1)

  run_nested-ne-none : (fuel : ℕ) (s : Stage) → rank s < fuel → run_nested fuel r m s ≢ none
  unfolding run_nested
  run_nested-ne-none zero s h = elim h [ ]
  run_nested-ne-none (suc fuel) s h = elim (Option-cases (profile m s.uses)) [
    | inl e ↦ rw (e, run_nested) (λ p. ground arith)
    | inr (stages, e) ↦
        rw (e, run_nested)
          (nested_stages-ne-none fuel s stages (run_nested-ne-none fuel)
            (All-weaken (rank s) fuel stages (omega arith) (falls s stages e)))
  ]

  top_stages-ne-none :
      (fuel : ℕ) (done : List StageResult) (stages : List Stage)
      → All (λ t. is_reference t ≡ true → rank t < fuel) stages
      → top_stages fuel r m done stages ≢ none
  unfolding top_stages
  top_stages-ne-none fuel done [] small = λ p. ground arith
  top_stages-ne-none fuel done (s ∷ rest) small = elim (Bool-cases (is_reference s)) [
    | inr b ↦ rw b (top_stages-ne-none fuel (done ++ stage_result r s ∷ []) rest small.1)
    | inl b ↦ elim (Option-cases (run_nested fuel r m s)) [
      | inl e ↦ absurd (run_nested-ne-none fuel s (small.0 b) e)
      | inr (err x, e) ↦ rw (b, e, top_stages) (λ p. ground arith)
      | inr (ok sub, e) ↦ rw (b, e, top_stages) (top_stages-ne-none fuel (done ++ sub) rest small.1)
    ]
  ]

  -- If the references of every profile fall in a rank, a run comes back as soon as the fuel is above the
  -- rank of each reference in the profile that is run.
  pub run_total :
      (fuel : ℕ) (name : String) (stages : List Stage)
      → profile m name ≡ some stages
      → All (λ t. is_reference t ≡ true → rank t < fuel) stages
      → run fuel r m name ≢ none
  unfolding run run_stages max_depth
  run_total fuel name stages found small = elim (Option-cases (top_stages fuel r m [] stages)) [
    | inl e ↦ absurd (top_stages-ne-none fuel [] stages small e)
    | inr (out, e) ↦ rw (found, e, run) (λ p. ground arith)
  ]
