-- ===== src/Profile/Cycle.antt =====
-- Profiles that refer to themselves.
use game_forge.Prelude.{
  ℕ, zero, suc, ◌≡◌, ◌≢◌, refl, true, false, String, List, [], ◌∷◌, ◌++◌, Option, none, some, ok,
  err, All, inl, inr, arith, Option-cases, Bool-cases,
}
use game_forge.Project.Manifest.{Stage, Manifest, profile}
use game_forge.Profile.{
  Runners, StageResult, Summary, RunError, Outcome, is_reference, under, joined, nested_stages,
  run_nested, top_stages, run_stages, run, stage_result, depth_exceeded, unknown_profile, summary,
  max_depth,
}

-- The profile that `s` refers to holds a stage of the set `Endless` that refers on, behind stages that
-- are no references.
pub record GoesOn (m : Manifest) (Endless : Stage → Type 0) (stages : List Stage) : Type 0 where
  pub before : List Stage
  pub again : Stage
  pub after : List Stage
  pub shape : stages ≡ before ++ again ∷ after
  pub plain : All (λ s. is_reference s ≡ false) before
  pub refers : is_reference again ≡ true
  pub endless : Endless again

joined-none : (o : Outcome (List StageResult)) → joined none o ≡ none
unfolding joined
joined-none o = refl

nested_stages_stuck :
    (nested : Stage → Outcome (List StageResult)) (r : Runners) (outer : Stage)
    (before : List Stage) (again : Stage) (after : List Stage)
    → All (λ s. is_reference s ≡ false) before
    → is_reference again ≡ true
    → nested again ≡ none
    → nested_stages nested r outer (before ++ again ∷ after) ≡ none
unfolding nested_stages joined
nested_stages_stuck nested r outer [] again after plain refers stuck = rw (refers, stuck) refl
nested_stages_stuck nested r outer (s ∷ before) again after plain refers stuck =
    rw (plain.0, nested_stages_stuck nested r outer before again after plain.1 refers stuck) refl

module _ (r : Runners) (m : Manifest) (Endless : Stage → Type 0)
    (closed : (s : Stage)
      → Endless s
      → (stages : List Stage) × (profile m s.uses ≡ some stages) × GoesOn m Endless stages) where
  run_nested_stuck : (fuel : ℕ) (s : Stage) → Endless s → run_nested fuel r m s ≡ none
  unfolding run_nested
  run_nested_stuck zero s e = refl
  run_nested_stuck (suc fuel) s e =
      let (stages, found, g) = closed s e in
      rw (found, run_nested, g.shape)
        (nested_stages_stuck (run_nested fuel r m) r s g.before g.again g.after g.plain g.refers
          (run_nested_stuck fuel g.again g.endless))

  top_stages_stuck :
      (fuel : ℕ) (done : List StageResult) (before : List Stage) (again : Stage)
      (after : List Stage)
      → All (λ s. is_reference s ≡ false) before
      → is_reference again ≡ true
      → Endless again
      → top_stages fuel r m done (before ++ again ∷ after) ≡ none
  unfolding top_stages
  top_stages_stuck fuel done [] again after plain refers e =
      rw (refers, run_nested_stuck fuel again e) refl
  top_stages_stuck fuel done (s ∷ before) again after plain refers e =
      rw plain.0
        (top_stages_stuck fuel (done ++ stage_result r s ∷ []) before again after plain.1 refers e)

  -- A run never comes back, whatever its fuel, from a profile with a reference into a set of stages of
  -- which each refers to a profile that leads back into the set behind stages that are no references.
  pub run_never_returns :
      (name : String) (stages : List Stage)
      → profile m name ≡ some stages
      → GoesOn m Endless stages
      → (fuel : ℕ) → run fuel r m name ≡ none
  unfolding run
  run_never_returns name stages found g fuel =
      rw
        (
          found,
          run,
          g.shape,
          top_stages_stuck fuel [] g.before g.again g.after g.plain g.refers g.endless,
        )
        refl

ok-ne-depth :
    (xs : List StageResult)
    → ◌≢◌ {A = Outcome (List StageResult)} (some (ok xs)) (some (err depth_exceeded))
ok-ne-depth xs = λ e. cc

joined-ne-depth :
    (a b : Outcome (List StageResult))
    → a ≢ some (err depth_exceeded)
    → b ≢ some (err depth_exceeded)
    → joined a b ≢ some (err depth_exceeded)
unfolding joined
joined-ne-depth none b ha hb = λ e. cc
joined-ne-depth (some (err x)) b ha hb = ha
joined-ne-depth (some (ok sub)) none ha hb = λ e. cc
joined-ne-depth (some (ok sub)) (some (err x)) ha hb = hb
joined-ne-depth (some (ok sub)) (some (ok rest)) ha hb = λ e. cc

nested_stages-ne-depth :
    (nested : Stage → Outcome (List StageResult)) (r : Runners) (outer : Stage)
    (stages : List Stage)
    → ((s : Stage) → nested s ≢ some (err depth_exceeded))
    → nested_stages nested r outer stages ≢ some (err depth_exceeded)
unfolding nested_stages
nested_stages-ne-depth nested r outer [] h = λ e. cc
nested_stages-ne-depth nested r outer (s ∷ rest) h = elim (Bool-cases (is_reference s)) [
  | inl b ↦ rw b (
      joined-ne-depth (nested s) (nested_stages nested r outer rest) (h s)
        (nested_stages-ne-depth nested r outer rest h))
  | inr b ↦ rw b (
      joined-ne-depth (some (ok (under outer.name (stage_result r s) ∷ [])))
        (nested_stages nested r outer rest) (ok-ne-depth (under outer.name (stage_result r s) ∷ []))
        (nested_stages-ne-depth nested r outer rest h))
]

unknown-ne-depth :
    (n : String)
    → ◌≢◌ {A = Outcome (List StageResult)}
        (some (err (unknown_profile n)))
        (some (err depth_exceeded))
unknown-ne-depth n = λ e. cc

run_nested-ne-depth :
    (fuel : ℕ) (r : Runners) (m : Manifest) (s : Stage)
    → run_nested fuel r m s ≢ some (err depth_exceeded)
unfolding run_nested
run_nested-ne-depth zero r m s = λ e. cc
run_nested-ne-depth (suc fuel) r m s = elim (Option-cases (profile m s.uses)) [
  | inl e ↦ rw (e, run_nested) (unknown-ne-depth s.uses)
  | inr (stages, e) ↦
      rw (e, run_nested)
        (nested_stages-ne-depth (run_nested fuel r m) r s stages (run_nested-ne-depth fuel r m))
]

top_stages-ne-depth :
    (fuel : ℕ) (r : Runners) (m : Manifest) (done : List StageResult) (stages : List Stage)
    {out : List StageResult × Option RunError}
    → top_stages fuel r m done stages ≡ some out
    → out.1 ≢ some depth_exceeded
unfolding top_stages
top_stages-ne-depth fuel r m done [] h = λ e. ground arith
top_stages-ne-depth fuel r m done (s ∷ rest) {out} h = elim (Bool-cases (is_reference s)) [
  | inr b ↦
      top_stages-ne-depth fuel r m (done ++ stage_result r s ∷ []) rest {out = out} (rw b at h)
  | inl b ↦ elim (Option-cases (run_nested fuel r m s)) [
    | inl e ↦ ground arith
    | inr (err x, e) ↦
        λ p. run_nested-ne-depth fuel r m s (ground (arith, rw (b, e, top_stages) at h))
    | inr (ok sub, e) ↦
        top_stages-ne-depth fuel r m (done ++ sub) rest {out = out} (rw (b, e, top_stages) at h)
  ]
]

error_of_summary :
    (name : String) (out : List StageResult × Option RunError) → (summary name out).1 ≡ out.1
unfolding summary
error_of_summary name (done, none) = refl
error_of_summary name (done, some e) = refl

-- The depth guard never fires: no run that comes back, from whatever profile, does so with "profile
-- reference depth exceeded".
run-ne-depth :
    (fuel : ℕ) (r : Runners) (m : Manifest) (name : String) (out : Option Summary × Option RunError)
    → run fuel r m name ≡ some out
    → out.1 ≢ some depth_exceeded
unfolding run run_stages max_depth
run-ne-depth fuel r m name out h = elim (Option-cases (profile m name)) [
  | inl e ↦ ground (arith, rw (e, run) at h)
  | inr (stages, e) ↦ elim (Option-cases (top_stages fuel r m [] stages)) [
    | inl t ↦ ground (arith, rw (e, t, run) at h)
    | inr (res, t) ↦ λ p.
        top_stages-ne-depth fuel r m [] stages {out = res} t
          (ground (arith, error_of_summary name res, rw (e, t, run) at h))
  ]
]
