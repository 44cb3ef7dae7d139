-- ===== src/Profile/Expansion.antt =====
-- Which results a run reports: the stages of the profile in their order, each reference replaced by the
-- results of the profile that it names.
use mathlib.Core.List.{append_assoc, append-nil}
use game_forge.Prelude.{
  ℕ, zero, suc, ◌≡◌, refl, ◌∙◌, ap, sym, subst, true, false, String, List, [], ◌∷◌, ◌++◌, Option,
  none, some, ok, err, arith, Option-cases, Bool-cases, inl, inr, all_by, ◌⊎◌, ◌≢◌,
}
use game_forge.Project.Manifest.{Stage, Manifest, profile}
use game_forge.Profile.{
  Runners, StageResult, Summary, RunError, Outcome, is_reference, joined, nested_stages, run_nested,
  top_stages, run_stages, run, stage_result, under, summary, max_depth,
}

-- Under a reference the results carry its name; at the top they stay as they are.
abbrev labelled : Option String → StageResult → StageResult
labelled none res = res
labelled (some outer) res = under outer res

-- `Expands r m label stages out`: run under `label`, the stages give the results `out`.
pub data Expands (r : Runners) (m : Manifest)
    : Option String → List Stage → List StageResult → Type 0 where
  finished : {label : Option String} → Expands r m label [] []
  leaf :
      {label : Option String} {s : Stage} {rest : List Stage} {out : List StageResult}
      → is_reference s ≡ false
      → Expands r m label rest out
      → Expands r m label (s ∷ rest) (labelled label (stage_result r s) ∷ out)
  reference :
      {label : Option String} {s : Stage} {rest inner : List Stage} {sub out : List StageResult}
      → is_reference s ≡ true
      → profile m s.uses ≡ some inner
      → Expands r m (some s.name) inner sub
      → Expands r m label rest out
      → Expands r m label (s ∷ rest) (sub ++ out)

joined_ok :
    (a b : Outcome (List StageResult)) (out : List StageResult)
    → joined a b ≡ some (ok out)
    → (sub rest : List StageResult) × (a ≡ some (ok sub))
      × (b ≡ some (ok rest))
      × (sub ++ rest ≡ out)
unfolding joined
joined_ok none b out h = ground arith
joined_ok (some (err x)) b out h = ground arith
joined_ok (some (ok sub)) none out h = ground arith
joined_ok (some (ok sub)) (some (err x)) out h = ground arith
joined_ok (some (ok sub)) (some (ok rest)) out h = (sub, rest, refl, refl, cc)

one_of :
    {xs ys : List StageResult}
    → ◌≡◌ {A = Outcome (List StageResult)} (some (ok xs)) (some (ok ys))
    → xs ≡ ys
one_of h = cc

-- A nested run that gave no results.
abbrev IsStuck : Outcome (List StageResult) → Type 0
IsStuck o = (o ≡ none) ⊎ ((x : RunError) × (o ≡ some (err x)))

Result-of :
    (o : Outcome (List StageResult)) → IsStuck o ⊎ ((sub : List StageResult) × (o ≡ some (ok sub)))
Result-of none = inl (inl refl)
Result-of (some (err x)) = inl (inr (x, refl))
Result-of (some (ok sub)) = inr (sub, refl)

module _ (r : Runners) (m : Manifest) where
  nested_stages-Expands :
      (nested : Stage → Outcome (List StageResult)) (outer : Stage) (stages : List Stage)
      (out : List StageResult)
      → ((t : Stage) (sub : List StageResult)
          → nested t ≡ some (ok sub)
          → (inner : List Stage) × (profile m t.uses ≡ some inner)
            × Expands r m (some t.name) inner sub)
      → nested_stages nested r outer stages ≡ some (ok out)
      → Expands r m (some outer.name) stages out
  unfolding nested_stages
  nested_stages-Expands nested outer [] out sound h =
      subst (Expands r m (some outer.name) []) (ground arith) finished
  nested_stages-Expands nested outer (t ∷ rest) out sound h = elim (Bool-cases (is_reference t)) [
    | inl b ↦
        let later = nested_stages nested r outer rest in
        let (sub, more, first, second, e) = joined_ok (nested t) later out (rw b at h) in
        let (inner, found, expands) = sound t sub first in
        subst (Expands r m (some outer.name) (t ∷ rest)) e
          (reference b found expands (nested_stages-Expands nested outer rest more sound second))
    | inr b ↦
        let later = nested_stages nested r outer rest in
        let one = under outer.name (stage_result r t) ∷ [] in
        let (sub, more, first, second, e) = joined_ok (some (ok one)) later out (rw b at h) in
        subst (Expands r m (some outer.name) (t ∷ rest)) (ap (λ xs. xs ++ more) (one_of first) ∙ e)
          (leaf b (nested_stages-Expands nested outer rest more sound second))
  ]

  run_nested-Expands :
      (fuel : ℕ) (t : Stage) (sub : List StageResult)
      → run_nested fuel r m t ≡ some (ok sub)
      → (inner : List Stage) × (profile m t.uses ≡ some inner) × Expands r m (some t.name) inner sub
  unfolding run_nested
  run_nested-Expands zero t sub h = ground arith
  run_nested-Expands (suc fuel) t sub h = elim (Option-cases (profile m t.uses)) [
    | inl e ↦ ground (arith, rw (e, run_nested) at h)
    | inr (inner, e) ↦ (
      inner,
      e,
      nested_stages-Expands (run_nested fuel r m) t inner sub (run_nested-Expands fuel)
          (rw (e, run_nested) at h),
    )
  ]

  stuck_top :
      (fuel : ℕ) (done : List StageResult) (s : Stage) (rest : List Stage) (res : List StageResult)
      → is_reference s ≡ true
      → IsStuck (run_nested fuel r m s)
      → top_stages fuel r m done (s ∷ rest) ≢ some (res, none)
  unfolding top_stages
  stuck_top fuel done s rest res b (inl e) h = ground (arith, rw (b, e, top_stages) at h)
  stuck_top fuel done s rest res b (inr (x, e)) h = ground (arith, rw (b, e, top_stages) at h)

  top_stages-Expands :
      (fuel : ℕ) (done : List StageResult) (stages : List Stage) (res : List StageResult)
      → top_stages fuel r m done stages ≡ some (res, none)
      → (out : List StageResult) × Expands r m none stages out × (res ≡ done ++ out)
  unfolding top_stages
  top_stages-Expands fuel done [] res h = ([], finished, sym (append-nil done ∙ ground arith))
  top_stages-Expands fuel done (s ∷ rest) res h = elim (Bool-cases (is_reference s)) [
    | inr b ↦
        let (out, expands, e) =
          top_stages-Expands fuel (done ++ stage_result r s ∷ []) rest res (rw b at h) in
        (stage_result r s ∷ out, leaf b expands, e ∙ append_assoc done (stage_result r s ∷ []) out)
    | inl b ↦ elim (Result-of (run_nested fuel r m s)) [
      | inl stuck ↦ absurd (stuck_top fuel done s rest res b stuck h)
      | inr (sub, n) ↦
          let (inner, found, nested) = run_nested-Expands fuel s sub n in
          let (out, expands, e) =
            top_stages-Expands fuel (done ++ sub) rest res (rw (b, n, top_stages) at h) in
          (sub ++ out, reference b found nested expands, e ∙ append_assoc done sub out)
    ]
  ]

summary_of :
    (name : String) (res : List StageResult) (sum : Summary)
    → ◌≡◌ {A = Option (Option Summary × Option RunError)}
        (some (some (summary name (res, none)).0, (summary name (res, none)).1))
        (some (some sum, none))
    → (res ≡ sum.stages) × (sum.ok_flag ≡ all_by (λ (s : StageResult). s.ok_flag) sum.stages)
unfolding summary
summary_of name res sum h =
    let e : (summary name (res, none)).0 ≡ sum = cc in
    let stages = ap (λ (s : Summary). s.stages) e in
    (
      stages,
      sym (ap (λ (s : Summary). s.ok_flag) e) ∙ ap (all_by (λ (s : StageResult). s.ok_flag)) stages,
    )

-- A run without an error reports the results of the declared profile, each reference replaced by the
-- results of its profile under its name, and its verdict is that all of them passed.
pub run-Expands :
    (r : Runners) (m : Manifest) (fuel : ℕ) (name : String) (sum : Summary)
    → run fuel r m name ≡ some (some sum, none)
    → (stages : List Stage) × (profile m name ≡ some stages)
      × Expands r m none stages sum.stages
      × (sum.ok_flag ≡ all_by (λ (s : StageResult). s.ok_flag) sum.stages)
unfolding run run_stages max_depth
run-Expands r m fuel name sum h = elim (Option-cases (profile m name)) [
  | inl e ↦ ground (arith, rw (e, run) at h)
  | inr (stages, e) ↦ elim (Option-cases (top_stages fuel r m [] stages)) [
    | inl t ↦ ground (arith, rw (e, t, run) at h)
    | inr ((res, some x), t) ↦ ground (arith, rw (e, t, run) at h)
    | inr ((res, none), t) ↦
        let (out, expands, same) = top_stages-Expands r m fuel [] stages res t in
        let summed = summary_of name res sum (rw (e, t, run) at h) in
        (stages, e, subst (Expands r m none stages) (sym same ∙ summed.0) expands, summed.1)
  ]
]
