-- ===== src/Scenario/Batch/Accounts.antt =====
-- internal/core/ops.go, scenarioCompare: what the counts of its report mean.
use game_forge.Prelude.{
  ℕ, suc, Bool, true, false, ◌||◌, String, ◌++ₛ◌, List, [], ◌∷◌, ◌++◌, map, Option, none, some,
  Result, ok, err, ok_injective, if◌then◌else◌, is_nil, length, length-append, ◌+◌, ◌≡◌, refl, sym,
  ap, ◌∙◌, subst, arith, ◌↔◌, ◌⊎◌, inl, inr,
}
use mathlib.Core.List.{map-append, append_assoc, append-nil}
use game_forge.Scenario.{Host, list_ids, CompareResult, compare_runs}
use game_forge.Scenario.Batch.{
  CompareArgs, Row, StageCall, Tally, CompareOut, failed, Outcome, record_run, compare_ids, finish,
  empty_tally, scenario_compare, compared, after, with_ids, choose_ids, options_for, row_of,
  stopped_by,
}

-- How many fail a test.
module _ {A : Type 0} (p : A → Bool) where
  count_failed : List A → ℕ
  count_failed [] = 0
  count_failed (x ∷ xs) = let n = count_failed xs in if p x then n else suc n

  count_failed-snoc :
      (xs : List A) (y : A)
      → count_failed (xs ++ y ∷ []) ≡ (if p y then count_failed xs else suc (count_failed xs))
  unfolding count_failed
  count_failed-snoc [] y = refl
  count_failed-snoc (x ∷ xs) y = ground (arith, count_failed-snoc xs y)

length-snoc : {A : Type 0} (xs : List A) (y : A) → length (xs ++ y ∷ []) ≡ suc (length xs)
length-snoc xs y = omega (arith, length-append xs (y ∷ []))

map-snoc :
    {A B C : Type 0} (f : A → C) (g : B → C) (xs : List A) (ys : List B) (x : A) (y : B)
    → map f xs ≡ map g ys
    → f x ≡ g y
    → map f (xs ++ x ∷ []) ≡ map g (ys ++ y ∷ [])
map-snoc f g xs ys x y h e =
    map-append f xs (x ∷ [])
    ∙ ap (λ z. z ++ f x ∷ []) h
    ∙ ap (λ z. map g ys ++ z ∷ []) e
    ∙ sym (map-append g ys (y ∷ []))

stage_name : String → String
stage_name id = "compare." ++ₛ id

-- The tally after the comparisons of `ids`.
unfoldable pub Accounts : List String → List Row → ℕ → List StageCall → Type 0
unfolding count_failed stage_name
Accounts ids results differing stages =
    (errors : ℕ) × (length results + errors ≡ length ids)
    × (differing ≡ errors + count_failed (λ r. r.is_match) results)
    × (differing ≡ count_failed (λ s. s.is_ok) stages)
    × (map (λ s. s.name) stages ≡ map stage_name ids)

TallyOf : List String → Tally → Type 0
unfolding Accounts
TallyOf ids t = Accounts ids t.results t.differing t.stages

chosen_match :
    (b : Bool) (x y : Row)
    → x.is_match ≡ true
    → y.is_match ≡ false
    → (if b then x else y).is_match ≡ b
chosen_match true x y hx hy = hx
chosen_match false x y hx hy = hy

row_of-is_match : (r : CompareResult) → (row_of r).is_match ≡ r.is_match
unfolding row_of
row_of-is_match r = chosen_match r.is_match _ _ refl refl

record_run-TallyOf :
    (done : List String) (id : String) (t : Tally) (r : Result String CompareResult)
    → TallyOf done t
    → TallyOf (done ++ id ∷ []) (record_run t id r)
unfolding TallyOf record_run
record_run-TallyOf done id t (err e) (n, l, d, f, s) = (
  suc n,
  omega (arith, l, length-snoc done id),
  omega (arith, d),
  ap suc f ∙ sym (count_failed-snoc (λ x. x.is_ok) t.stages _),
  map-snoc (λ x. x.name) stage_name t.stages done _ id s refl,
)
record_run-TallyOf done id t (ok r) (n, l, d, f, s) = (
  n,
  omega (arith, l, length-snoc done id, length-snoc t.results (row_of r)),
  ground (arith, d, count_failed-snoc (λ x. x.is_match) t.results (row_of r), row_of-is_match r),
  ground (
    arith,
    f,
    count_failed-snoc (λ x. x.is_ok) t.stages
        (record { name = "compare." ++ₛ id; is_ok = r.is_match; detail = r.explanation }),
  ),
  map-snoc (λ x. x.name) stage_name t.stages done _ id s refl,
)

module _ {W : Type 0} (h : Host W) (a : CompareArgs) where
  compare_ids-TallyOf :
      (done ids : List String) (t : Tally) (w : W)
      → TallyOf done t
      → TallyOf (done ++ ids) (compare_ids h a ids t w).0
  unfolding compare_ids
  compare_ids-TallyOf done [] t w i = subst (λ x. TallyOf x t) (sym (append-nil done)) i
  compare_ids-TallyOf done (id ∷ ids) t w i =
      let (r, w') = compare_runs h (options_for a id) w in
      subst (λ x. TallyOf x (compare_ids h a ids (record_run t id r) w').0)
        (append_assoc done (id ∷ []) ids)
        (compare_ids-TallyOf (done ++ id ∷ []) ids (record_run t id r) w'
          (record_run-TallyOf done id t r i))

-- Nothing was compared, because of an error.
IsStopped : Outcome → Type 0
IsStopped r = (e : String) × (r.out ≡ none) × (r.error ≡ some (failed e)) × (r.stages ≡ [])

-- The report on the comparisons of `ids`.
pub IsReport : List String → Outcome → Type 0
unfolding Accounts count_failed
IsReport ids r =
    (out : CompareOut) × (r.out ≡ some out)
    × (out.compared ≡ length out.results)
    × Accounts ids out.results out.differing r.stages
    × ((r.error ≡ none)
        ↔ ((out.compared ≡ length ids) × (count_failed (λ x. x.is_match) out.results ≡ 0)))

finish-none :
    (ids : List String) (t : Tally)
    → TallyOf ids t
    → ((finish t).1 ≡ none)
      ↔ ((length t.results ≡ length ids) × (count_failed (λ x. x.is_match) t.results ≡ 0))
unfolding TallyOf finish
finish-none ids t (n, l, d, f, s) = ground (arith, l, d)

-- Where the ids are from: the catalogue, or the arguments.
IsChoice : {W : Type 0} → Host W → CompareArgs → List String → Type 0
IsChoice {W} h a ids =
    (((a.all || is_nil a.ids) ≡ true) × (v : W) × ((list_ids h v).0 ≡ ok ids))
    ⊎ (((a.all || is_nil a.ids) ≡ false) × (ids ≡ a.ids))

pub IsAnswer : {W : Type 0} → Host W → CompareArgs → Outcome → Type 0
unfolding IsStopped IsReport IsChoice
IsAnswer h a r = IsStopped r ⊎ ((ids : List String) × IsChoice h a ids × IsReport ids r)

module _ {W : Type 0} (Q : Outcome → Type 0) (q : (e : String) → Q (stopped_by e)) where
  after_both :
      (r : Option String × W) (next : W → Outcome × W)
      → ((w : W) → Q (next w).0)
      → Q (after r next).0
  unfolding after
  after_both (some e, w) next g = q e
  after_both (none, w) next g = g w

  with_ids_both :
      (r : Result String (List String) × W) (next : List String → W → Outcome × W)
      → ((ids : List String) (w : W) → r.0 ≡ ok ids → Q (next ids w).0)
      → Q (with_ids r next).0
  unfolding with_ids
  with_ids_both (err e, w) next g = q e
  with_ids_both (ok ids, w) next g = g ids w refl

module _ {W : Type 0} (h : Host W) (a : CompareArgs) where
  choice :
      (b : Bool) (w : W) (ids : List String)
      → (a.all || is_nil a.ids) ≡ b
      → (if b then list_ids h w else (ok a.ids, w)).0 ≡ ok ids
      → IsChoice h a ids
  unfolding IsChoice
  choice true w ids c e = inl (c, w, e)
  choice false w ids c e = inr (c, sym (ok_injective e))

  choose_ids-ok : (w : W) (ids : List String) → (choose_ids h a w).0 ≡ ok ids → IsChoice h a ids
  unfolding choose_ids
  choose_ids-ok w ids e = choice (a.all || is_nil a.ids) w ids refl e

  compared-IsReport : (ids : List String) (w : W) → IsReport ids (compared h a ids w).0
  unfolding compared IsReport TallyOf
  compared-IsReport ids w =
      let t = (compare_ids h a ids empty_tally w).0 in
      let i : TallyOf ids t =
        compare_ids-TallyOf h a [] ids empty_tally w (0, refl, refl, refl, refl) in
      ((finish t).0, refl, refl, i, finish-none ids t i)

  -- `scenarioCompare` either stops with the error of what failed before the first comparison, and compares
  -- nothing, or reports on ids, the given ones unless it is asked for all or given none. Then there is
  -- one stage per id, in the order of the ids; `compared` and the comparisons that failed are
  -- together as many as the ids; `differing` counts those and the rows without a match, and is
  -- the number of stages that are not ok; and no error comes back exactly if every id was compared and
  -- every row is a match.
  pub scenario_compare-IsAnswer :
      (core adapter server browser : W → Option String × W) (w : W)
      → IsAnswer h a (scenario_compare h a core adapter server browser w).0
  unfolding scenario_compare IsAnswer
  scenario_compare-IsAnswer core adapter server browser w =
      let no : (e : String) → IsAnswer h a (stopped_by e) = λ e. inl (e, refl, refl, refl) in
      after_both (IsAnswer h a) no (core w) _ (λ w1.
        after_both (IsAnswer h a) no (adapter w1) _ (λ w2.
          with_ids_both (IsAnswer h a) no (choose_ids h a w2) _ (λ ids w3 e.
            after_both (IsAnswer h a) no (server w3) _ (λ w4.
              after_both (IsAnswer h a) no (browser w4) _
                (λ w5. inr (ids, choose_ids-ok w2 ids e, compared-IsReport ids w5))))))
