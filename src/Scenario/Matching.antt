-- ===== src/Scenario/Matching.antt =====
-- internal/scenario/scenario.go, checksEqual and Compare: what a match means.
use game_forge.Prelude.{
  ℕ, suc, Bool, true, ◌&&◌, String, ◌==ₛ◌, List, [], ◌∷◌, Option, none, some, lookup, if◌then◌else◌,
  length, ◌≡◌, refl, sym, ap, ◌∙◌, arith, eq_iff, eq_refl, ◌↔◌, Bool-cases, inl, inr, if_both,
  subst,
}
use game_forge.Scenario.{
  Check, Report, same, index, agrees, all_found, checks_equal, matches, has_passed,
}

-- The result of the first check of a name.
verdict : String → List Check → Option Bool
verdict n [] = none
verdict n (c ∷ cs) = if c.name ==ₛ n then some c.passed else verdict n cs

unfoldable pub IsDistinct : List Check → Type 0
unfolding verdict
IsDistinct [] = Unit
IsDistinct (c ∷ cs) = (verdict c.name cs ≡ none) × IsDistinct cs

or_else : Option Bool → Option Bool → Option Bool
or_else none o = o
or_else (some b) o = some b

lookup-index :
    (n : String) (cs : List Check) (m : List (String × Bool))
    → IsDistinct cs
    → lookup n (index cs m) ≡ or_else (verdict n cs) (lookup n m)
unfolding lookup index verdict IsDistinct or_else
lookup-index n [] m d = refl
lookup-index n (c ∷ cs) m d = ground (
  arith,
  lookup-index n cs ((c.name, c.passed) ∷ m) d.1,
  eq_iff c.name n,
  ap (λ x. verdict x cs) ((eq_iff c.name n).0 _),
  d.0,
)

-- The test of the loop, on the list itself.
found : List Check → List Check → Bool
unfolding verdict
found a [] = true
found a (c ∷ cs) = agrees (verdict c.name a) c.passed && found a cs

or_else-none : (o : Option Bool) → or_else o none ≡ o
unfolding or_else
or_else-none none = refl
or_else-none (some b) = refl

all_found-index : (a b : List Check) → IsDistinct a → all_found (index a []) b ≡ found a b
unfolding all_found found lookup or_else
all_found-index a [] d = refl
all_found-index a (c ∷ cs) d =
    ap (λ x. agrees x c.passed && all_found (index a []) cs)
      (lookup-index c.name a [] d ∙ or_else-none (verdict c.name a))
    ∙ ap (λ x. agrees (verdict c.name a) c.passed && x) (all_found-index a cs d)

remove : String → List Check → List Check
remove n [] = []
remove n (c ∷ cs) = let rest = remove n cs in if c.name ==ₛ n then rest else c ∷ rest

verdict-remove :
    (n m : String) (cs : List Check)
    → verdict m (remove n cs) ≡ (if n ==ₛ m then none else verdict m cs)
unfolding verdict remove
verdict-remove n m [] = ground arith
verdict-remove n m (c ∷ cs) =
    ground (arith, verdict-remove n m cs, eq_iff n m, eq_iff c.name n, eq_iff c.name m)

remove_still :
    (n m : String) (cs : List Check) → verdict m cs ≡ none → verdict m (remove n cs) ≡ none
remove_still n m cs h = ground (arith, verdict-remove n m cs, h)

remove-IsDistinct : (n : String) (cs : List Check) → IsDistinct cs → IsDistinct (remove n cs)
unfolding IsDistinct remove
remove-IsDistinct n [] d = tt
remove-IsDistinct n (c ∷ cs) d =
    let rest = remove-IsDistinct n cs d.1 in
    if_both IsDistinct (c.name ==ₛ n) rest (remove_still n c.name cs d.0, rest)

remove_absent : (n : String) (cs : List Check) → verdict n cs ≡ none → remove n cs ≡ cs
unfolding verdict remove
remove_absent n [] h = refl
remove_absent n (c ∷ cs) h = ground (arith, remove_absent n cs, h)

length-remove :
    (n : String) (cs : List Check) {b : Bool}
    → IsDistinct cs
    → verdict n cs ≡ some b
    → length cs ≡ suc (length (remove n cs))
unfolding IsDistinct verdict remove
length-remove n [] {b} d h = cc
length-remove n (c ∷ cs) {b} d h = elim (Bool-cases (c.name ==ₛ n)) [
  | inl p ↦
      ground (
        arith,
        p,
        remove_absent n cs (subst (λ x. verdict x cs ≡ none) ((eq_iff c.name n).0 p) d.0),
      )
  | inr p ↦ ground (
    arith,
    p,
    length-remove n cs d.1 (ap (λ x. if x then some c.passed else verdict n cs) (sym p) ∙ h),
  )
]

found-remove :
    (n : String) (a b : List Check) → verdict n b ≡ none → found (remove n a) b ≡ found a b
unfolding found verdict
found-remove n a [] h = refl
found-remove n a (c ∷ cs) h = elim (Bool-cases (c.name ==ₛ n)) [
  | inl p ↦ ground (arith, p, h)
  | inr p ↦
      let rest =
        found-remove n a cs (ap (λ x. if x then some c.passed else verdict n cs) (sym p) ∙ h) in
      ground (arith, p, rest, verdict-remove n c.name a, eq_iff n c.name, eq_iff c.name n)
]

-- Every name has the same result in both.
pub Agrees : List Check → List Check → Type 0
Agrees a b = (n : String) → verdict n a ≡ verdict n b

agree_off :
    (a b : List Check) (c : Check)
    → IsDistinct (c ∷ b)
    → Agrees a (c ∷ b)
    → Agrees (remove c.name a) b
unfolding Agrees IsDistinct verdict
agree_off a b c d h n = elim (Bool-cases (c.name ==ₛ n)) [
  | inl p ↦ ground (
    arith,
    p,
    verdict-remove c.name n a,
    subst (λ x. verdict x b ≡ none) ((eq_iff c.name n).0 p) d.0,
  )
  | inr p ↦ ground (arith, p, verdict-remove c.name n a, h n)
]

agree_on :
    (a b : List Check) (c : Check)
    → verdict c.name a ≡ some c.passed
    → Agrees (remove c.name a) b
    → Agrees a (c ∷ b)
unfolding Agrees verdict
agree_on a b c v h n = elim (Bool-cases (c.name ==ₛ n)) [
  | inl p ↦ ground (arith, p, subst (λ x. verdict x a ≡ some c.passed) ((eq_iff c.name n).0 p) v)
  | inr p ↦ ground (arith, p, verdict-remove c.name n a, h n)
]

same_iff : (x y : Bool) → (same x y ≡ true) ↔ (x ≡ y)
same_iff x y = ground arith

agrees→eq : (o : Option Bool) (b : Bool) → agrees o b ≡ true → o ≡ some b
agrees→eq none b h = ground (arith, h)
agrees→eq (some x) b h = ap some ((same_iff x b).0 h)

zero_suc : (n : ℕ) → suc n ≡ 0 → ⊥
zero_suc n h = omega (arith, h)

found→Agrees :
    (a b : List Check)
    → IsDistinct a
    → IsDistinct b
    → length a ≡ length b
    → found a b ≡ true
    → Agrees a b
unfolding Agrees found IsDistinct
found→Agrees [] [] da db l f = λ n. refl
found→Agrees (c ∷ cs) [] da db l f = λ n. elim (zero_suc (length cs) l) [ ]
found→Agrees a (c ∷ cs) da db l f =
    let v = agrees→eq (verdict c.name a) c.passed (ground (arith, f)) in
    agree_on a cs c v (
      found→Agrees (remove c.name a) cs (remove-IsDistinct c.name a da) db.1
        (omega (arith, l, length-remove c.name a da v))
        (found-remove c.name a cs db.0 ∙ ground (arith, f)))

Agrees→found :
    (a b : List Check)
    → IsDistinct a
    → IsDistinct b
    → Agrees a b
    → (length a ≡ length b) × (found a b ≡ true)
unfolding Agrees found IsDistinct verdict
Agrees→found [] [] da db h = (refl, refl)
Agrees→found (c ∷ cs) [] da db h = ground (arith, h c.name, eq_refl c.name)
Agrees→found a (c ∷ cs) da db h =
    let v : verdict c.name a ≡ some c.passed = ground (arith, h c.name, eq_refl c.name) in
    let rest =
      Agrees→found (remove c.name a) cs (remove-IsDistinct c.name a da) db.1
        (agree_off a cs c db h) in
    (
      omega (arith, rest.0, length-remove c.name a da v),
      ground (arith, v, sym (found-remove c.name a cs db.0) ∙ rest.1),
    )

checks_equal_iff :
    (a b : List Check) → IsDistinct a → IsDistinct b → (checks_equal a b ≡ true) ↔ Agrees a b
unfolding checks_equal
checks_equal_iff a b da db = (
  λ h.
      found→Agrees a b da db (ground (arith, h)) (sym (all_found-index a b da) ∙ ground (arith, h)),
  λ h.
      let both = Agrees→found a b da db h in
      ground (arith, both.0, all_found-index a b da ∙ both.1),
)

-- For two reports in each of which no two checks have the same name, `res.Match` is true exactly if the
-- digests are the same, both passed or neither did, and every name has in both the same result or none.
pub matches_iff :
    (a b : Report)
    → IsDistinct a.checks
    → IsDistinct b.checks
    → (matches a b ≡ true)
      ↔ ((a.digest ≡ b.digest) × (has_passed a ≡ has_passed b) × Agrees a.checks b.checks)
unfolding matches
matches_iff a b da db =
    let equal = checks_equal_iff a.checks b.checks da db in
    (
      λ h. (
        (eq_iff a.digest b.digest).0 (ground (arith, h)),
        (same_iff (has_passed a) (has_passed b)).0 (ground (arith, h)),
        equal.0 (ground (arith, h)),
      ),
      λ h. ground (arith, (eq_iff a.digest b.digest).1 h.0, h.1, equal.1 h.2),
    )
