-- ===== src/Flags/Counts.antt =====
-- `reorder` neither loses nor invents an argument.
use game_forge.Prelude.{
  ℕ, ◌+◌, ◌≡◌, ◌∙◌, ap, Bool, List, [], ◌∷◌, ◌++◌, Text, text_eq, text_eq→eq, arith, if◌then◌else◌,
  Bool-cases, inl, inr,
}
use game_forge.Flags.{
  Groups, terminator, group, joined, reorder, push_flag, push_positional, nothing, is_flag,
  takes_value,
}

one_if_same : Text → Text → ℕ
one_if_same x a = if text_eq a x then 1 else 0

-- How often an argument occurs.
pub count : Text → List Text → ℕ
unfolding one_if_same
count x [] = 0
count x (a ∷ rest) = one_if_same x a + count x rest

-- How often it occurs in the groups, with the terminator.
weight : Text → Groups → ℕ
unfolding count
weight x g =
    count x g.flags + count x g.positionals + (if g.terminated then one_if_same x terminator else 0)

count-append :
    (x : Text) (front back : List Text) → count x (front ++ back) ≡ count x front + count x back
unfolding count
count-append x [] back = omega arith
count-append x (a ∷ rest) back = omega (arith, count-append x rest back)

count-joined : (x : Text) (g : Groups) → count x (joined g) ≡ weight x g
unfolding joined weight count
count-joined x g = elim (Bool-cases g.terminated) [
  | inl e ↦ rw (e) (omega (arith, count-append x g.flags (terminator ∷ g.positionals)))
  | inr e ↦ rw (e) (omega (arith, count-append x g.flags g.positionals))
]

weight-push_flag :
    (x a : Text) (g : Groups) → weight x (push_flag a g) ≡ one_if_same x a + weight x g
unfolding weight count push_flag
weight-push_flag x a g = omega arith

weight-push_positional :
    (x a : Text) (g : Groups) → weight x (push_positional a g) ≡ one_if_same x a + weight x g
unfolding weight count push_positional
weight-push_positional x a g = omega arith

weight-group :
    (bools : Text → Bool) (x : Text) (args : List Text) → weight x (group bools args) ≡ count x args
unfolding group weight count
weight-group bools x [] = omega arith
weight-group bools x (a ∷ []) = elim (Bool-cases (text_eq a terminator)) [
  | inl e ↦ rw (e) (omega (arith, ap (one_if_same x) (text_eq→eq a terminator e)))
  | inr e ↦ elim (Bool-cases (is_flag a)) [
    | inl f ↦ rw (e, f) (weight-push_flag x a nothing)
    | inr f ↦ rw (e, f) (weight-push_positional x a nothing)
  ]
]
weight-group bools x (a ∷ b ∷ rest) = elim (Bool-cases (text_eq a terminator)) [
  | inl e ↦ rw (e) (omega (arith, ap (one_if_same x) (text_eq→eq a terminator e)))
  | inr e ↦ elim (Bool-cases (is_flag a)) [
    | inl f ↦ elim (Bool-cases (takes_value bools a)) [
      | inl v ↦
          rw (e, f, v)
            (weight-push_flag x a (push_flag b (group bools rest))
              ∙ omega (arith, weight-push_flag x b (group bools rest), weight-group bools x rest))
      | inr v ↦
          rw (e, f, v)
            (weight-push_flag x a (group bools (b ∷ rest))
              ∙ omega (arith, weight-group bools x (b ∷ rest)))
    ]
    | inr f ↦
        rw (e, f)
          (weight-push_positional x a (group bools (b ∷ rest))
            ∙ omega (arith, weight-group bools x (b ∷ rest)))
  ]
]

-- Every argument occurs among the reordered arguments as often as among the given ones.
count-reorder :
    (bools : Text → Bool) (x : Text) (args : List Text)
    → count x (reorder bools args) ≡ count x args
unfolding reorder
count-reorder bools x args = count-joined x (group bools args) ∙ weight-group bools x args
