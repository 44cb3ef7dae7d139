-- ===== src/Polling.antt =====
-- The waiting loops of internal/client/start.go, internal/lifecycle/lifecycle.go and
-- internal/server/server.go: look until something
-- is seen, the deadline has passed or the context is done. A loop is run over what its rounds find; the
-- clock is a number of milliseconds.
use game_forge.Prelude.{
  ℕ, zero, suc, ◌+◌, ◌*◌, ◌≤◌, ◌<◌, Bool, true, not, List, [], ◌∷◌, Option, none, some, Result, ok,
  err, ◌≡◌, arith, if◌then◌else◌, ltb, length, Bool-cases, Option-cases, inl, inr, ◌⊎◌,
}

pub data WaitError : Type 0 where
  timed_out canceled : WaitError

-- A round: the time of its test, what it sees if the deadline has not passed, and whether the context is
-- done before the next.
pub record Round (A : Type 0) : Type 0 where
  pub now : ℕ
  pub seen : Option A
  pub done : Bool

ltb→lt : (a b : ℕ) → ltb a b ≡ true → a < b
ltb→lt a b h = ground arith

-- One round less, and one pause later.
next_round :
    (deadline pause t now n : ℕ)
    → t ≤ now
    → deadline + pause ≤ t + pause * suc n
    → deadline + pause ≤ now + pause + pause * n
next_round deadline pause t now n h enough = grind arith

left_over :
    (deadline pause t now n : ℕ)
    → t ≤ now
    → now < deadline
    → deadline + pause ≤ t + pause * suc n
    → 0 < n
left_over deadline pause t now zero h early enough = absurd (grind arith)
left_over deadline pause t now (suc n) h early enough = omega arith

module _ {A : Type 0} where
  -- `for time.Now().Before(deadline) { ... }`; `none` when the rounds run out first.
  unfoldable pub wait_until : ℕ → List (Round A) → Option (Result WaitError A)
  wait_until deadline [] = none
  wait_until deadline (r ∷ rs) =
      let later = wait_until deadline rs in
      if not (ltb r.now deadline) then some (err timed_out) else elim r.seen [
        | some a ↦ some (ok a)
        | none ↦ if r.done then some (err canceled) else later
      ]

  -- Each round begins at least `pause` after the one before it.
  abbrev pub Advances : ℕ → ℕ → List (Round A) → Type 0
  Advances pause t [] = Unit
  Advances pause t (r ∷ rs) = (t ≤ r.now) × Advances pause (r.now + pause) rs

  -- Rounds that take up the whole time bring the loop to an end.
  pub wait_until_ends :
      (deadline pause t : ℕ) (rs : List (Round A))
      → Advances pause t rs
      → 0 < length rs
      → deadline + pause ≤ t + pause * length rs
      → (r : Result WaitError A) × (wait_until deadline rs ≡ some r)
  unfolding wait_until
  wait_until_ends deadline pause t [] h some_round enough = absurd (omega arith)
  wait_until_ends deadline pause t (r ∷ rs) h some_round enough =
      elim (Bool-cases (ltb r.now deadline)) [
        | inr late ↦ (err timed_out, ground arith)
        | inl early ↦ elim (Option-cases r.seen) [
          | inr (a, s) ↦ (ok a, ground arith)
          | inl s ↦ elim (Bool-cases r.done) [
            | inl d ↦ (err canceled, ground arith)
            | inr d ↦
                let (out, later) =
                  wait_until_ends deadline pause (r.now + pause) rs h.1
                    (left_over deadline pause t r.now (length rs) h.0 (ltb→lt _ _ early) enough)
                    (next_round deadline pause t r.now (length rs) h.0 enough) in
                (out, ground arith)
          ]
        ]
      ]

  -- A round of the list that saw the value in time.
  abbrev pub SeenIn : ℕ → A → List (Round A) → Type 0
  SeenIn deadline a [] = ⊥
  SeenIn deadline a (r ∷ rs) = ((r.now < deadline) × (r.seen ≡ some a)) ⊎ SeenIn deadline a rs

  pub wait_until-SeenIn :
      (deadline : ℕ) (rs : List (Round A)) (a : A)
      → wait_until deadline rs ≡ some (ok a)
      → SeenIn deadline a rs
  unfolding wait_until
  wait_until-SeenIn deadline [] a h = ground arith
  wait_until-SeenIn deadline (r ∷ rs) a h = elim (Bool-cases (ltb r.now deadline)) [
    | inr e ↦ ground arith
    | inl e ↦ elim (Option-cases r.seen) [
      | inr (b, s) ↦ inl (ground arith, ground arith)
      | inl s ↦ inr (wait_until-SeenIn deadline rs a (ground arith))
    ]
  ]
