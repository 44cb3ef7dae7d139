-- ===== src/Client/Connect/Rounds.antt =====
-- internal/client/start.go: when the loop of `start` comes to an end.
use game_forge.Prelude.{
  ℕ, zero, suc, ◌+◌, ◌*◌, ◌≤◌, ◌<◌, true, false, List, [], ◌∷◌, Option, none, some, Result, err,
  ◌≡◌, refl, arith, All, length, if◌then◌else◌, ◌∙◌, Bool-cases, inl, inr, ltb,
}
use game_forge.Daemon.Discovery.{Discovery}
use game_forge.Polling.{timed_out, canceled}
use game_forge.Client.Connect.{StartRound, StartError, waited, held, is_stale, start_loop}

-- Another starter holds a lock that is not stale, and no daemon answers.
abbrev IsWaiting : StartRound → Type 0
IsWaiting r = (r.found ≡ none) × (r.attempt ≡ held) × (is_stale r.age ≡ false)

-- Another starter's lock is stale, and no daemon answers.
abbrev pub IsStuck : StartRound → Type 0
IsStuck r = (r.found ≡ none) × (r.attempt ≡ held) × (is_stale r.age ≡ true)

-- Each round begins at least `pause` after the one before it.
abbrev Later : ℕ → ℕ → List StartRound → Type 0
Later pause t [] = Unit
Later pause t (r ∷ rs) = (t ≤ r.now) × Later pause (r.now + pause) rs

round_gone :
    (deadline pause t now n : ℕ)
    → t ≤ now
    → deadline + pause < t + pause * suc n
    → deadline + pause < now + pause + pause * n
round_gone deadline pause t now n h enough = grind arith

round_left :
    (deadline pause t now n : ℕ)
    → t ≤ now
    → ltb deadline now ≡ false
    → deadline + pause < t + pause * suc n
    → 0 < n
round_left deadline pause t now zero h early enough = absurd (ground arith)
round_left deadline pause t now (suc n) h early enough = omega arith

waiting_round :
    (spawned : Option (Result StartError Discovery)) (deadline : ℕ) (r : StartRound)
    (rs : List StartRound)
    → IsWaiting r
    → start_loop spawned deadline (r ∷ rs) ≡ (
        if ltb deadline r.now
        then some (err (waited timed_out))
        else if r.done
        then some (err (waited canceled))
        else start_loop spawned deadline rs)
unfolding start_loop
waiting_round spawned deadline r rs w = ground arith

-- While another starter's lock is fresh the loop ends with an error, once its rounds go past the
-- deadline.
pub start_loop_ends :
    (spawned : Option (Result StartError Discovery)) (deadline pause t : ℕ) (rs : List StartRound)
    → All IsWaiting rs
    → Later pause t rs
    → 0 < length rs
    → deadline + pause < t + pause * length rs
    → (e : StartError) × (start_loop spawned deadline rs ≡ some (err e))
unfolding start_loop
start_loop_ends spawned deadline pause t [] w h some_round enough = absurd (omega arith)
start_loop_ends spawned deadline pause t (r ∷ rs) w h some_round enough =
    let wait = waiting_round spawned deadline r rs w.0 in
    elim (Bool-cases (ltb deadline r.now)) [
      | inl late ↦ (waited timed_out, wait ∙ rw late)
      | inr early ↦ elim (Bool-cases r.done) [
        | inl d ↦ (waited canceled, wait ∙ rw (early, d))
        | inr d ↦
            let (e, later) =
              start_loop_ends spawned deadline pause (r.now + pause) rs w.1 h.1
                (round_left deadline pause t r.now (length rs) h.0 early enough)
                (round_gone deadline pause t r.now (length rs) h.0 enough) in
            (e, wait ∙ rw (early, d) later)
      ]
    ]

-- A lock that stays stale, since it cannot be removed, keeps the loop going past every deadline.
start_loop_stuck :
    (spawned : Option (Result StartError Discovery)) (deadline : ℕ) (rs : List StartRound)
    → All IsStuck rs
    → start_loop spawned deadline rs ≡ none
unfolding start_loop
start_loop_stuck spawned deadline [] h = refl
start_loop_stuck spawned deadline (r ∷ rs) h = ground (arith, start_loop_stuck spawned deadline rs)
