-- ===== src/Daemon/Ownership/Examples.antt =====
-- Tests of the ownership lock, and the theorems about it at concrete inputs.
use game_forge.Prelude.{ℕ, Bool, true, false, [], ◌∷◌, none, some, ok, err, ◌≡◌, refl, arith, ◌==◌}
use game_forge.Daemon.Ownership.{created, exists, pid, absent, acquire, gave_up}
use game_forge.Daemon.Ownership.Race.{
  World, trying, outside, owner, Lock, Reach, two_owners, begin, create, write, at, opened,
  write_pid,
}
use game_forge.Daemon.Ownership.Race.Exclusive.{Quiet, still, more, Quiet-owner}

abbrev alive : ℕ → Bool
alive n = n == 7

-- The file of a dead process is removed, and the next attempt creates the lock.
acquire_stale :
    acquire alive 35000 (
      record { creation = exists; content = pid 5; now = 0 }
      ∷ record { creation = created; content = absent; now = 0 }
      ∷ [])
    ≡ (1, some (ok tt))
unfolding acquire
acquire_stale = refl

acquire_waits :
    (acquire alive 35000 (record { creation = exists; content = pid 7; now = 35001 } ∷ [])).1
    ≡ some (err (gave_up 7))
unfolding acquire
acquire_waits = refl

abbrev two_starters : World
two_starters = record { place = λ p. trying; lock = none }

two_owners_example :
    (u : World) × Reach alive two_starters u × (u.place 7 ≡ owner) × (u.place 9 ≡ owner)
two_owners_example = two_owners alive two_starters 7 9 (λ h. omega arith) refl refl refl

abbrev empty_world : World
empty_world = record { place = λ p. outside; lock = none }

abbrev after_begin : World
after_begin = record { place = at (λ p. outside) 7 trying; lock = none }

begun : Quiet alive empty_world after_begin
begun = more still (begin empty_world 7 refl) tt

abbrev opened_world : World
opened_world = record {
  place = at (at (λ p. outside) 7 trying) 7 opened;
  lock = some (record { creator = 7; is_written = false });
}

abbrev owned_world : World
owned_world = record {
  place = at (at (at (λ p. outside) 7 trying) 7 opened) 7 owner;
  lock = some (record { creator = 7; is_written = true });
}

acquired : Quiet alive empty_world owned_world
unfolding at write_pid
acquired = more (more begun (create after_begin 7 refl refl) tt) (write opened_world 7 refl) tt

Quiet-owner_example : ◌≡◌ {A = ℕ} 7 7 × ((l : Lock) × (owned_world.lock ≡ some l) × (l.creator ≡ 7))
unfolding at
Quiet-owner_example = Quiet-owner 7 7 (λ r. refl) acquired refl refl
