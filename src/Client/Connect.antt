-- ===== src/Client/Connect.antt =====
-- internal/client/client.go and start.go: how a client finds the running daemon or starts one. What a
-- probe, the lock file and the clock show in each round of a loop is an argument.
pub mod Rounds
use game_forge.Prelude.{
  ℕ, ◌+◌, Bool, true, false, ◌&&◌, List, [], ◌∷◌, Option, none, some, Result, ok, err,
  if◌then◌else◌, ltb, text_eq, Text, codes, ◌||◌, ◌==◌ as ◌==ₙ◌,
}
use game_forge.Storage.{Disk}
use game_forge.Daemon.Discovery.{Discovery, read}
use game_forge.Polling.{Round, WaitError, timed_out, canceled, wait_until}
use game_forge.Client.{Sent, unencodable, no_answer, answered}

-- The answer to /health: its status, and the `ok` of its body if that can be decoded.
pub record HealthReply : Type 0 where
  pub status : ℕ
  pub ok_flag : Option Bool

pub healthy : Sent HealthReply → Bool
healthy (unencodable m) = false
healthy (no_answer m) = false
healthy (answered r) = r.status ==ₙ 200 && elim r.ok_flag [ some b ↦ b | none ↦ false ]

-- `Connect`: the published record, if its daemon answers the health check.
connect : Disk Discovery → (Discovery → Sent HealthReply) → Option Discovery
unfolding read healthy
connect disk probe = elim (read disk) [
  | none ↦ none
  | some d ↦ if healthy (probe d) then some d else none
]

pub data StartError : Type 0 where
  waited : WaitError → StartError
  lock_error spawn_error : StartError

-- `acquireLock`: the lock was created, another starter holds it, or the call failed.
pub data Attempt : Type 0 where
  acquired held failed : Attempt

-- Milliseconds.
abbrev startup_timeout : ℕ
startup_timeout = 30000

abbrev lock_stale_after : ℕ
lock_stale_after = 30000

-- A round of the loop of `start`: what Connect finds, the attempt on the lock, the age of a lock that can
-- be looked at, the time, and whether the context is done.
pub record StartRound : Type 0 where
  pub found : Option Discovery
  pub attempt : Attempt
  pub age : Option ℕ
  pub now : ℕ
  pub done : Bool

unfoldable pub is_stale : Option ℕ → Bool
is_stale none = false
is_stale (some age) = ltb lock_stale_after age

-- The result of waiting for a daemon that was spawned.
as_start : Option (Result WaitError Discovery) → Option (Result StartError Discovery)
as_start none = none
as_start (some (ok d)) = some (ok d)
as_start (some (err e)) = some (err (waited e))

-- `spawnAndWait` from the time of the spawn; `spawns` says whether the process could be started.
spawn_and_wait : Bool → ℕ → List (Round Discovery) → Option (Result StartError Discovery)
unfolding wait_until as_start
spawn_and_wait spawns t rounds =
    if spawns then as_start (wait_until (t + startup_timeout) rounds) else some (err spawn_error)

-- The loop of `start`; `none` when the rounds run out first.
unfoldable pub start_loop :
    Option (Result StartError Discovery)
    → ℕ
    → List StartRound
    → Option (Result StartError Discovery)
unfolding is_stale
start_loop spawned deadline [] = none
start_loop spawned deadline (r ∷ rs) =
    let later = start_loop spawned deadline rs in
    elim r.found [
      | some d ↦ some (ok d)
      | none ↦ elim r.attempt [
        | acquired ↦ spawned
        | failed ↦ some (err lock_error)
        | held ↦
            if is_stale r.age
            then later
            else if ltb deadline r.now
            then some (err (waited timed_out))
            else if r.done
            then some (err (waited canceled))
            else later
      ]
    ]

-- `start`, begun at `t`.
pub start :
    Option (Result StartError Discovery)
    → ℕ
    → List StartRound
    → Option (Result StartError Discovery)
unfolding start_loop
start spawned t rounds = start_loop spawned (t + startup_timeout) rounds

-- `Ensure`.
ensure :
    Option Discovery
    → Option (Result StartError Discovery)
    → ℕ
    → List StartRound
    → Option (Result StartError Discovery)
unfolding start
ensure (some d) spawned t rounds = some (ok d)
ensure none spawned t rounds = start spawned t rounds
