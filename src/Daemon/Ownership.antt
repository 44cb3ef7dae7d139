-- ===== src/Daemon/Ownership.antt =====
-- internal/daemon/server.go, acquireLifetimeLock and OwnershipFree: the file whose existence is the
-- ownership of the daemon's state.
pub mod Race
mod Examples
use game_forge.Prelude.{
  ℕ, Bool, true, false, not, ◌||◌, List, [], ◌∷◌, Option, none, some, Result, ok, err,
  if◌then◌else◌, ltb, ◌==◌ as ◌==ₙ◌, ◌+◌,
}
use game_forge.Polling.{WaitError, timed_out}

-- What a read of the lock finds: no file, a file that cannot be read, or one whose text is a pid, with 0 for
-- any other text.
pub data Content : Type 0 where
  absent unreadable : Content
  pid : ℕ → Content

-- `pid <= 0 || !processAlive(pid)`
is_dead : (ℕ → Bool) → ℕ → Bool
is_dead alive n = n ==ₙ 0 || not (alive n)

-- `OwnershipFree`.
ownership_free : (ℕ → Bool) → Content → Bool
unfolding is_dead
ownership_free alive absent = true
ownership_free alive unreadable = false
ownership_free alive (pid n) = is_dead alive n

-- An attempt to create the lock.
pub data Creation : Type 0 where
  created exists failed : Creation

-- A round of the loop: the attempt, what is read where the file exists (a read that fails gives no pid),
-- and the time of the test.
pub record Round : Type 0 where
  pub creation : Creation
  pub content : Content
  pub now : ℕ

pub data LockError : Type 0 where
  not_created : LockError
  gave_up : ℕ → LockError

read_pid : Content → ℕ
read_pid absent = 0
read_pid unreadable = 0
read_pid (pid n) = n

-- Milliseconds.
abbrev ownership_wait : ℕ
ownership_wait = 35000

-- `acquireLifetimeLock`: the number of files that it has removed, and the result; `none` when the rounds
-- run out first.
unfoldable pub acquire : (ℕ → Bool) → ℕ → List Round → ℕ × Option (Result LockError (Unit {0}))
unfolding is_dead read_pid
acquire alive deadline [] = (0, none)
acquire alive deadline (r ∷ rs) =
    let (removed, later) = acquire alive deadline rs in
    elim r.creation [
      | created ↦ (0, some (ok tt))
      | failed ↦ (0, some (err not_created))
      | exists ↦
          if is_dead alive (read_pid r.content)
          then (removed + 1, later)
          else if ltb deadline r.now
          then (0, some (err (gave_up (read_pid r.content))))
          else (removed, later)
    ]
