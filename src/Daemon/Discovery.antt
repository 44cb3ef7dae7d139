-- ===== src/Daemon/Discovery.antt =====
-- internal/daemon/discovery.go: the file through which clients find the running daemon.
pub mod Laws
use game_forge.Prelude.{
  ℕ, Bool, true, false, ◌||◌, not, String, ◌==ₛ◌, Option, none, some, if◌then◌else◌, Text, is_empty,
  ◌==◌ as ◌==ₙ◌,
}
use game_forge.Prelude.Int.{ℤ, pos}
use game_forge.Storage.{
  Disk, missing, unreadable, malformed, holds, Io, IoError, write_checked, remove_failed,
}

pub record Discovery : Type 0 where
  pub protocol : String
  pub endpoint : String
  pub pid : ℤ
  pub token : Text

abbrev pub protocol_name : String
protocol_name = "game-forge-daemon/v1"

-- `d.PID <= 0`
not_positive : ℤ → Bool
not_positive (pos n) = n ==ₙ 0
not_positive (ℤ.negsuc n) = true

unfoldable pub is_unusable : Discovery → Bool
unfolding not_positive
is_unusable d =
    not (d.protocol ==ₛ protocol_name)
    || d.endpoint ==ₛ ""
    || is_empty d.token
    || not_positive d.pid

-- `Read`: a file that is missing, unreadable, malformed or incomplete counts as none.
unfoldable pub read : Disk Discovery → Option Discovery
unfolding is_unusable
read missing = none
read unreadable = none
read malformed = none
read (holds d) = if is_unusable d then none else some d

-- `Write`.
unfoldable pub write : Io Discovery → Discovery → Disk Discovery → Disk Discovery × Option IoError
unfolding write_checked
write = write_checked

-- `Remove`; the flag says whether unlinking succeeds.
unfoldable pub remove : Bool → Disk Discovery → Disk Discovery × Option IoError
remove unlinks missing = (missing, none)
remove unlinks disk = if unlinks then (missing, none) else (disk, some remove_failed)
