-- ===== src/Storage.antt =====
-- The two ways in which the program replaces a small file of its durable state: write a temporary
-- sibling, then rename it. `Io` says how each system call of one replacement turns out.
pub mod Laws
mod Examples
use game_forge.Prelude.{Bool, true, false, not, Option, none, some, if◌then◌else◌}

-- What a path holds: nothing, a file that cannot be read, one that is no JSON, or a document.
pub data Disk (D : Type 0) : Type 0 where
  missing unreadable malformed : Disk D
  holds : D → Disk D

pub data IoError : Type 0 where
  dir_failed encode_failed temp_failed write_failed sync_failed close_failed rename_failed : IoError
  read_failed parse_failed remove_failed : IoError

-- `torn` is what the temporary file holds after a `Write` that failed half-way.
pub record Io (D : Type 0) : Type 0 where
  pub dir_ok : Bool
  pub encode_ok : Bool
  pub temp_ok : Bool
  pub write_ok : Bool
  pub torn : Disk D
  pub sync_ok : Bool
  pub close_ok : Bool
  pub rename_ok : Bool

module _ {D : Type 0} where
  written : Io D → D → Disk D
  written io d = if io.write_ok then holds d else io.torn

  -- `store` of internal/project/registry.go. The `err` of `Write` and `Sync` is declared by the
  -- `if` and ends with it, so that only `Close` and `Rename` are looked at.
  unfoldable pub store : Io D → D → Disk D → Disk D × Option IoError
  unfolding written
  store io d disk =
      if not io.dir_ok
      then (disk, some dir_failed)
      else if not io.encode_ok
      then (disk, some encode_failed)
      else if not io.temp_ok
      then (disk, some temp_failed)
      else if not io.close_ok
      then (disk, some close_failed)
      else if not io.rename_ok
      then (disk, some rename_failed)
      else (written io d, none)

  -- `Write` of internal/daemon/discovery.go.
  unfoldable pub write_checked : Io D → D → Disk D → Disk D × Option IoError
  unfolding written
  write_checked io d disk =
      if not io.dir_ok
      then (disk, some dir_failed)
      else if not io.encode_ok
      then (disk, some encode_failed)
      else if not io.temp_ok
      then (disk, some temp_failed)
      else if not io.write_ok
      then (disk, some write_failed)
      else if not io.sync_ok
      then (disk, some sync_failed)
      else if not io.close_ok
      then (disk, some close_failed)
      else if not io.rename_ok
      then (disk, some rename_failed)
      else (written io d, none)
