-- ===== src/Storage/Examples.antt =====
-- Tests of the two replacements of a file.
use game_forge.Prelude.{◌≡◌, ℕ, refl, true, false, none, some}
use game_forge.Storage.{Io, malformed, holds, sync_failed, store, write_checked}

-- The flush to the disk fails.
abbrev no_sync : Io ℕ
no_sync = record {
  dir_ok = true;
  encode_ok = true;
  temp_ok = true;
  write_ok = true;
  torn = malformed;
  sync_ok = false;
  close_ok = true;
  rename_ok = true;
}

store_ignores_sync : store no_sync 2 (holds 1) ≡ (holds 2, none)
unfolding store
store_ignores_sync = refl

write_checked_stops : write_checked no_sync 2 (holds 1) ≡ (holds 1, some sync_failed)
unfolding write_checked
write_checked_stops = refl
