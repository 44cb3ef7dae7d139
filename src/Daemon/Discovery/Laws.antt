-- ===== src/Daemon/Discovery/Laws.antt =====
-- internal/daemon/discovery.go: what a reader finds after a write.
use game_forge.Prelude.{false, none, some, ◌≡◌, ◌⊎◌, inl, inr, ap, ◌∙◌}
use game_forge.Storage.{Disk, holds, Io, IoError}
use game_forge.Storage.Laws.{write_checked_atomic}
use game_forge.Daemon.Discovery.{Discovery, read, write, is_unusable}

read_holds : (d : Discovery) → is_unusable d ≡ false → read (holds d) ≡ some d
unfolding read
read_holds d h = rw h

-- After the write of a usable record either no error is reported and a reader finds that record, or an
-- error is reported and a reader finds what it found before.
read-write :
    (io : Io Discovery) (d : Discovery) (disk : Disk Discovery)
    → is_unusable d ≡ false
    → (((write io d disk).1 ≡ none) × (read (write io d disk).0 ≡ some d))
      ⊎ ((e : IoError) × ((write io d disk).1 ≡ some e) × (read (write io d disk).0 ≡ read disk))
unfolding write
read-write io d disk h = elim (write_checked_atomic io d disk) [
  | inl (ok, e) ↦ inl (ok, ap read e ∙ read_holds d h)
  | inr (x, failed, e) ↦ inr (x, failed, ap read e)
]
