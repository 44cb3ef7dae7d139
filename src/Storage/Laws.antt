-- ===== src/Storage/Laws.antt =====
-- What a replacement of a file leaves behind.
use game_forge.Prelude.{◌⊎◌, inl, inr, Option-cases, ◌≡◌, true, false, none, some, arith}
use game_forge.Storage.{Disk, Io, IoError, holds, store, write_checked}

module _ {D : Type 0} (io : Io D) (d : D) (disk : Disk D) where
  write_checked_error :
      {e : IoError} → (write_checked io d disk).1 ≡ some e → (write_checked io d disk).0 ≡ disk
  unfolding write_checked
  write_checked_error h = ground arith

  write_checked_ok : (write_checked io d disk).1 ≡ none → (write_checked io d disk).0 ≡ holds d
  unfolding write_checked
  write_checked_ok h = ground arith

  -- `write_checked` either reports no error, and the path holds the document, or it reports one, and the
  -- path holds what it held, whichever call failed.
  pub write_checked_atomic :
      (((write_checked io d disk).1 ≡ none) × ((write_checked io d disk).0 ≡ holds d))
      ⊎ ((e : IoError) × ((write_checked io d disk).1 ≡ some e)
          × ((write_checked io d disk).0 ≡ disk))
  write_checked_atomic = elim (Option-cases (write_checked io d disk).1) [
    | inl h ↦ inl (h, write_checked_ok h)
    | inr (e, h) ↦ inr (e, h, write_checked_error {e = e} h)
  ]

  -- `store` keeps the old file whenever it reports an error.
  pub store_error_keeps : {e : IoError} → (store io d disk).1 ≡ some e → (store io d disk).0 ≡ disk
  unfolding store
  store_error_keeps h = ground arith

  pub store_ok : io.write_ok ≡ true → (store io d disk).1 ≡ none → (store io d disk).0 ≡ holds d
  unfolding store
  store_ok w h = ground arith

  -- After a failed `Write`, a `store` without an error has put the torn file in place.
  pub store_torn : io.write_ok ≡ false → (store io d disk).1 ≡ none → (store io d disk).0 ≡ io.torn
  unfolding store
  store_torn w h = ground arith
