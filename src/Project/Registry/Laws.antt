-- ===== src/Project/Registry/Laws.antt =====
-- What `Add`, `Remove` and `Get` do to one another.
use game_forge.Prelude.{
  ◌≡◌, refl, ◌∙◌, ap, sym, Bool, true, false, none, some, Text, text_eq, ok, arith, if◌then◌else◌,
  Result-cases, inl, inr,
}
use game_forge.Project.Code.{normalize_code}
use game_forge.Project.Key.{Machine}
use game_forge.Project.Manifest.{FilePath}
use game_forge.Storage.{Io}
use game_forge.Project.Registry.{
  Registration, RegistryFile, RegistryDisk, RegistryError, Added, find, put, add, add_locked,
  remove, get, to_register, registration, already_registered,
}
use game_forge.Project.Registry.Entries.{Distinct, find-put, find-delete}
use game_forge.Project.Registry.Changes.{
  contents, find_on-contents, add_locked_ok, add_locked_error, add_locked_known, remove_locked_ok,
}

module _ (w : Machine) (io : Io RegistryFile) where
  pub get_of_code :
      (d c : Text) (disk : RegistryDisk)
      → normalize_code w.upper d ≡ ok c
      → get w d disk ≡ find c (contents disk)
  unfolding get
  get_of_code d c disk e = rw (e, get) (find_on-contents disk c)

  pub add_of_registered :
      (code : Text) (folder : FilePath) (replace : Bool) (disk : RegistryDisk) (reg : Registration)
      → to_register w code folder ≡ ok reg
      → add w io code folder replace disk ≡ add_locked io reg replace disk
  unfolding add
  add_of_registered code folder replace disk reg e = rw (e, add) refl

  pub registered_of_add :
      (code : Text) (folder : FilePath) (replace : Bool) (disk : RegistryDisk)
      → (add w io code folder replace disk).2 ≡ none
      → (reg : Registration) × (to_register w code folder ≡ ok reg)
  unfolding add
  registered_of_add code folder replace disk h = ground arith

  pub contents_after_add :
      (code : Text) (folder : FilePath) (replace : Bool) (disk : RegistryDisk) (reg : Registration)
      → to_register w code folder ≡ ok reg
      → io.write_ok ≡ true
      → (add w io code folder replace disk).2 ≡ none
      → ((add w io code folder replace disk).1 ≡ some reg)
        × (contents (add w io code folder replace disk).0 ≡ put reg (contents disk))
  contents_after_add code folder replace disk reg e wrote h =
      let same = add_of_registered code folder replace disk reg e in
      let (returned, shown) =
        add_locked_ok io reg replace disk wrote (ap (λ (a : Added). a.2) (sym same) ∙ h) in
      (ap (λ (a : Added). a.1) same ∙ returned, ap (λ (a : Added). contents a.0) same ∙ shown)

  -- After an `Add` without an error, whose write was not torn, the registration that it returns is the
  -- one that `Get` finds under every spelling of its code, and under any other code `Get` finds what it
  -- found before.
  add-get :
      (code : Text) (folder : FilePath) (replace : Bool) (disk : RegistryDisk) (d c : Text)
      → io.write_ok ≡ true
      → (add w io code folder replace disk).2 ≡ none
      → normalize_code w.upper d ≡ ok c
      → (reg : Registration) × ((add w io code folder replace disk).1 ≡ some reg)
        × (get w d (add w io code folder replace disk).0
            ≡ (if text_eq reg.code c then some reg else get w d disk))
  add-get code folder replace disk d c wrote h n =
      let (reg, e) = registered_of_add code folder replace disk h in
      let (returned, shown) = contents_after_add code folder replace disk reg e wrote h in
      (
        reg,
        returned,
        get_of_code d c (add w io code folder replace disk).0 n
            ∙ ap (find c) shown
            ∙ find-put reg c (contents disk)
            ∙ ap (λ o. if text_eq reg.code c then some reg else o) (sym (get_of_code d c disk n)),
      )

  -- An `Add` that returns an error leaves the file as it was.
  add_error_keeps :
      (code : Text) (folder : FilePath) (replace : Bool) (disk : RegistryDisk) (e : RegistryError)
      → (add w io code folder replace disk).2 ≡ some e
      → (add w io code folder replace disk).0 ≡ disk
  unfolding add
  add_error_keeps code folder replace disk e h = elim (Result-cases (to_register w code folder)) [
    | inl (x, p) ↦ rw (p, add) refl
    | inr (reg, p) ↦ rw (p, add) (add_locked_error io reg replace disk {e = e} (rw (p, add) at h))
  ]

  pub code_of_registered :
      (code : Text) (folder : FilePath) (reg : Registration)
      → to_register w code folder ≡ ok reg
      → normalize_code w.upper code ≡ ok reg.code
  unfolding to_register registration
  code_of_registered code folder reg h = ground arith

  -- Without `replace`, an `Add` under a code that is taken returns an error and leaves the file as it was,
  -- whatever the folder and the spelling of the code.
  pub add_never_remaps :
      (code : Text) (folder : FilePath) (disk : RegistryDisk) (p : Registration)
      → get w code disk ≡ some p
      → ((add w io code folder false disk).0 ≡ disk)
        × ((e : RegistryError) × ((add w io code folder false disk).2 ≡ some e))
  unfolding add
  add_never_remaps code folder disk p h = elim (Result-cases (to_register w code folder)) [
    | inl (x, e) ↦ rw (e, add) (refl, (x, refl))
    | inr (reg, e) ↦
        let taken =
          add_locked_known io reg p disk
            (sym (get_of_code code reg.code disk (code_of_registered code folder reg e)) ∙ h) in
        (
          rw (e, add) (ap (λ (a : Added). a.0) taken),
          (already_registered reg.code p.root, rw (e, add) (ap (λ (a : Added). a.2) taken)),
        )
  ]

  -- After a `Remove` without an error, whose write was not torn, `Get` finds nothing under the removed
  -- code, and under any other code what it found before, if no two registrations had one code.
  get-remove :
      (code k d c : Text) (disk : RegistryDisk)
      → Distinct (contents disk)
      → io.write_ok ≡ true
      → (remove w io code disk).1 ≡ none
      → normalize_code w.upper code ≡ ok k
      → normalize_code w.upper d ≡ ok c
      → get w d (remove w io code disk).0 ≡ (if text_eq k c then none else get w d disk)
  unfolding remove
  get-remove code k d c disk distinct wrote h nk nc =
      get_of_code d c (remove w io code disk).0 nc
      ∙ rw (nk, remove)
          (ap (find c) (remove_locked_ok io k disk wrote (rw (nk, remove) at h))
            ∙ find-delete k c (contents disk) distinct
            ∙ ap (λ o. if text_eq k c then none else o) (sym (get_of_code d c disk nc)))
