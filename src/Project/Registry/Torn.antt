-- ===== src/Project/Registry/Torn.antt =====
-- A write that fails half-way, for example on a full disk.
use game_forge.Prelude.{
  [], ◌≡◌, refl, ◌∙◌, ap, sym, Bool, true, false, Option, none, some, Text, Result-cases, inl, inr,
}
use game_forge.Project.Code.{normalize_code}
use game_forge.Project.Key.{Machine}
use game_forge.Project.Manifest.{FilePath}
use game_forge.Storage.{missing, unreadable, malformed, holds, Io, store}
use game_forge.Storage.Laws.{store_torn}
use game_forge.Project.Registry.{
  Registration, RegistryFile, RegistryDisk, Added, put, find, save, place, add_locked, add, get,
  find_on, read_file,
}
use game_forge.Project.Registry.Changes.{empty_file, disk_of_saved, none_of_saved}
use game_forge.Project.Registry.Laws.{registered_of_add, add_of_registered}

module _ (io : Io RegistryFile) (torn : io.write_ok ≡ false) where
  save_torn :
      (disk : RegistryDisk) (reg : Registration) (f : RegistryFile)
      → (save io reg f disk).2 ≡ none
      → (save io reg f disk).0 ≡ io.torn
  unfolding save
  save_torn disk reg f h =
      let g = record f { projects = put reg f.projects } in
      disk_of_saved reg (store io g disk)
      ∙ store_torn io g disk torn (none_of_saved reg (store io g disk) h)

  place_torn :
      (disk : RegistryDisk) (reg : Registration) (replace : Bool) (f : RegistryFile)
      (found : Option Registration)
      → (place io reg replace f disk found).2 ≡ none
      → (place io reg replace f disk found).0 ≡ io.torn
  unfolding place
  place_torn disk reg replace f none h = save_torn disk reg f h
  place_torn disk reg true f (some p) h = save_torn disk reg f h
  place_torn disk reg false f (some p) h = cc

  add_locked_torn :
      (reg : Registration) (replace : Bool) (disk : RegistryDisk)
      → (add_locked io reg replace disk).2 ≡ none
      → (add_locked io reg replace disk).0 ≡ io.torn
  unfolding add_locked read_file
  add_locked_torn reg replace missing h =
      place_torn missing reg replace empty_file (find reg.code []) h
  add_locked_torn reg replace unreadable h = cc
  add_locked_torn reg replace malformed h = cc
  add_locked_torn reg replace (holds f) h =
      place_torn (holds f) reg replace f (find reg.code f.projects) h

get_of_malformed : (w : Machine) (d : Text) → get w d malformed ≡ none
unfolding get find_on read_file
get_of_malformed w d = elim (Result-cases (normalize_code w.upper d)) [
  | inl (x, e) ↦ rw (e, get) refl
  | inr (c, e) ↦ rw (e, get) refl
]

-- If the `Write` of an `Add` fails and what it wrote is no JSON, then an `Add` that returns no error has
-- lost the registry: `Get` finds nothing under any code, the one just added included.
add_loses_registry :
    (w : Machine) (io : Io RegistryFile) (code : Text) (folder : FilePath) (replace : Bool)
    (disk : RegistryDisk)
    → io.write_ok ≡ false
    → io.torn ≡ malformed
    → (add w io code folder replace disk).2 ≡ none
    → (d : Text) → get w d (add w io code folder replace disk).0 ≡ none
add_loses_registry w io code folder replace disk torn left h d =
    let (reg, e) = registered_of_add w io code folder replace disk h in
    let same = add_of_registered w io code folder replace disk reg e in
    ap (λ (a : Added). get w d a.0) same
    ∙ ap (get w d)
        (add_locked_torn io torn reg replace disk (ap (λ (a : Added). a.2) (sym same) ∙ h) ∙ left)
    ∙ get_of_malformed w d
