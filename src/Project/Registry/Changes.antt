-- ===== src/Project/Registry/Changes.antt =====
-- What a successful or failed `Add` and `Remove` leave on the disk.
use game_forge.Prelude.{◌≡◌, refl, ◌∙◌, ap, Bool, true, false, List, [], Option, none, some, Text}
use game_forge.Storage.{missing, unreadable, malformed, holds, Io, IoError, store}
use game_forge.Storage.Laws.{store_error_keeps, store_ok}
use game_forge.Project.Registry.{
  Registration, RegistryFile, RegistryDisk, RegistryError, already_registered, read_file, find, put,
  delete, save, saved, add_locked, place, remove_locked, cut_out, removed, find_on,
}

-- The registrations that a reader of the file sees.
abbrev pub contents : RegistryDisk → List Registration
contents missing = []
contents unreadable = []
contents malformed = []
contents (holds f) = f.projects

pub find_on-contents : (disk : RegistryDisk) (c : Text) → find_on disk c ≡ find c (contents disk)
unfolding find_on read_file find
find_on-contents missing c = refl
find_on-contents unreadable c = refl
find_on-contents malformed c = refl
find_on-contents (holds f) c = refl

abbrev Saved : Type 0
Saved = RegistryDisk × Option IoError

pub disk_of_saved : (reg : Registration) (q : Saved) → (saved reg q).0 ≡ q.0
unfolding saved
disk_of_saved reg (disk, none) = refl
disk_of_saved reg (disk, some e) = refl

reg_of_saved : (reg : Registration) (q : Saved) → (saved reg q).1 ≡ some reg
unfolding saved
reg_of_saved reg (disk, none) = refl
reg_of_saved reg (disk, some e) = refl

pub none_of_saved : (reg : Registration) (q : Saved) → (saved reg q).2 ≡ none → q.1 ≡ none
unfolding saved
none_of_saved reg (disk, none) h = refl
none_of_saved reg (disk, some e) h = cc

some_of_saved :
    (reg : Registration) (q : Saved) {e : RegistryError}
    → (saved reg q).2 ≡ some e
    → (x : IoError) × (q.1 ≡ some x)
unfolding saved
some_of_saved reg (disk, none) h = cc
some_of_saved reg (disk, some x) h = (x, refl)

disk_of_removed : (q : Saved) → (removed q).0 ≡ q.0
unfolding removed
disk_of_removed (disk, none) = refl
disk_of_removed (disk, some e) = refl

none_of_removed : (q : Saved) → (removed q).1 ≡ none → q.1 ≡ none
unfolding removed
none_of_removed (disk, none) h = refl
none_of_removed (disk, some e) h = cc

some_of_removed :
    (q : Saved) {e : RegistryError} → (removed q).1 ≡ some e → (x : IoError) × (q.1 ≡ some x)
unfolding removed
some_of_removed (disk, none) h = cc
some_of_removed (disk, some x) h = (x, refl)

module _ (io : Io RegistryFile) (disk : RegistryDisk) where
  -- A store without an error, and without a failed write, shows the new list.
  stored_contents :
      (f : RegistryFile)
      → io.write_ok ≡ true
      → (store io f disk).1 ≡ none
      → contents (store io f disk).0 ≡ f.projects
  stored_contents f w h = ap contents (store_ok io f disk w h)

  save-contents :
      (reg : Registration) (f : RegistryFile)
      → io.write_ok ≡ true
      → (save io reg f disk).2 ≡ none
      → ((save io reg f disk).1 ≡ some reg) × (contents (save io reg f disk).0 ≡ put reg f.projects)
  unfolding save
  save-contents reg f w h =
      let g = record f { projects = put reg f.projects } in
      (
        reg_of_saved reg (store io g disk),
        ap contents (disk_of_saved reg (store io g disk))
            ∙ stored_contents g w (none_of_saved reg (store io g disk) h),
      )

  save_error :
      (reg : Registration) (f : RegistryFile) {e : RegistryError}
      → (save io reg f disk).2 ≡ some e
      → (save io reg f disk).0 ≡ disk
  unfolding save
  save_error reg f h =
      let g = record f { projects = put reg f.projects } in
      let (x, failed) = some_of_saved reg (store io g disk) h in
      disk_of_saved reg (store io g disk) ∙ store_error_keeps io g disk failed

  place_ok :
      (reg : Registration) (replace : Bool) (f : RegistryFile) (found : Option Registration)
      → io.write_ok ≡ true
      → (place io reg replace f disk found).2 ≡ none
      → ((place io reg replace f disk found).1 ≡ some reg)
        × (contents (place io reg replace f disk found).0 ≡ put reg f.projects)
  unfolding place
  place_ok reg replace f none w h = save-contents reg f w h
  place_ok reg true f (some p) w h = save-contents reg f w h
  place_ok reg false f (some p) w h = cc

  place_error :
      (reg : Registration) (replace : Bool) (f : RegistryFile) (found : Option Registration)
      {e : RegistryError}
      → (place io reg replace f disk found).2 ≡ some e
      → (place io reg replace f disk found).0 ≡ disk
  unfolding place
  place_error reg replace f none {e} h = save_error reg f {e = e} h
  place_error reg true f (some p) {e} h = save_error reg f {e = e} h
  place_error reg false f (some p) h = refl

  cut_out_ok :
      (c : Text) (f : RegistryFile) (found : Option Registration)
      → io.write_ok ≡ true
      → (cut_out io c f disk found).1 ≡ none
      → contents (cut_out io c f disk found).0 ≡ delete c f.projects
  unfolding cut_out
  cut_out_ok c f none w h = cc
  cut_out_ok c f (some p) w h =
      let g = record f { projects = delete c f.projects } in
      ap contents (disk_of_removed (store io g disk))
      ∙ stored_contents g w (none_of_removed (store io g disk) h)

  cut_out_error :
      (c : Text) (f : RegistryFile) (found : Option Registration) {e : RegistryError}
      → (cut_out io c f disk found).1 ≡ some e
      → (cut_out io c f disk found).0 ≡ disk
  unfolding cut_out
  cut_out_error c f none h = refl
  cut_out_error c f (some p) h =
      let g = record f { projects = delete c f.projects } in
      let (x, failed) = some_of_removed (store io g disk) h in
      disk_of_removed (store io g disk) ∙ store_error_keeps io g disk failed

abbrev pub empty_file : RegistryFile
empty_file = record { version = 1; projects = [] }

module _ (io : Io RegistryFile) where
  pub add_locked_ok :
      (reg : Registration) (replace : Bool) (disk : RegistryDisk)
      → io.write_ok ≡ true
      → (add_locked io reg replace disk).2 ≡ none
      → ((add_locked io reg replace disk).1 ≡ some reg)
        × (contents (add_locked io reg replace disk).0 ≡ put reg (contents disk))
  unfolding add_locked read_file
  add_locked_ok reg replace missing w h =
      place_ok io missing reg replace empty_file (find reg.code []) w h
  add_locked_ok reg replace unreadable w h = cc
  add_locked_ok reg replace malformed w h = cc
  add_locked_ok reg replace (holds f) w h =
      place_ok io (holds f) reg replace f (find reg.code f.projects) w h

  pub add_locked_error :
      (reg : Registration) (replace : Bool) (disk : RegistryDisk) {e : RegistryError}
      → (add_locked io reg replace disk).2 ≡ some e
      → (add_locked io reg replace disk).0 ≡ disk
  unfolding add_locked read_file
  add_locked_error reg replace missing {e} h =
      place_error io missing reg replace empty_file (find reg.code []) {e = e} h
  add_locked_error reg replace unreadable h = refl
  add_locked_error reg replace malformed h = refl
  add_locked_error reg replace (holds f) {e} h =
      place_error io (holds f) reg replace f (find reg.code f.projects) {e = e} h

  pub add_locked_known :
      (reg p : Registration) (disk : RegistryDisk)
      → find reg.code (contents disk) ≡ some p
      → add_locked io reg false disk ≡ (disk, none, some (already_registered reg.code p.root))
  unfolding add_locked read_file place find
  add_locked_known reg p missing h = cc
  add_locked_known reg p unreadable h = cc
  add_locked_known reg p malformed h = cc
  add_locked_known reg p (holds f) h = rw h refl

  pub remove_locked_ok :
      (c : Text) (disk : RegistryDisk)
      → io.write_ok ≡ true
      → (remove_locked io c disk).1 ≡ none
      → contents (remove_locked io c disk).0 ≡ delete c (contents disk)
  unfolding remove_locked read_file find
  remove_locked_ok c missing w h = cut_out_ok io missing c empty_file (find c []) w h
  remove_locked_ok c unreadable w h = cc
  remove_locked_ok c malformed w h = cc
  remove_locked_ok c (holds f) w h = cut_out_ok io (holds f) c f (find c f.projects) w h

  pub remove_locked_error :
      (c : Text) (disk : RegistryDisk) {e : RegistryError}
      → (remove_locked io c disk).1 ≡ some e
      → (remove_locked io c disk).0 ≡ disk
  unfolding remove_locked read_file find
  remove_locked_error c missing {e} h = cut_out_error io missing c empty_file (find c []) {e = e} h
  remove_locked_error c unreadable h = refl
  remove_locked_error c malformed h = refl
  remove_locked_error c (holds f) {e} h =
      cut_out_error io (holds f) c f (find c f.projects) {e = e} h
