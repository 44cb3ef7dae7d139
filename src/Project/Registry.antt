-- ===== src/Project/Registry.antt =====
-- internal/project/registry.go: the durable map from project codes to project roots. Every operation
-- reads the file anew, so the file is the whole state; the mutex makes each operation one step.
pub mod Entries
pub mod Laws
pub mod Invariant
pub mod Torn
pub mod Changes
pub mod Resolution
mod Examples
use game_forge.Prelude.{
  Bool, true, false, not, ◌&&◌, ◌||◌, ℕ, List, [], ◌∷◌, ◌++◌, Option, none, some, Text, text_eq,
  Result, ok, err, ltb, ◌==◌, ◌>>=◌, if◌then◌else◌,
}
use game_forge.Project.Code.{CodeError, normalize_code}
use game_forge.Project.Key.{Machine, canonical_root, key_for}
use game_forge.Project.Manifest.{FilePath, Manifest, LoadError, has, load, discover_and_load}
use game_forge.Storage.{
  Disk, missing, unreadable, malformed, holds, Io, IoError, read_failed, parse_failed, store,
}

pub record Registration : Type 0 where
  pub code : Text
  pub root : FilePath
  pub project_id : Text
  pub project_key : Text

pub record RegistryFile : Type 0 where
  pub version : ℕ
  pub projects : List Registration

abbrev pub RegistryDisk : Type 0
RegistryDisk = Disk RegistryFile

pub data RegistryError : Type 0 where
  bad_code : CodeError → RegistryError
  bad_project : LoadError → RegistryError
  already_registered : Text → FilePath → RegistryError
  not_registered : Text → RegistryError
  io_failed : IoError → RegistryError

pub read_file : RegistryDisk → Result IoError RegistryFile
read_file missing = ok (record { version = 1; projects = [] })
read_file unreadable = err read_failed
read_file malformed = err parse_failed
read_file (holds f) = ok f

-- The first registration under a code.
pub find : Text → List Registration → Option Registration
find c [] = none
find c (p ∷ ps) = if text_eq p.code c then some p else find c ps

-- The first registration with the code is replaced, or the new one appended.
pub put : Registration → List Registration → List Registration
put reg [] = reg ∷ []
put reg (p ∷ ps) = if text_eq p.code reg.code then reg ∷ ps else p ∷ put reg ps

pub delete : Text → List Registration → List Registration
delete c [] = []
delete c (p ∷ ps) = if text_eq p.code c then ps else p ∷ delete c ps

registration : Machine → Text → Manifest → Registration
registration w c m = record {
  code = c;
  root = canonical_root w.files m.root;
  project_id = m.project_id;
  project_key = key_for w m;
}

-- The part of `Add` that comes before the lock.
pub to_register : Machine → Text → FilePath → Result RegistryError Registration
unfolding registration
to_register w code folder = elim (normalize_code w.upper code) [
  | err e ↦ err (bad_code e)
  | ok c ↦ elim (discover_and_load w.files folder) [
    | err e ↦ err (bad_project e)
    | ok m ↦ ok (registration w c m)
  ]
]

-- The state after an operation, and the two values that `Add` returns.
abbrev pub Added : Type 0
Added = RegistryDisk × Option Registration × Option RegistryError

pub saved : Registration → RegistryDisk × Option IoError → Added
saved reg (disk, none) = (disk, some reg, none)
saved reg (disk, some e) = (disk, some reg, some (io_failed e))

pub save : Io RegistryFile → Registration → RegistryFile → RegistryDisk → Added
unfolding put saved
save io reg f disk = saved reg (store io (record f { projects = put reg f.projects }) disk)

-- What the loop of `Add` found decides: a new code is appended, a known one replaced on request.
place :
    Io RegistryFile
    → Registration
    → Bool
    → RegistryFile
    → RegistryDisk
    → Option Registration
    → Added
unfolding save
place io reg replace f disk none = save io reg f disk
place io reg replace f disk (some p) =
    if replace then save io reg f disk else (disk, none, some (already_registered reg.code p.root))

-- The part of `Add` under the lock.
pub add_locked : Io RegistryFile → Registration → Bool → RegistryDisk → Added
unfolding read_file find place
add_locked io reg replace disk = elim (read_file disk) [
  | err e ↦ (disk, none, some (io_failed e))
  | ok f ↦ place io reg replace f disk (find reg.code f.projects)
]

pub add : Machine → Io RegistryFile → Text → FilePath → Bool → RegistryDisk → Added
unfolding to_register add_locked
add w io code folder replace disk = elim (to_register w code folder) [
  | err e ↦ (disk, none, some e)
  | ok reg ↦ add_locked io reg replace disk
]

removed : RegistryDisk × Option IoError → RegistryDisk × Option RegistryError
removed (disk, none) = (disk, none)
removed (disk, some e) = (disk, some (io_failed e))

cut_out :
    Io RegistryFile
    → Text
    → RegistryFile
    → RegistryDisk
    → Option Registration
    → RegistryDisk × Option RegistryError
unfolding delete removed
cut_out io c f disk none = (disk, some (not_registered c))
cut_out io c f disk (some p) = removed (store io (record f { projects = delete c f.projects }) disk)

pub remove_locked : Io RegistryFile → Text → RegistryDisk → RegistryDisk × Option RegistryError
unfolding read_file find cut_out
remove_locked io c disk = elim (read_file disk) [
  | err e ↦ (disk, some (io_failed e))
  | ok f ↦ cut_out io c f disk (find c f.projects)
]

pub remove : Machine → Io RegistryFile → Text → RegistryDisk → RegistryDisk × Option RegistryError
unfolding remove_locked
remove w io code disk = elim (normalize_code w.upper code) [
  | err e ↦ (disk, some (bad_code e))
  | ok c ↦ remove_locked io c disk
]

pub find_on : RegistryDisk → Text → Option Registration
unfolding read_file find
find_on disk c = elim (read_file disk) [ err e ↦ none | ok f ↦ find c f.projects ]

pub get : Machine → Text → RegistryDisk → Option Registration
unfolding find_on
get w code disk = elim (normalize_code w.upper code) [ err e ↦ none | ok c ↦ find_on disk c ]

-- `<` on Go strings.
text_lt : Text → Text → Bool
text_lt [] [] = false
text_lt [] (b ∷ t) = true
text_lt (a ∷ s) [] = false
text_lt (a ∷ s) (b ∷ t) = ltb a b || (a == b && text_lt s t)

insert_by_code : Registration → List Registration → List Registration
unfolding text_lt
insert_by_code r [] = r ∷ []
insert_by_code r (p ∷ ps) = if text_lt p.code r.code then p ∷ insert_by_code r ps else r ∷ p ∷ ps

-- sort.Slice by code
sort_by_code : List Registration → List Registration
unfolding insert_by_code
sort_by_code [] = []
sort_by_code (p ∷ ps) = insert_by_code p (sort_by_code ps)

pub list : RegistryDisk → List Registration
unfolding read_file sort_by_code
list disk = elim (read_file disk) [ err e ↦ [] | ok f ↦ sort_by_code f.projects ]

-- The wire codes of a `LookupError`.
pub data LookupError : Type 0 where
  unknown_project project_unavailable project_changed : LookupError

-- The checks of `Resolve` on the registration that it found.
verify : Machine → Registration → Result LookupError FilePath
verify w reg =
    if not (w.files.dir_at reg.root)
    then err project_unavailable
    else elim (load w.files reg.root) [
      | err e ↦ err project_unavailable
      | ok m ↦
          if text_eq m.project_id reg.project_id && text_eq (key_for w m) reg.project_key
          then ok reg.root
          else err project_changed
    ]

verify_found : Machine → Option Registration → Result LookupError FilePath
unfolding verify
verify_found w none = err unknown_project
verify_found w (some reg) = verify w reg

unfoldable pub resolve : Machine → Text → RegistryDisk → Result LookupError FilePath
unfolding get verify_found
resolve w code disk = elim (normalize_code w.upper code) [
  | err e ↦ err unknown_project
  | ok c ↦ verify_found w (get w c disk)
]
