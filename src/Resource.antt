-- ===== src/Resource.antt =====
-- internal/process/resource.go: the durable registry of the external resources that the program owns. The
-- directory is the state; the mutex makes every operation one step. A time is a number, zero the zero time.
pub mod Files
pub mod Housekeeping
pub mod Servers
mod Examples
use game_forge.Prelude.{
  ℕ, Bool, true, false, not, ◌&&◌, String, ◌==ₛ◌, List, [], ◌∷◌, Option, none, some, Result, ok,
  err, ltb, leb, ◌==◌ as ◌==ₙ◌, if◌then◌else◌, lookup,
}
use game_forge.Prelude.Int.{ℤ}
use game_forge.Storage.{
  Io, IoError, temp_failed, write_failed, close_failed, rename_failed, read_failed, parse_failed,
  remove_failed,
}

pub record Resource : Type 0 where
  pub id : String
  pub run_id : String
  pub project : String
  pub project_key : String
  pub kind : String
  pub provider : String
  pub namespace : String
  pub pid : ℤ
  pub host : String
  pub created : ℕ
  pub expires : ℕ
  pub metadata : List (String × String)

-- The files "<name>.json" of the directory: a name, and the record in the file if it is one.
abbrev pub Files : Type 0
Files = List (String × Option Resource)

-- What the registry calls: `arrange` is the order in which `sort.Slice` leaves the records by creation
-- time, `removes` whether a file can be unlinked, `lists` whether the directory can be read.
pub record Host : Type 0 where
  pub arrange : List Resource → List Resource
  pub lists : Bool
  pub removes : String → Bool
  pub closes_browser : String → Bool

pub data RegisterError : Type 0 where
  no_id no_kind no_provider : RegisterError
  io_failed : IoError → RegisterError

abbrev pub kind_browser : String
kind_browser = "browser"

abbrev pub kind_server : String
kind_server = "server"

pub expired : ℕ → Resource → Bool
expired now r = not (r.expires ==ₙ 0) && leb r.expires now

-- A file is replaced, or comes into being.
put_file : String → Option Resource → Files → Files
put_file n c [] = (n, c) ∷ []
put_file n c ((m, d) ∷ fs) = if m ==ₛ n then (n, c) ∷ fs else (m, d) ∷ put_file n c fs

unfoldable pub drop_file : String → Files → Files
drop_file n [] = []
drop_file n ((m, d) ∷ fs) = if m ==ₛ n then drop_file n fs else (m, d) ∷ drop_file n fs

-- The end of `Register`: a temporary file of its own, then a rename.
commit : Io Resource → Resource → Files → Files × Option RegisterError
unfolding put_file
commit io r fs =
    if not io.temp_ok
    then (fs, some (io_failed temp_failed))
    else if not io.write_ok
    then (fs, some (io_failed write_failed))
    else if not io.close_ok
    then (fs, some (io_failed close_failed))
    else if not io.rename_ok
    then (fs, some (io_failed rename_failed))
    else (put_file r.id (some r) fs, none)

pub register : Io Resource → ℕ → Resource → Files → Files × Option RegisterError
unfolding commit
register io now r fs =
    if r.id ==ₛ ""
    then (fs, some no_id)
    else if r.kind ==ₛ ""
    then (fs, some no_kind)
    else if r.provider ==ₛ ""
    then (fs, some no_provider)
    else commit io (if r.created ==ₙ 0 then record r { created = now } else r) fs

parsed : Option Resource → Result IoError Resource
parsed none = err parse_failed
parsed (some r) = ok r

pub get : String → Files → Result IoError Resource
unfolding parsed lookup
get n fs = elim (lookup n fs) [ none ↦ err read_failed | some c ↦ parsed c ]

-- The records that `List` finds, before it sorts them.
pub records : Files → List Resource
records [] = []
records ((n, none) ∷ fs) = records fs
records ((n, some r) ∷ fs) = r ∷ records fs

unfoldable pub list : Host → Files → Result IoError (List Resource)
unfolding records
list h fs = if h.lists then ok (h.arrange (records fs)) else err read_failed

unfoldable pub remove : Host → String → Files → Files × Option IoError
unfolding drop_file
remove h n fs = if h.removes n then (drop_file n fs, none) else (fs, some remove_failed)

pub filter_expired : ℕ → List Resource → List Resource
unfolding expired
filter_expired now [] = []
filter_expired now (r ∷ rs) =
    if expired now r then r ∷ filter_expired now rs else filter_expired now rs

-- `Expired`
unfoldable pub expired_resources : Host → ℕ → Files → Result IoError (List Resource)
unfolding filter_expired list
expired_resources h now fs = elim (list h fs) [ err e ↦ err e | ok rs ↦ ok (filter_expired now rs) ]
