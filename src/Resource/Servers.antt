-- ===== src/Resource/Servers.antt =====
-- internal/core/core.go and internal/server/server.go: whose server a record is, and what is done with it.
pub mod Ensure
pub mod Own
use game_forge.Prelude.{
  ℕ, ◌+◌, Bool, true, false, not, ◌&&◌, ◌||◌, String, ◌==ₛ◌, List, [], ◌∷◌, Option, none, some,
  Result, ok, err, ltb, if◌then◌else◌, lookup, has,
}
use game_forge.Prelude.Int.{ℤ}
use game_forge.Storage.{Io, IoError}
use game_forge.Resource.{Resource, Files, Host, kind_server, register, remove, list}
use game_forge.Resource.Housekeeping.{Act, killed}

-- `ownsResource`
pub owns_resource : Resource → String → String → Bool
owns_resource r key id = if r.project_key ==ₛ "" then r.project ==ₛ id else r.project_key ==ₛ key

-- r.Metadata[k] is the empty text when the key is missing.
metadata_is : Resource → String → String → Bool
unfolding lookup
metadata_is r k x = elim (lookup k r.metadata) [ none ↦ x ==ₛ "" | some y ↦ y ==ₛ x ]

-- The test of both loops below.
pub is_own_server : String → String → String → Resource → Bool
unfolding metadata_is
is_own_server name key id r =
    r.kind ==ₛ kind_server && metadata_is r "name" name && owns_resource r key id

refresh_all : Io Resource → ℕ → ℕ → String → String → String → List Resource → Files → Files
unfolding is_own_server register
refresh_all io now lease name key id [] fs = fs
refresh_all io now lease name key id (r ∷ rs) fs = refresh_all io now lease name key id rs (
    if is_own_server name key id r
    then (register io now (record r { expires = now + lease }) fs).0
    else fs)

-- `refreshServerLease` for a readable manifest with the project's id.
refresh_server_lease : Host → Io Resource → ℕ → ℕ → String → String → String → Files → Files
unfolding refresh_all
refresh_server_lease h io now lease name key id fs =
    if ltb 0 lease
    then elim (list h fs) [ err e ↦ fs | ok rs ↦ refresh_all io now lease name key id rs fs ]
    else fs

-- What `stopNamedServer` answers, with the signals that it sent.
pub record Stopped : Type 0 where
  pub files : Files
  pub acts : List Act
  pub target : Option Resource
  pub error : Option IoError

stop_first : Host → String → String → String → List Resource → Files → Stopped
unfolding is_own_server remove
stop_first h name key id [] fs = record { files = fs; acts = []; target = none; error = none }
stop_first h name key id (r ∷ rs) fs =
    let rest = stop_first h name key id rs fs in
    if is_own_server name key id r
    then (let (fs', e) = remove h r.id fs in
        record {
          files = fs';
          acts = killed r.pid (lookup "pgid" r.metadata) ∷ [];
          target = some r;
          error = e;
        })
    else rest

-- `stopNamedServer` for a readable manifest that declares the server.
pub stop_named_server : Host → String → String → String → Files → Stopped
unfolding stop_first
stop_named_server h name key id fs = elim (list h fs) [
  | err e ↦ record { files = fs; acts = []; target = none; error = some e }
  | ok rs ↦ stop_first h name key id rs fs
]

foreign : String → String → List Resource → Option String
unfolding metadata_is
foreign url key [] = none
foreign url key (r ∷ rs) =
    let rest = foreign url key rs in
    if r.kind ==ₛ kind_server
      && metadata_is r "url" url
      && not (r.project_key ==ₛ "")
      && not (r.project_key ==ₛ key)
    then some r.project_key
    else rest

-- `checkForeignOwned`: the key of another project whose server has the URL.
unfoldable pub check_foreign_owned : Option Host → String → String → Files → Option String
unfolding foreign
check_foreign_owned none url key fs = none
check_foreign_owned (some h) url key fs =
    if key ==ₛ "" then none else elim (list h fs) [ err e ↦ none | ok rs ↦ foreign url key rs ]
