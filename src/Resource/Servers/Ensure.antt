-- ===== src/Resource/Servers/Ensure.antt =====
-- internal/server/server.go: Ensure, register and Stop. The waiting loop is Polling's: its test of
-- `cmd.ProcessState` is left out, because only `Wait` sets that field, and nothing calls it before `Stop`.
mod Examples
pub mod Handover
use game_forge.Prelude.{
  ℕ, zero, suc, ◌+◌, Bool, true, false, not, ◌++ₛ◌, String, ◌==ₛ◌, List, [], ◌∷◌, ◌++◌, Option,
  none, some, Result, ok, err, if◌then◌else◌, is_nil, ◌≡◌, refl, ◌⊎◌, inl, inr,
}
use game_forge.Prelude.Int.{ℤ, pos, negsuc, is_positive}
use game_forge.Polling.{Round, WaitError, timed_out, canceled, wait_until}
use game_forge.Storage.{Io}
use game_forge.Resource.{Resource, Files, Host, kind_server, register, remove}
use game_forge.Resource.Servers.{check_foreign_owned}

pub record Options : Type 0 where
  pub name : String
  pub command : List String
  pub url : String
  pub ready_timeout : ℤ
  pub run_id : String
  pub project : String
  pub project_key : String
  pub lease : ℤ
  pub registry : Option Host

pub record Server : Type 0 where
  pub name : String
  pub url : String
  pub pid : Option ℤ
  pub owned : Bool
  pub id : String

pub data EnsureError : Type 0 where
  no_url no_command no_log no_start not_ready context_done : EnsureError
  foreign_owned : String → EnsureError

-- What happens to processes.
pub data Event : Type 0 where
  started killed : ℤ → Event

-- What the system answers: whether the URL answers at once, whether the log file can be created, the
-- process that starts, its group, what the rounds of the wait find, the writing of a record, the clock,
-- and `strconv.Itoa`.
pub record System : Type 0 where
  pub reachable : Bool
  pub log_ok : Bool
  pub process : Option ℤ
  pub group : ℤ
  pub rounds : List (Round (Unit {0}))
  pub io : Io Resource
  pub now : ℕ
  pub itoa : ℤ → String

-- The answer, the files of the registry and what happened to processes.
pub record Ensured : Type 0 where
  pub answer : Result EnsureError Server
  pub files : Files
  pub events : List Event

abbrev default_timeout : ℕ
default_timeout = 60000

-- In milliseconds.
unfoldable pub timeout_of : ℤ → ℕ
timeout_of (pos zero) = default_timeout
timeout_of (pos (suc n)) = suc n
timeout_of (negsuc n) = default_timeout

expires_at : ℕ → ℤ → ℕ
expires_at now (pos zero) = 0
expires_at now (pos (suc n)) = now + suc n
expires_at now (negsuc n) = 0

server_id : (ℤ → String) → Options → ℤ → String
server_id itoa o pid = "server-" ++ₛ o.project_key ++ₛ "-" ++ₛ o.name ++ₛ "-" ++ₛ itoa pid

resource_of : System → Options → ℤ → Resource
unfolding server_id expires_at
resource_of y o pid = record {
  id = server_id y.itoa o pid;
  run_id = o.run_id;
  project = o.project;
  project_key = o.project_key;
  kind = kind_server;
  provider = "local";
  namespace = "";
  pid = pid;
  host = "";
  created = 0;
  expires = expires_at y.now o.lease;
  metadata =
      ("url", o.url)
      ∷ ("name", o.name)
      ∷ (if is_positive y.group then ("pgid", y.itoa y.group) ∷ [] else []);
}

-- `register`: the id that the server keeps, and the files.
register_server : System → Options → ℤ → Option Host → Files → String × Files
unfolding resource_of server_id
register_server y o pid none fs = ("", fs)
register_server y o pid (some h) fs =
    (server_id y.itoa o pid, (register y.io y.now (resource_of y o pid) fs).0)

-- `Stop`: the events and the files.
pub stop : Option Host → Server → Files → List Event × Files
stop reg s fs = if not s.owned then ([], fs) else elim s.pid [
  | none ↦ ([], fs)
  | some p ↦ (
    killed p ∷ [],
    elim reg [ none ↦ fs | some h ↦ if s.id ==ₛ "" then fs else (remove h s.id fs).0 ],
  )
]

pub spawned : Options → ℤ → Server
spawned o p = record { name = o.name; url = o.url; pid = some p; owned = true; id = "" }

-- `Stop` on the way to an error.
pub given_up : Options → ℤ → EnsureError → Files → Ensured
unfolding stop spawned
given_up o p e fs =
    let (events, files) = stop o.registry (spawned o p) fs in
    record { answer = err e; files = files; events = started p ∷ events }

-- How the wait ended.
pub waited : System → Options → ℤ → Files → Result WaitError (Unit {0}) → Ensured
unfolding given_up register_server spawned
waited y o p fs (err timed_out) = given_up o p not_ready fs
waited y o p fs (err canceled) = given_up o p context_done fs
waited y o p fs (ok u) =
    let (id, files) = register_server y o p o.registry fs in
    record {
      answer = ok (record (spawned o p) { id = id });
      files = files;
      events = started p ∷ [];
    }

pub refused : EnsureError → Files → Ensured
refused e fs = record { answer = err e; files = fs; events = [] }

-- The URL answers: a server of nobody or of the same project is used as it is.
pub reused : Options → Files → Option String → Ensured
unfolding refused
reused o fs (some key) = refused (foreign_owned key) fs
reused o fs none = record {
  answer = ok (record { name = o.name; url = o.url; pid = none; owned = false; id = "" });
  files = fs;
  events = [];
}

pub launched : System → Options → Files → Option ℤ → Option Ensured
unfolding waited refused timeout_of
launched y o fs none = some (refused no_start fs)
launched y o fs (some p) = elim (wait_until (y.now + timeout_of o.ready_timeout) y.rounds) [
  | none ↦ none
  | some r ↦ some (waited y o p fs r)
]

-- `Ensure`; `none` when the rounds run out before the loop ends.
unfoldable pub ensure : System → Options → Files → Option Ensured
unfolding launched refused reused
ensure y o fs =
    if o.url ==ₛ ""
    then some (refused no_url fs)
    else if y.reachable
    then some (reused o fs (check_foreign_owned o.registry o.url o.project_key fs))
    else if is_nil o.command
    then some (refused no_command fs)
    else if not y.log_ok
    then some (refused no_log fs)
    else launched y o fs y.process
