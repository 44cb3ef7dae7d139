-- ===== src/Daemon/Serve.antt =====
-- internal/daemon/server.go, Serve with reconcile, holdStartupLock and releaseOwned: the life of a daemon
-- process over the files that it shares with others. What its surroundings answer is an argument.
pub mod Ends
pub mod Leaves
mod Examples
use game_forge.Prelude.{
  ℕ, ◌+◌, Bool, true, false, String, List, [], ◌∷◌, ◌++◌, Option, none, some, Result, ok, err,
  if◌then◌else◌, Text, is_empty,
}
use game_forge.Prelude.Int.{ℤ}
use game_forge.Storage.{Disk, Io, IoError}
use game_forge.Resource.{Files, Host}
use game_forge.Resource.Housekeeping.{Runs, Pass, tick, release_owned}
use game_forge.Daemon.Endpoint.{EndpointDisk, BindError, bind_endpoint}
use game_forge.Daemon.Discovery.{Discovery, protocol_name, write, remove}
use game_forge.Daemon.Ownership.{LockError}

-- What a process does that others can see, in order.
pub data Phase : Type 0 where
  owned listening published reconciled closed startup_held withdrawn drained startup_freed freed :
      Phase

pub record World : Type 0 where
  pub endpoint : EndpointDisk
  pub discovery : Disk Discovery
  pub resources : Files
  -- The lock files of others that were removed as stale, and whether the lock is this process's.
  pub removed_locks : ℕ
  pub lock_held : Bool
  pub trace : List Phase

-- How serving ends: by a request to stop, by an error of the listener, or since it was closed.
pub data Ending : Type 0 where
  stopped closed_listener : Ending
  broken : String → Ending

pub record Surroundings : Type 0 where
  -- What `acquireLifetimeLock` comes to: how many lock files it removed, and its result.
  pub lock : ℕ × Result LockError (Unit {0})
  pub token : Text
  pub fresh : Option Text
  pub free_port : ℕ → Bool
  pub endpoint_io : Io ℕ
  pub start : ℕ
  pub url : ℕ → String
  pub pid : ℤ
  pub discovery_io : Io Discovery
  pub core_builds : Bool
  pub host : Host
  pub now : ℕ
  pub runs : Runs
  pub while_serving : Files → Files
  pub ending : Ending
  pub startup_free : Bool
  pub unlinks : Bool

pub data ServeError : Type 0 where
  not_owned : LockError → ServeError
  no_token : ServeError
  not_bound : BindError → ServeError
  not_published : IoError → ServeError
  listener : String → ServeError

enters : Phase → World → World
enters p w = record w { trace = w.trace ++ p ∷ [] }

-- The files after a pass, if it has not failed.
after : Result IoError Pass → Files → Files
after (err e) fs = fs
after (ok p) fs = p.files

-- The resources behind the pass at the start.
reconciled_files : Surroundings → Files → Files
unfolding after tick
reconciled_files a fs = if a.core_builds then after (tick a.host a.now a.runs fs) fs else fs

-- The resources when serving ends.
pub served_files : Surroundings → Files → Files
unfolding reconciled_files
served_files a fs = a.while_serving (reconciled_files a fs)

-- `reconcile`, and all that happens while the daemon serves.
live : Surroundings → World → World
unfolding enters served_files
live a w = enters reconciled (record w { resources = served_files a w.resources })

-- `Remove`.
withdraw : Surroundings → World → World
unfolding enters remove
withdraw a w = enters withdrawn (record w { discovery = (remove a.unlinks w.discovery).0 })

-- `releaseOwned`.
drain : Surroundings → World → World
unfolding enters after
drain a w = enters drained (record w {
  resources =
      if a.core_builds then after (release_owned a.host w.resources) w.resources else w.resources;
})

-- `holdStartupLock`, and the function that it returns.
hold_startup : Surroundings → World → World
unfolding enters
hold_startup a w = if a.startup_free then enters startup_held w else w

free_startup : Surroundings → World → World
unfolding enters
free_startup a w = if a.startup_free then enters startup_freed w else w

-- What follows the request to stop, to the end of Serve's own calls.
shut_down : Surroundings → World → World
unfolding enters withdraw drain hold_startup free_startup
shut_down a w = free_startup a (drain a (withdraw a (hold_startup a (enters closed w))))

-- The deferred Remove.
ended_by : Surroundings → World → Ending → World × Option ServeError
unfolding shut_down withdraw
ended_by a w stopped = (withdraw a (shut_down a w), none)
ended_by a w closed_listener = (withdraw a w, none)
ended_by a w (broken m) = (withdraw a w, some (listener m))

ended : Surroundings → World → World × Option ServeError
unfolding ended_by
ended a w = ended_by a w a.ending

pub discovery_of : Surroundings → Text → ℕ → Discovery
discovery_of a token port = record {
  protocol = protocol_name;
  endpoint = a.url port;
  pid = a.pid;
  token = token;
}

-- From the write of the record, with its outcome.
published_by : Surroundings → World → Disk Discovery × Option IoError → World × Option ServeError
unfolding enters live ended
published_by a w (disc, some e) =
    (enters closed (record (enters listening w) { discovery = disc }), some (not_published e))
published_by a w (disc, none) =
    ended a (live a (enters published (record (enters listening w) { discovery = disc })))

-- From the outcome of the binding.
bound_by :
    Surroundings → Text → World → EndpointDisk × Result BindError ℕ → World × Option ServeError
unfolding discovery_of published_by write
bound_by a token w (disk, err e) = (record w { endpoint = disk }, some (not_bound e))
bound_by a token w (disk, ok port) =
    published_by a (record w { endpoint = disk })
      (write a.discovery_io (discovery_of a token port) w.discovery)

serve_with : Surroundings → Text → World → World × Option ServeError
unfolding bound_by
serve_with a token w =
    bound_by a token w (bind_endpoint a.free_port a.endpoint_io a.start w.endpoint)

serve_owned : Surroundings → World → World × Option ServeError
unfolding serve_with
serve_owned a w =
    if is_empty a.token
    then elim a.fresh [ none ↦ (w, some no_token) | some t ↦ serve_with a t w ]
    else serve_with a a.token w

-- From the outcome of the lock; the ownership is released last, on every path.
locked_by : Surroundings → World → Result LockError (Unit {0}) → World × Option ServeError
unfolding enters serve_owned
locked_by a w (err e) = (w, some (not_owned e))
locked_by a w (ok u) =
    let (w', error) = serve_owned a (enters owned (record w { lock_held = true })) in
    (enters freed (record w' { lock_held = false }), error)

-- What acquiring the lock does before it is held.
clears : ℕ → World → World
clears n w = record w { removed_locks = w.removed_locks + n }

-- `Serve`.
pub serve : Surroundings → World → World × Option ServeError
unfolding locked_by clears
serve a w = locked_by a (clears a.lock.0 w) a.lock.1
