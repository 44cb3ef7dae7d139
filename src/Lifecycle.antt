-- ===== src/Lifecycle.antt =====
-- internal/lifecycle/lifecycle.go: start, stop, restart and status, by the service manager where a service
-- is installed and by the client otherwise. What the manager and the daemon answer is an argument; each
-- command also says what it did to them.
pub mod Laws
mod Examples
use game_forge.Prelude.{
  ℕ, ◌+◌, Bool, true, false, ◌&&◌, String, ◌==ₛ◌, ◌++ₛ◌, List, [], ◌∷◌, ◌++◌, Option, none, some,
  Result, ok, err, if◌then◌else◌, has, not,
}
use game_forge.Prelude.Int.{ℤ, pos}
use game_forge.Daemon.Discovery.{Discovery}
use game_forge.Polling.{Round, WaitError, wait_until}
use game_forge.Client.Connect.{StartError}

-- `service.Manager`, as it answers during one command.
pub record Manager : Type 0 where
  pub available : Bool
  pub installed : Bool
  pub enabled : Bool
  pub name : String
  pub start_fails : Bool
  pub stop_fails : Bool
  pub restart_fails : Bool

pub data LifecycleError : Type 0 where
  manager_failed shutdown_failed : LifecycleError
  wait_failed : WaitError → LifecycleError
  start_failed : StartError → LifecycleError

-- What a command asks for: of the service manager, or of the daemon and the operating system directly.
pub data Act : Type 0 where
  manager_start manager_stop manager_restart shutdown ensured : Act

-- What a start finds: the daemon that answers at once, the rounds of the wait from a time, and the result
-- of `client.Ensure`.
pub record StartFinds : Type 0 where
  pub running : Option Discovery
  pub since : ℕ
  pub rounds : List (Round Discovery)
  pub ensure_result : Option (Result StartError Discovery)

-- A look of WaitGone: whether Connect finds a daemon, and OwnershipFree.
pub record Look : Type 0 where
  pub answers : Bool
  pub free : Bool

pub record StopFinds : Type 0 where
  pub running : Option Discovery
  pub shutdown_fails : Bool
  pub since : ℕ
  pub rounds : List (Round Look)

-- Milliseconds.
abbrev pub gone_timeout : ℕ
gone_timeout = 45000

abbrev healthy_timeout : ℕ
healthy_timeout = 45000

-- `Installed`.
pub is_installed : Manager → Bool
is_installed m = m.available && m.installed

service_label : Manager → String
service_label m =
    if not m.available
    then "not available"
    else if not m.installed
    then "not installed"
    else if m.enabled
    then m.name ++ₛ " (enabled)"
    else m.name ++ₛ " (installed)"

pub record Status : Type 0 where
  pub is_running : Bool
  pub pid : ℤ
  pub endpoint : String
  pub service : String

-- `Stat`.
stat : Manager → Option Discovery → Status
unfolding service_label
stat m none = record { is_running = false; pid = pos 0; endpoint = ""; service = service_label m }
stat m (some d) = record {
  is_running = true;
  pid = d.pid;
  endpoint = d.endpoint;
  service = if service_label m ==ₛ "not installed" then "manual" else service_label m;
}

-- The result of a wait, or none when its rounds run out.
waited : {A : Type 0} → Option (Result WaitError A) → Option (Result LifecycleError A)
waited none = none
waited (some (ok a)) = some (ok a)
waited (some (err e)) = some (err (wait_failed e))

ensured_result : Option (Result StartError Discovery) → Option (Result LifecycleError Discovery)
ensured_result none = none
ensured_result (some (ok d)) = some (ok d)
ensured_result (some (err e)) = some (err (start_failed e))

wait_healthy : ℕ → List (Round Discovery) → Option (Result LifecycleError Discovery)
unfolding wait_until waited
wait_healthy t rounds = waited (wait_until (t + healthy_timeout) rounds)

-- What a round of WaitGone waits for.
gone : Round Look → Round (Unit {0})
gone r = record {
  now = r.now;
  seen = elim r.seen [
    | none ↦ none
    | some look ↦ if not look.answers && look.free then some tt else none
  ];
  done = r.done;
}

gone_rounds : List (Round Look) → List (Round (Unit {0}))
unfolding gone
gone_rounds [] = []
gone_rounds (r ∷ rs) = gone r ∷ gone_rounds rs

-- `WaitGone`.
pub wait_gone : ℕ → List (Round Look) → Option (Result LifecycleError (Unit {0}))
unfolding wait_until waited gone_rounds
wait_gone t rounds = waited (wait_until (t + gone_timeout) (gone_rounds rounds))

-- `Start`, and `Ensure`.
unfoldable pub start : Manager → StartFinds → List Act × Option (Result LifecycleError Discovery)
unfolding is_installed wait_healthy ensured_result
start m f =
    if is_installed m
    then elim f.running [
      | some d ↦ ([], some (ok d))
      | none ↦
          if m.start_fails
          then (manager_start ∷ [], some (err manager_failed))
          else (manager_start ∷ [], wait_healthy f.since f.rounds)
    ]
    else (ensured ∷ [], ensured_result f.ensure_result)

-- `Stop`.
unfoldable pub stop : Manager → StopFinds → List Act × Option (Result LifecycleError (Unit {0}))
unfolding is_installed wait_gone
stop m f =
    if is_installed m
    then if m.stop_fails
      then (manager_stop ∷ [], some (err manager_failed))
      else (manager_stop ∷ [], wait_gone f.since f.rounds)
    else elim f.running [
      | none ↦ ([], some (ok tt))
      | some d ↦
          if f.shutdown_fails
          then (shutdown ∷ [], some (err shutdown_failed))
          else (shutdown ∷ [], wait_gone f.since f.rounds)
    ]

pub then_start :
    Manager
    → StartFinds
    → List Act × Option (Result LifecycleError (Unit {0}))
    → List Act × Option (Result LifecycleError Discovery)
unfolding start
then_start m f (acts, none) = (acts, none)
then_start m f (acts, some (err e)) = (acts, some (err e))
then_start m f (acts, some (ok u)) = let (more, result) = start m f in (acts ++ more, result)

-- `Restart`.
pub restart : Manager → StopFinds → StartFinds → List Act × Option (Result LifecycleError Discovery)
unfolding is_installed wait_healthy
restart m g f =
    if is_installed m
    then if m.restart_fails
      then (manager_restart ∷ [], some (err manager_failed))
      else (manager_restart ∷ [], wait_healthy f.since f.rounds)
    else then_start m f (stop m g)
