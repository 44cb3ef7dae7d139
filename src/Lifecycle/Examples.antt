-- ===== src/Lifecycle/Examples.antt =====
-- Tests of the lifecycle commands, and their theorem at a concrete input.
use game_forge.Prelude.{◌+◌, [], ◌∷◌, none, some, ok, ◌≡◌, refl, true, false, ◌⊎◌}
use game_forge.Lifecycle.{Manager, StopFinds, StartFinds, stop, is_installed, gone_timeout}
use game_forge.Lifecycle.Laws.{GoneIn, stop-GoneIn}

abbrev service : Manager
service = record {
  available = true;
  installed = true;
  enabled = true;
  name = "systemd user";
  start_fails = false;
  stop_fails = false;
  restart_fails = false;
}

-- The daemon still drains at the first look.
abbrev stopping : StopFinds
stopping = record {
  running = none;
  shutdown_fails = false;
  since = 1000;
  rounds =
      record { now = 1000; seen = some (record { answers = false; free = false }); done = false }
      ∷ record { now = 1100; seen = some (record { answers = false; free = true }); done = false }
      ∷ [];
}

abbrev starting : StartFinds
starting = record { running = none; since = 2000; rounds = []; ensure_result = none }

-- Without a service, a daemon that drains is not waited for.
stop_draining : stop (record service { installed = false }) stopping ≡ ([], some (ok tt))
unfolding stop
stop_draining = refl

stop-GoneIn_example :
    GoneIn (1000 + gone_timeout) stopping.rounds
    ⊎ ((is_installed service ≡ false)
        × (stopping.running ≡ none)
        × ((stop service stopping).0 ≡ []))
unfolding stop
stop-GoneIn_example = stop-GoneIn service stopping refl
