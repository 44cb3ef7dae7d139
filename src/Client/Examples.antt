-- ===== src/Client/Examples.antt =====
-- Tests of the daemon client, and its theorems at concrete inputs.
use game_forge.Prelude.{
  ok, subst, ok_injective, ℕ, ◌+◌, List, [], ◌∷◌, none, some, err, ◌≡◌, refl, true, false, arith,
}
use game_forge.Op.{internal, given, pass}
use game_forge.Daemon.Dispatch.{done, fault}
use game_forge.Daemon.Dispatch.Samples.{server, request, complete}
use game_forge.Daemon.Dispatch.{prepare}
use game_forge.Op.{Operation, Request, lookup_op, validate_args, validate_output}
use game_forge.Daemon.Dispatch.{exec}
use game_forge.Daemon.Run.{progress_event, done_event}
use game_forge.Daemon.Run.{posted, handle_run}
use game_forge.Daemon.Run.Accepted.{correlated, AllAccepted, prepared_events}
use game_forge.Daemon.Run.InProcess.{run_in_process}
use game_forge.Client.{Client, eof, broken, line, answered, scan, run_request}
use game_forge.Client.Pipeline.{written, outcome, run_request-run_in_process}
use game_forge.Client.Connect.{StartRound, StartError, held, start_loop, waited, is_stale}
use game_forge.Client.Connect.Rounds.{start_loop_ends}
use game_forge.Polling.{timed_out}

abbrev client : Client
client = record { cwd = none; reqs = 3 }

-- A stream that breaks off has no result, even behind a terminal event.
scan_broken :
    (scan {V = ℕ}
      (line (record { id = given "a"; body = done none pass 0 (some 1) none }) (broken "cut"))
      none).1
    ≡ err (fault internal "decode event")
unfolding scan
scan_broken = refl

scan_empty : (scan {V = ℕ} eof none).1 ≡ err (fault internal "stream ended without a done event")
unfolding scan
scan_empty = refl

accepted :
    (o : Operation ℕ) (req' : Request ℕ)
    → prepare server (request 1) ≡ ok (o, req')
    → AllAccepted complete (prepared_events server o req')
unfolding prepared_events prepare lookup_op validate_args exec progress_event done_event
    validate_output
accepted o req' p =
    subst (λ (x : Operation ℕ × Request ℕ). AllAccepted complete (prepared_events server x.0 x.1))
      (ok_injective p) (refl, (refl, (refl, tt)))

run_request-run_in_process_example :
    run_request
      (λ r. answered (written (handle_run complete server true true (posted 0 r)).1))
      client
      (request 1)
    ≡ (
      record client { reqs = 3 + 1 },
      (
        (run_in_process (correlated server (request 1)) (request 1)).1.0,
        outcome (run_in_process (correlated server (request 1)) (request 1)).1.1,
      ),
    )
run_request-run_in_process_example =
    run_request-run_in_process complete server 0 (request 1) client refl accepted refl

abbrev waiting : ℕ → StartRound
waiting t = record { found = none; attempt = held; age = some 500; now = t; done = false }

abbrev waiting_rounds : List StartRound
waiting_rounds = waiting 0 ∷ waiting 150 ∷ waiting 310 ∷ waiting 460 ∷ []

start_loop_waits : start_loop none 300 waiting_rounds ≡ some (err (waited timed_out))
unfolding start_loop
start_loop_waits = refl

start_loop_ends_example : (e : StartError) × (start_loop none 300 waiting_rounds ≡ some (err e))
unfolding is_stale
start_loop_ends_example =
    start_loop_ends none 300 150 0 waiting_rounds
      ((refl, refl, refl), ((refl, refl, refl), ((refl, refl, refl), ((refl, refl, refl), tt))))
      (omega arith) (omega arith) (omega arith)
