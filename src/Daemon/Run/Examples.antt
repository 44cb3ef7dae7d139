-- ===== src/Daemon/Run/Examples.antt =====
-- Tests of /v1/run, and its theorems at concrete inputs.
use game_forge.Prelude.{◌+◌, ◌≡◌, ◌↔◌, ◌⊎◌, refl, true, false, none, some, ok}
use game_forge.Op.{lookup_op, validate_args, Ident, given, drawn, validate_output}
use game_forge.Daemon.Dispatch.{exec, prepare}
use game_forge.Daemon.Dispatch.Samples.{step_op, server, request, lenient, no_progress}
use game_forge.Daemon.Dispatch.Prepared.{IsPrepared, prepare_iff}
use game_forge.Daemon.Run.{
  status_for, status_for, simple_run, stream_run, handle_run, posted, http_ok,
}
use game_forge.Daemon.Run.Replies.{IsCoherent, simple_run-IsCoherent}
use game_forge.Daemon.Run.Streams.{
  is_done, count_done, last_done, count_rejected, before_done, stream_run-count_done,
}
use game_forge.Daemon.Run.Answers.{IsRun}
use game_forge.Daemon.Run.Refusals.{IsRunnable, IsRefused, handle_run_split}

abbrev run_id : Ident
run_id = drawn "r" "i1" 5

simple_run_step :
    simple_run lenient (request 1) step_op run_id
    ≡ (200, record { id = given "a"; ok_flag = true; value = some 2; error = none })
unfolding simple_run status_for exec validate_output
simple_run_step = refl

-- A result above the bound of the output schema is dropped.
simple_run_large : (simple_run lenient (request 70) step_op run_id).1.value ≡ none
unfolding simple_run exec validate_output
simple_run_large = refl

-- A rejected progress event becomes a second terminal event.
stream_run_twice : count_done (stream_run no_progress (request 1) step_op run_id) ≡ 2
unfolding stream_run count_done is_done exec validate_output
stream_run_twice = refl

handle_run_seq : (handle_run lenient server true false (posted 0 (request 1))).0.run_seq ≡ 5
unfolding handle_run prepare lookup_op validate_args
handle_run_seq = refl

prepare_iff_example :
    (prepare server (request 1) ≡ ok (step_op, request 1))
    ↔ IsPrepared server (request 1) (step_op, request 1)
prepare_iff_example = prepare_iff server (request 1) (step_op, request 1)

simple_run-IsCoherent_example :
    ((simple_run lenient (request 70) step_op run_id).1.id ≡ given "a")
    × IsCoherent (simple_run lenient (request 70) step_op run_id).1
    × (((simple_run lenient (request 70) step_op run_id).0 ≡ http_ok)
        ↔ ((simple_run lenient (request 70) step_op run_id).1.ok_flag ≡ true))
simple_run-IsCoherent_example = simple_run-IsCoherent lenient (request 70) step_op run_id

stream_run-count_done_example :
    (last_done (stream_run no_progress (request 1) step_op run_id) ≡ 1)
    × (count_done (stream_run no_progress (request 1) step_op run_id)
        ≡ count_rejected no_progress (before_done (request 1) step_op run_id) + 1)
stream_run-count_done_example = stream_run-count_done no_progress (request 1) step_op run_id

handle_run_split_example :
    ((i : IsRunnable lenient server true (posted 0 (request 1))) × IsRun lenient server false
        i.prepared.0
        (handle_run lenient server true false (posted 0 (request 1))))
    ⊎ ((¬ IsRunnable lenient server true (posted 0 (request 1)))
        × IsRefused server (handle_run lenient server true false (posted 0 (request 1))))
handle_run_split_example = handle_run_split lenient server true false (posted 0 (request 1))
