-- ===== src/Client/Pipeline.antt =====
-- internal/client/client.go against internal/daemon/server.go: what RunRequest makes of a run by HTTP.
use game_forge.Prelude.{
  ℕ, ◌+◌, true, false, List, [], ◌∷◌, ◌++◌, map, Option, none, some, Result, ok, err, ◌≡◌, refl, ap,
  arith, Result-cases, inl, inr,
}
use game_forge.Prelude.Int.{ℤ, pos}
use game_forge.Op.{Error, Ident, Progress, Request, Response, Operation}
use game_forge.Daemon.Dispatch.{Event, Checks, Server, prepare, exec, protocol_version, next_id}
use game_forge.Daemon.Run.{
  Answer, refused, replied, streamed, posted, handle_run, done_event, progress_event, with_id,
  status_for_err,
}
use game_forge.Daemon.Run.Answers.{run_events}
use game_forge.Daemon.Run.Accepted.{
  AllAccepted, prepared_events, correlated, handle_run-refused, handle_run-streamed,
  prepare-correlated,
}
use game_forge.Daemon.Run.InProcess.{run_in_process}
use game_forge.Client.{
  Lines, eof, line, HttpReply, plain, ndjson, Sent, answered, Client, scan, run_request,
  forwarded_all, versioned, is_unversioned, stream_request, stream_answer, counted, reply_result,
}

is_unversioned_current : (v : ℤ) → v ≡ protocol_version → is_unversioned v ≡ false
unfolding is_unversioned
is_unversioned_current (pos n) h = ground arith
is_unversioned_current (ℤ.negsuc n) h = cc

module _ {V : Type 0} where
  -- The lines of a stream that ends after its events.
  lines_of : List (Event V) → Lines V
  lines_of [] = eof
  lines_of (e ∷ es) = line e (lines_of es)

  error_reply : Error → Response V
  error_reply e = record { id = Ident.given ""; ok_flag = false; value = none; error = some e }

  -- An answer of /v1/run as `writeErr`, `writeJSON` and `streamRun` write it.
  pub written : Answer V → HttpReply V
  unfolding lines_of error_reply
  written (refused status e) = plain status (ok (error_reply e))
  written (replied (status, r)) = plain status (ok r)
  written (streamed events) = ndjson 200 (lines_of events)

  -- A result for a caller that gets the error alone, or the data.
  pub outcome : Option V × Option Error → Result Error (Option V)
  outcome (value, none) = ok value
  outcome (value, some e) = err e

  Scanned :
      List Progress → Option V × Option Error → List (Event V) × Result Error (Option V) → Type 0
  Scanned ps r s = (forwarded_all s.0 ≡ ps) × (s.1 ≡ outcome r)

  scan-tail :
      (id run : Ident) (ps : List Progress) (r : Option V × Option Error)
      (last : Option (Option V × Option Error))
      → Scanned ps r
          (scan (lines_of (map (progress_event id run) ps ++ done_event id run r ∷ [])) last)
  unfolding scan lines_of done_event outcome forwarded_all Scanned progress_event
  scan-tail id run [] (value, none) last = (refl, refl)
  scan-tail id run [] (value, some e) last = (refl, refl)
  scan-tail id run (p ∷ ps) r last =
      let later = scan-tail id run ps r last in (ap (λ qs. p ∷ qs) later.0, later.1)

  scan-run_events :
      (id run : Ident) (out : List Progress × (Option V × Option Error))
      → Scanned out.0 out.1 (scan (lines_of (run_events id run out)) none)
  unfolding run_events scan lines_of forwarded_all Scanned
  scan-run_events id run out = scan-tail id run out.0 out.1 none

  -- A stream as the client's answer to its caller.
  streamed_answer :
      (id run : Ident) (out : List Progress × (Option V × Option Error)) (cl : Client)
      (req : Request V) (post : Request V → Sent (HttpReply V))
      → versioned req ≡ req
      → post req ≡ answered (written (streamed (run_events id run out)))
      → run_request post cl req ≡ (record cl { reqs = cl.reqs + 1 }, (out.0, outcome out.1))
  unfolding run_request stream_request stream_answer counted written Scanned
  streamed_answer id run out cl req post v e =
      let scanned = scan-run_events id run out in
      rw (v, e) (λ i. (record cl { reqs = cl.reqs + 1 }, (scanned.0 i, scanned.1 i)))

  refused_answer :
      (status : ℕ) (e : Error) (cl : Client) (req : Request V)
      (post : Request V → Sent (HttpReply V))
      → versioned req ≡ req
      → post req ≡ answered (written (refused status e))
      → run_request post cl req ≡ (record cl { reqs = cl.reqs + 1 }, ([], err e))
  unfolding run_request stream_request stream_answer counted written reply_result error_reply
      forwarded_all
  refused_answer status e cl req post v q = rw (v, q) refl

  -- RunRequest by HTTP agrees with the daemon's own dispatcher: for a request with the protocol's version
  -- that the request schema accepts, while the event schema accepts the events of the run that it starts, if
  -- it starts one, the client hands on the progress that the in-process `Run` has from the same server, or,
  -- for a request without an id, from the server that has drawn one; it returns the error of that `Run`, if
  -- there is one, without the data that may stand beside it, and else its data; it sends one HTTP request.
  pub run_request-run_in_process :
      (c : Checks V) (s : Server V) (v : V) (req : Request V) (cl : Client)
      → c.request v ≡ none
      → ((o : Operation V) (req' : Request V)
          → prepare s req ≡ ok (o, req')
          → AllAccepted c (prepared_events s o req'))
      → req.v ≡ protocol_version
      → let local = (run_in_process (correlated s req) req).1 in
        run_request (λ r. answered (written (handle_run c s true true (posted v r)).1)) cl req
        ≡ (record cl { reqs = cl.reqs + 1 }, (local.0, outcome local.1))
  unfolding run_in_process outcome versioned
  run_request-run_in_process c s v req cl h accept ver =
      let post : Request V → Sent (HttpReply V) =
        λ r. answered (written (handle_run c s true true (posted v r)).1) in
      let same : versioned req ≡ req = rw (is_unversioned_current req.v ver, versioned) refl in
      elim (Result-cases (prepare s req)) [
        | inl (e, p) ↦
            rw (prepare-correlated s req, p, run_in_process)
              (refused_answer (status_for_err e) e cl req post same
                (rw (handle_run-refused c s v req e h ver p) refl))
        | inr ((o, req'), p) ↦
            let run = (next_id (correlated s req) "r").1 in
            rw (prepare-correlated s req, p, run_in_process)
              (streamed_answer (with_id s req').1.id run
                (exec o (record { cwd = req'.cwd; run = run }) req'.args) cl req post same
                (rw (handle_run-streamed c s v req req' o h (accept o req' p) ver p) refl))
      ]
