-- ===== src/Daemon/Run/InProcess.antt =====
-- internal/daemon/server.go, Run and Catalog: what the MCP frontend calls in the daemon's own process.
use game_forge.Prelude.{
  Bool, true, false, not, String, List, [], map, Option, none, some, ◌≡◌, refl, ap, ok, err, has,
}
use game_forge.Op.{Error, Ident, Request, Response, Operation, Progress, all_ops}
use game_forge.Daemon.Dispatch.{Checks, Server, prepare, exec, next_id, protocol_version}
use game_forge.Daemon.Run.{
  replied, posted, handle_run, is_empty_id, simple_run, checked_response, status_for,
}
use game_forge.Daemon.Run.Refusals.{is_version_iff}

-- `Meta` of internal/op/op.go.
pub record Meta (V : Type 0) : Type 0 where
  pub op : String
  pub summary : String
  pub stream : Bool
  pub input : V
  pub output : V

module _ {V : Type 0} where
  meta_of : Operation V → Meta V
  meta_of o = record {
    op = o.name;
    summary = o.summary;
    stream = o.stream;
    input = o.in_raw;
    output = o.out_raw;
  }

  -- The operations of `Catalog`.
  pub catalog : Server V → List (Meta V)
  unfolding meta_of
  catalog s = map meta_of (all_ops s.reg)

  -- `Run`, with what the handler sent to its sink.
  unfoldable pub run_in_process :
      Server V → Request V → Server V × (List Progress × (Option V × Option Error))
  unfolding next_id exec
  run_in_process s req = elim (prepare s req) [
    | err e ↦ (s, ([], (none, some e)))
    | ok (o, req') ↦
        let (s', run) = next_id s "r" in
        (s', exec o (record { cwd = req'.cwd; run = run }) req'.args)
  ]

  -- The reply that carries a result.
  reply_of : Ident → Option V × Option Error → Response V
  reply_of id (value, error) = record {
    id = id;
    ok_flag = not (has error);
    value = value;
    error = error;
  }

  simple_run-reply_of :
      (c : Checks V) (req : Request V) (o : Operation V) (run : Ident)
      → ((r : Response V) → c.response r ≡ none)
      → let r = reply_of req.id (exec o (record { cwd = req.cwd; run = run }) req.args).1 in
        simple_run c req o run ≡ (status_for r, r)
  unfolding simple_run reply_of
  simple_run-reply_of c req o run replies =
      let r = reply_of req.id (exec o (record { cwd = req.cwd; run = run }) req.args).1 in
      rw (replies r, checked_response) refl

  -- A request with an id that /v1/run would run without a stream gets the same result from `Run`, and
  -- leaves the server in the same state, if the schema of replies accepts every reply.
  handle_run-run_in_process :
      (c : Checks V) (s : Server V) (v : V) (req : Request V) (o : Operation V) (req' : Request V)
      → c.request v ≡ none
      → ((r : Response V) → c.response r ≡ none)
      → req.v ≡ protocol_version
      → prepare s req ≡ ok (o, req')
      → is_empty_id req'.id ≡ false
      → handle_run c s true false (posted v req) ≡ (
        (run_in_process s req).0,
        replied (
          status_for (reply_of req'.id (run_in_process s req).1.1),
          reply_of req'.id (run_in_process s req).1.1,
        ),
      )
  unfolding handle_run run_in_process
  handle_run-run_in_process c s v req o req' accepted replies version prepared named =
      let ver = (is_version_iff req.v).1 version in
      rw (accepted, ver, prepared, handle_run, run_in_process, named)
        (ap (λ x. ((next_id s "r").0, replied x))
          (simple_run-reply_of c req' o (next_id s "r").1 replies))
