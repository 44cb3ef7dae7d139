-- ===== src/Daemon/Run/Accepted.antt =====
-- internal/daemon/server.go, handleRun with a stream: what is written when the event schema accepts every
-- event.
use game_forge.Prelude.{
  true, List, [], ◌∷◌, ◌++◌, map, Option, none, ok, err, ◌≡◌, refl, ap, ◌∙◌, All, arith, Bool-cases,
  if_both, inl, inr,
}
use game_forge.Op.{Error, Ident, Progress, Request, Operation, lookup_op}
use game_forge.Daemon.Dispatch.{
  started, Event, Checks, Server, prepare, exec, protocol_version, select_project, checked_args,
  next_id,
}
use game_forge.Daemon.Run.{
  refused, streamed, posted, handle_run, run_decoded, run_prepared, with_id, stream_run, emit,
  done_event, progress_event, status_for_err, is_empty_id,
}
use game_forge.Daemon.Run.Answers.{run_events}
use game_forge.Daemon.Run.Refusals.{is_version_iff}

module _ {V : Type 0} where
  -- The event schema accepts every event of a list.
  abbrev pub AllAccepted : Checks V → List (Event V) → Type 0
  AllAccepted c es = All (λ e. c.event e ≡ none) es

  emit_accepted : (c : Checks V) (e : Event V) → c.event e ≡ none → emit c e ≡ e
  unfolding emit
  emit_accepted c e h = rw (h, emit) refl

  emit_tail :
      (c : Checks V) (id run : Ident) (ps : List Progress) (r : Option V × Option Error)
      → AllAccepted c (map (progress_event id run) ps ++ done_event id run r ∷ [])
      → map (λ p. emit c (progress_event id run p)) ps ++ emit c (done_event id run r) ∷ []
        ≡ map (progress_event id run) ps ++ done_event id run r ∷ []
  emit_tail c id run [] r h = ap (λ e. e ∷ []) (emit_accepted c (done_event id run r) h.0)
  emit_tail c id run (p ∷ ps) r h =
      ap
        (λ e.
          e ∷ (map (λ q. emit c (progress_event id run q)) ps ++ emit c (done_event id run r) ∷ []))
        (emit_accepted c (progress_event id run p) h.0)
      ∙ ap (λ es. progress_event id run p ∷ es) (emit_tail c id run ps r h.1)

  stream_run_accepted :
      (c : Checks V) (req : Request V) (o : Operation V) (run : Ident)
      → let es = run_events req.id run (exec o (record { cwd = req.cwd; run = run }) req.args) in
        AllAccepted c es → stream_run c req o run ≡ es
  unfolding stream_run run_events
  stream_run_accepted c req o run h =
      let out = exec o (record { cwd = req.cwd; run = run }) req.args in
      ap
        (λ e.
          e
          ∷ (map (λ q. emit c (progress_event req.id run q)) out.0
              ++ emit c (done_event req.id run out.1) ∷ []))
        (emit_accepted c (record { id = req.id; body = started run }) h.0)
      ∙ ap (λ es. record { id = req.id; body = started run } ∷ es)
          (emit_tail c req.id run out.0 out.1 h.1)

  select_project-id :
      (s : Server V) (req req' : Request V) → select_project s req ≡ ok req' → req'.id ≡ req.id
  unfolding select_project
  select_project-id s req req' h = ground arith

  -- `prepare` keeps the id of the request.
  prepare-id :
      (s : Server V) (req req' : Request V) (o : Operation V)
      → prepare s req ≡ ok (o, req')
      → req'.id ≡ req.id
  unfolding prepare checked_args
  prepare-id s req req' o h = ground (arith, select_project-id s req)

  -- The server behind the id that a request may have been given.
  unfoldable pub correlated : Server V → Request V → Server V
  unfolding with_id
  correlated s req = (with_id s req).0

  correlated-prepare :
      (s : Server V) (req req' : Request V) (o : Operation V)
      → prepare s req ≡ ok (o, req')
      → correlated s req' ≡ correlated s req
  unfolding correlated
  correlated-prepare s req req' o p = ground (arith, prepare-id s req req' o p)

  -- The events of the run of a prepared request.
  unfoldable pub prepared_events : Server V → Operation V → Request V → List (Event V)
  unfolding run_events with_id
  prepared_events s o req =
      let (s1, req') = with_id s req in
      let run = (next_id s1 "r").1 in
      run_events req'.id run (exec o (record { cwd = req'.cwd; run = run }) req'.args)

  run_prepared_accepted :
      (c : Checks V) (s : Server V) (o : Operation V) (req : Request V)
      → AllAccepted c (prepared_events s o req)
      → (run_prepared c s true o req).1 ≡ streamed (prepared_events s o req)
  unfolding run_prepared prepared_events
  run_prepared_accepted c s o req accept =
      ap streamed (stream_run_accepted c (with_id s req).1 o _ accept)

  -- An id does not change what is run.
  prepared_events-exec :
      (s : Server V) (o : Operation V) (req : Request V)
      → let run = (next_id (correlated s req) "r").1 in
        prepared_events s o req
        ≡ run_events
            (with_id s req).1.id
            run
            (exec o (record { cwd = req.cwd; run = run }) req.args)
  unfolding prepared_events correlated with_id
  prepared_events-exec s o req = elim (Bool-cases (is_empty_id req.id)) [
    | inl e ↦ rw (e, with_id, correlated, prepared_events) refl
    | inr e ↦ rw (e, with_id, correlated, prepared_events) refl
  ]

  pub handle_run-refused :
      (c : Checks V) (s : Server V) (v : V) (req : Request V) (e : Error)
      → c.request v ≡ none
      → req.v ≡ protocol_version
      → prepare s req ≡ err e
      → (handle_run c s true true (posted v req)).1 ≡ refused (status_for_err e) e
  unfolding handle_run run_decoded
  handle_run-refused c s v req e h ver p =
      let ver' = (is_version_iff req.v).1 ver in rw (h, ver', p, handle_run) refl

  pub handle_run-streamed :
      (c : Checks V) (s : Server V) (v : V) (req req' : Request V) (o : Operation V)
      → c.request v ≡ none
      → AllAccepted c (prepared_events s o req')
      → req.v ≡ protocol_version
      → prepare s req ≡ ok (o, req')
      → let run = (next_id (correlated s req) "r").1 in
        (handle_run c s true true (posted v req)).1
        ≡ streamed (
            run_events
              (with_id s req').1.id
              run
              (exec o (record { cwd = req'.cwd; run = run }) req'.args))
  unfolding handle_run run_decoded
  handle_run-streamed c s v req req' o h accept ver p =
      let ver' = (is_version_iff req.v).1 ver in
      rw (h, ver', p, handle_run, ← correlated-prepare s req req' o p)
        (run_prepared_accepted c s o req' accept ∙ ap streamed (prepared_events-exec s o req'))

  -- `prepare` does not read the counter of ids.
  pub prepare-correlated :
      (s : Server V) (req : Request V) → prepare (correlated s req) req ≡ prepare s req
  unfolding prepare correlated with_id next_id lookup_op select_project
  prepare-correlated s req =
      if_both (λ (p : Server V × Request V). prepare p.0 req ≡ prepare s req) (is_empty_id req.id)
        refl refl
