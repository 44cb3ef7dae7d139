-- ===== src/Daemon/Run/Streams.antt =====
-- internal/daemon/server.go, streamRun: how a stream ends.
use game_forge.Prelude.{
  ℕ, ◌+◌, List, [], ◌∷◌, ◌++◌, map, Option, none, some, ◌≡◌, refl, arith, Option-cases, inl, inr,
  ◌∙◌,
}
use game_forge.Op.{Error, Ident, Progress, Request, Operation}
use game_forge.Daemon.Dispatch.{started, done, Event, Checks, exec}
use game_forge.Daemon.Run.{stream_run, emit, done_event, progress_event, invalid_event}

module _ {V : Type 0} where
  -- 1 for the terminal event.
  unfoldable pub is_done : Event V → ℕ
  is_done ev = elim ev.body [ done run st exit value error ↦ 1 | _ ↦ 0 ]

  unfoldable pub count_done : List (Event V) → ℕ
  count_done [] = 0
  count_done (e ∷ es) = is_done e + count_done es

  pub last_done : List (Event V) → ℕ
  last_done [] = 0
  last_done (e ∷ []) = is_done e
  last_done (e ∷ f ∷ es) = last_done (f ∷ es)

  -- 1 for an event that the schema rejects.
  rejects : Checks V → Event V → ℕ
  rejects c ev = elim (c.event ev) [ none ↦ 0 | some e ↦ 1 ]

  pub count_rejected : Checks V → List (Event V) → ℕ
  count_rejected c [] = 0
  count_rejected c (e ∷ es) = rejects c e + count_rejected c es

  -- The events of a run before the terminal one, as they are before the schema check.
  pub before_done : Request V → Operation V → Ident → List (Event V)
  before_done req o run =
      record { id = req.id; body = started run }
      ∷ map (progress_event req.id run) (exec o (record { cwd = req.cwd; run = run }) req.args).0

  emit_open : (c : Checks V) (ev : Event V) → is_done ev ≡ 0 → is_done (emit c ev) ≡ rejects c ev
  unfolding emit rejects is_done invalid_event
  emit_open c ev h = elim (Option-cases (c.event ev)) [
    | inl e ↦ ground arith
    | inr (x, e) ↦ ground arith
  ]

  emit_closed : (c : Checks V) (ev : Event V) → is_done ev ≡ 1 → is_done (emit c ev) ≡ 1
  unfolding emit is_done invalid_event
  emit_closed c ev h = elim (Option-cases (c.event ev)) [
    | inl e ↦ ground arith
    | inr (x, e) ↦ ground arith
  ]

  done_event-is_done :
      (id run : Ident) (r : Option V × Option Error) → is_done (done_event id run r) ≡ 1
  unfolding done_event is_done
  done_event-is_done id run (value, none) = refl
  done_event-is_done id run (value, some e) = refl

  -- The lines behind the first: the progress and a last event `ev`.
  count_tail :
      (c : Checks V) (id run : Ident) (ps : List Progress) (ev : Event V)
      → is_done ev ≡ 1
      → count_done (map (λ p. emit c (progress_event id run p)) ps ++ emit c ev ∷ [])
        ≡ count_rejected c (map (progress_event id run) ps) + 1
  unfolding count_done count_rejected is_done progress_event
  count_tail c id run [] ev h = rw (emit_closed c ev h) (omega arith)
  count_tail c id run (p ∷ ps) ev h =
      rw (emit_open c (progress_event id run p) refl, count_tail c id run ps ev h) (omega arith)

  last_append : (xs : List (Event V)) (ev : Event V) → last_done (xs ++ ev ∷ []) ≡ is_done ev
  unfolding last_done
  last_append [] ev = refl
  last_append (x ∷ []) ev = refl
  last_append (x ∷ y ∷ xs) ev = last_append (y ∷ xs) ev

  -- A stream ends with a terminal event, whatever the schema says of it. The number of its terminal
  -- events is one more than the number of earlier events that the schema rejects.
  pub stream_run-count_done :
      (c : Checks V) (req : Request V) (o : Operation V) (run : Ident)
      → (last_done (stream_run c req o run) ≡ 1)
        × (count_done (stream_run c req o run) ≡ count_rejected c (before_done req o run) + 1)
  unfolding stream_run count_done count_rejected before_done is_done
  stream_run-count_done c req o run =
      let out = exec o (record { cwd = req.cwd; run = run }) req.args in
      let start : Event V = record { id = req.id; body = started run } in
      let closed = done_event-is_done req.id run out.1 in
      (
        last_append (emit c start ∷ map (λ p. emit c (progress_event req.id run p)) out.0)
              (emit c (done_event req.id run out.1))
            ∙ emit_closed c (done_event req.id run out.1) closed,
        rw
            (
              count_tail c req.id run out.0 (done_event req.id run out.1) closed,
              emit_open c start refl,
            )
            (omega arith),
      )
