-- ===== src/Daemon/Run/Answers.antt =====
-- internal/daemon/server.go, simpleRun and streamRun: what is answered on what an operation gave.
use game_forge.Prelude.{
  ℕ, Bool, true, false, not, has, List, [], ◌∷◌, ◌++◌, map, Option, none, some, ◌≡◌, ◌↔◌, ◌⊎◌, refl,
  arith, inl, inr, Option-cases,
}
use game_forge.Op.{fail, internal, Error, Ident, Progress, Request, Response, Operation}
use game_forge.Daemon.Dispatch.{fault, started, done, Event, Checks, Server, exec, next_id}
use game_forge.Daemon.Run.{
  Answer, replied, streamed, http_ok, status_for, status_of_error, status_of_code, simple_run,
  checked_response, invalid_response, stream_run, emit, invalid_event, done_event, progress_event,
  with_id, run_prepared,
}

module _ {V : Type 0} where
  -- The events of a run: its start, its progress and its end.
  unfoldable pub run_events :
      Ident → Ident → List Progress × (Option V × Option Error) → List (Event V)
  run_events id run out =
      record { id = id; body = started run }
      ∷ (map (progress_event id run) out.0 ++ done_event id run out.1 ∷ [])

  -- The reply on a result.
  plain_reply : Ident → Option V × Option Error → Response V
  plain_reply id r = record { id = id; ok_flag = not (has r.1); value = r.0; error = r.1 }

  module _ (c : Checks V) where
    -- An event that the schema accepts is sent; for another one the end of a failed run is.
    IsSent : Event V → Event V → Type 0
    IsSent e sent =
        ((c.event e ≡ none) × (sent ≡ e))
        ⊎ ((x : Error) × (y : Error) × (c.event e ≡ some x)
            × (sent.id ≡ e.id)
            × (sent.body ≡ done none fail 1 none (some y)))

    data Sent : List (Event V) → List (Event V) → Type 0 where
      all_sent : Sent [] []
      one_sent :
          {e sent : Event V} {es sents : List (Event V)}
          → IsSent e sent
          → Sent es sents
          → Sent (e ∷ es) (sent ∷ sents)

    -- The reply on a result, or a failure if the schema does not accept it.
    IsReply : Ident → Option V × Option Error → ℕ × Response V → Type 0
    unfolding plain_reply
    IsReply id r (status, reply) =
        (((c.response (plain_reply id r) ≡ none) × (reply ≡ plain_reply id r))
          ⊎ ((x : Error) × (c.response (plain_reply id r) ≡ some x)
              × (reply.id ≡ id)
              × (reply.ok_flag ≡ false)
              × (reply.value ≡ none)))
        × ((status ≡ http_ok) ↔ (reply.ok_flag ≡ true))

    -- The answer on what the operation gave.
    IsAnswerTo :
        Bool → Ident → Ident → List Progress × (Option V × Option Error) → Answer V → Type 0
    unfolding IsReply
    IsAnswerTo true id run out a =
        (sents : List (Event V)) × (a ≡ streamed sents) × Sent (run_events id run out) sents
    IsAnswerTo false id run out a =
        (reply : ℕ × Response V) × (a ≡ replied reply) × IsReply id out.1 reply

    -- The operation ran on the request with its ids, and the answer is on what it gave.
    pub IsRun : Server V → Bool → Operation V × Request V → Server V × Answer V → Type 0
    unfolding IsAnswerTo
    IsRun s stream (o, req) (s', a) =
        (s1 : Server V) × (req' : Request V) × (run : Ident) × (with_id s req ≡ (s1, req'))
        × (next_id s1 "r" ≡ (s', run))
        × IsAnswerTo stream req'.id run (exec o (record { cwd = req'.cwd; run = run }) req'.args) a

    emit-IsSent : (e : Event V) → IsSent e (emit c e)
    unfolding IsSent emit invalid_event
    emit-IsSent e = elim (Option-cases (c.event e)) [
      | inl h ↦ inl (h, rw (h, emit) refl)
      | inr (x, h) ↦
          inr (x, fault internal "invalid event", h, rw (h, emit) refl, rw (h, emit) refl)
    ]

    emitted : (es : List (Event V)) → Sent es (map (emit c) es)
    emitted [] = all_sent
    emitted (e ∷ es) = one_sent (emit-IsSent e) (emitted es)

    sent_tail :
        (id run : Ident) (ps : List Progress) (r : Option V × Option Error)
        → Sent
            (map (progress_event id run) ps ++ done_event id run r ∷ [])
            (map (λ p. emit c (progress_event id run p)) ps ++ emit c (done_event id run r) ∷ [])
    sent_tail id run [] r = one_sent (emit-IsSent (done_event id run r)) all_sent
    sent_tail id run (p ∷ ps) r =
        one_sent (emit-IsSent (progress_event id run p)) (sent_tail id run ps r)

    status_for_iff : (r : Response V) → (status_for r ≡ http_ok) ↔ (r.ok_flag ≡ true)
    unfolding status_for status_of_error status_of_code
    status_for_iff r = ground arith

    checked_response-IsReply :
        (id : Ident) (r : Option V × Option Error)
        → let reply = checked_response c (plain_reply id r) in
          IsReply id r (status_for reply, reply)
    unfolding IsReply checked_response invalid_response plain_reply
    checked_response-IsReply id r =
        (by_verdict (Option-cases (c.response (plain_reply id r))), status_for_iff _)
      where
        by_verdict :
            ((c.response (plain_reply id r) ≡ none)
              ⊎ ((x : Error) × (c.response (plain_reply id r) ≡ some x)))
            → ((c.response (plain_reply id r) ≡ none)
                × (checked_response c (plain_reply id r) ≡ plain_reply id r))
              ⊎ ((x : Error) × (c.response (plain_reply id r) ≡ some x)
                  × ((checked_response c (plain_reply id r)).id ≡ id)
                  × ((checked_response c (plain_reply id r)).ok_flag ≡ false)
                  × ((checked_response c (plain_reply id r)).value ≡ none))
        by_verdict (inl h) = inl (h, rw (h, checked_response) refl)
        by_verdict (inr (x, h)) = inr (
          x,
          h,
          rw (h, checked_response) refl,
          rw (h, checked_response) refl,
          rw (h, checked_response) refl,
        )

    pub run_prepared-IsRun :
        (s : Server V) (stream : Bool) (o : Operation V) (req : Request V)
        → IsRun s stream (o, req) (run_prepared c s stream o req)
    unfolding IsRun IsAnswerTo run_prepared stream_run simple_run run_events plain_reply
    run_prepared-IsRun s true o req =
        let (s1, req') = with_id s req in
        let (s2, run) = next_id s1 "r" in
        let out = exec o (record { cwd = req'.cwd; run = run }) req'.args in
        (
          s1,
          req',
          run,
          refl,
          refl,
          (
            _,
            refl,
            one_sent (emit-IsSent (record { id = req'.id; body = started run }))
                (sent_tail req'.id run out.0 out.1),
          ),
        )
    run_prepared-IsRun s false o req =
        let (s1, req') = with_id s req in
        let (s2, run) = next_id s1 "r" in
        let out = exec o (record { cwd = req'.cwd; run = run }) req'.args in
        (s1, req', run, refl, refl, (_, refl, checked_response-IsReply req'.id out.1))
