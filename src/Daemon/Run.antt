-- ===== src/Daemon/Run.antt =====
-- internal/daemon/server.go: the HTTP status, the reply and the stream of a run, and the handler of /v1/run.
pub mod Replies
pub mod Streams
pub mod Answers
pub mod Refusals
pub mod InProcess
pub mod Accepted
mod Examples
use game_forge.Prelude.{
  ℕ, Bool, true, false, not, ◌==ₛ◌, List, [], ◌∷◌, ◌++◌, map, Option, none, some, ok, err,
  if◌then◌else◌, has, ◌==◌ as ◌==ₙ◌,
}
use game_forge.Prelude.Int.{ℤ, pos}
use game_forge.Op.{
  Code, invalid_request, unsupported_version, unknown_op, invalid_args, internal, Error, Ident,
  given, drawn, pass, fail, Progress, Request, Response, Operation,
}
use game_forge.Daemon.Dispatch.{
  started, progressed, done, Event, Checks, Server, next_id, fault, prepare, exec,
}

abbrev pub http_ok : ℕ
http_ok = 200

-- `statusForErr`, before dispatch.
pub status_for_err : Error → ℕ
status_for_err e = elim e.code [ unknown_op ↦ 404 | _ ↦ 400 ]

-- `statusFor`, of a reply.
status_of_code : Code → ℕ
status_of_code invalid_args = 400
status_of_code invalid_request = 400
status_of_code unknown_op = 404
status_of_code _ = 500

status_of_error : Option Error → ℕ
unfolding status_of_code
status_of_error none = 500
status_of_error (some e) = status_of_code e.code

pub status_for : {V : Type 0} → Response V → ℕ
unfolding status_of_error
status_for r = if r.ok_flag then http_ok else status_of_error r.error

invalid_response : {V : Type 0} → Ident → Response V
invalid_response id = record {
  id = id;
  ok_flag = false;
  value = none;
  error = some (fault internal "invalid response");
}

checked_response : {V : Type 0} → Checks V → Response V → Response V
unfolding invalid_response
checked_response c r = elim (c.response r) [ none ↦ r | some e ↦ invalid_response r.id ]

-- `simpleRun`: the HTTP status and the reply.
pub simple_run : {V : Type 0} → Checks V → Request V → Operation V → Ident → ℕ × Response V
unfolding checked_response
simple_run c req o run =
    let (progress, result) = exec o (record { cwd = req.cwd; run = run }) req.args in
    let (value, error) = result in
    let r =
      checked_response c
        (record { id = req.id; ok_flag = not (has error); value = value; error = error }) in
    (status_for r, r)

invalid_event : {V : Type 0} → Ident → Event V
invalid_event id = record {
  id = id;
  body = done none fail 1 none (some (fault internal "invalid event"));
}

-- `emit`: an event that violates the schema is replaced.
emit : {V : Type 0} → Checks V → Event V → Event V
unfolding invalid_event
emit c ev = elim (c.event ev) [ none ↦ ev | some e ↦ invalid_event ev.id ]

-- The events of a streamed run before they are checked.
unfoldable pub done_event : {V : Type 0} → Ident → Ident → Option V × Option Error → Event V
done_event id run (value, none) = record { id = id; body = done (some run) pass 0 value none }
done_event id run (value, some e) = record { id = id; body = done (some run) fail 1 value (some e) }

unfoldable pub progress_event : {V : Type 0} → Ident → Ident → Progress → Event V
progress_event id run p = record { id = id; body = progressed run p }

-- `streamRun`: the lines that it writes.
pub stream_run : {V : Type 0} → Checks V → Request V → Operation V → Ident → List (Event V)
unfolding emit done_event progress_event
stream_run c req o run =
    let (progress, result) = exec o (record { cwd = req.cwd; run = run }) req.args in
    emit c (record { id = req.id; body = started run })
    ∷ (map (λ p. emit c (progress_event req.id run p)) progress
        ++ emit c (done_event req.id run result) ∷ [])

-- What a request to /v1/run gets: an error before dispatch, a reply, or a stream.
pub data Answer (V : Type 0) : Type 0 where
  refused : ℕ → Error → Answer V
  replied : ℕ × Response V → Answer V
  streamed : List (Event V) → Answer V

-- The body of the HTTP request as `handleRun` sees it: it could not be read, it is no JSON, or it is a
-- value together with the request that this value decodes to.
pub data Posted (V : Type 0) : Type 0 where
  unreadable malformed : Posted V
  posted : V → Request V → Posted V

pub is_empty_id : Ident → Bool
is_empty_id (given s) = s ==ₛ ""
is_empty_id (drawn p i n) = false

-- A request without an id gets one.
unfoldable pub with_id : {V : Type 0} → Server V → Request V → Server V × Request V
unfolding next_id is_empty_id
with_id s req =
    if is_empty_id req.id
    then (let (s', id) = next_id s "q" in (s', record req { id = id }))
    else (s, req)

pub run_prepared :
    {V : Type 0} → Checks V → Server V → Bool → Operation V → Request V → Server V × Answer V
unfolding with_id next_id
run_prepared c s stream o req =
    let (s₁, req') = with_id s req in
    let (s₂, run) = next_id s₁ "r" in
    (s₂, if stream then streamed (stream_run c req' o run) else replied (simple_run c req' o run))

unfoldable pub is_version : ℤ → Bool
is_version (pos n) = n ==ₙ 1
is_version (ℤ.negsuc n) = false

-- The part of `handleRun` behind the decoding.
run_decoded : {V : Type 0} → Checks V → Server V → Bool → Request V → Server V × Answer V
unfolding run_prepared is_version
run_decoded c s stream req =
    if is_version req.v
    then elim (prepare s req) [
      | err e ↦ (s, refused (status_for_err e) e)
      | ok (o, req') ↦ run_prepared c s stream o req'
    ]
    else (s, refused 400 (fault unsupported_version "unsupported version"))

pub handle_run : {V : Type 0} → Checks V → Server V → Bool → Bool → Posted V → Server V × Answer V
unfolding run_decoded
handle_run c s false stream body = (s, refused 405 (fault invalid_request "POST required"))
handle_run c s true stream unreadable = (s, refused 400 (fault invalid_request "read body"))
handle_run c s true stream malformed = (s, refused 400 (fault invalid_request "malformed JSON"))
handle_run c s true stream (posted v req) = elim (c.request v) [
  | some e ↦ (s, refused 400 e)
  | none ↦ run_decoded c s stream req
]
