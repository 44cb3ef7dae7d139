-- ===== src/Daemon/Run/Replies.antt =====
-- internal/daemon/server.go, simpleRun and exec: what a reply says.
use game_forge.Prelude.{
  Bool, true, false, not, Option, none, some, ◌≡◌, ◌≢◌, ◌↔◌, refl, has, Option-cases, inl, inr,
  arith,
}
use game_forge.Op.{Code, Error, HandlerError, Ident, Request, Response, Operation, validate_output}
use game_forge.Daemon.Dispatch.{Checks, exec, settle}
use game_forge.Daemon.Run.{
  simple_run, checked_response, invalid_response, status_for, status_of_error, status_of_code,
  http_ok,
}

status_ne_ok : (c : Code) → status_of_code c ≢ http_ok
unfolding status_of_code
status_ne_ok c h = ground arith

error_status_ne_ok : (e : Option Error) → status_of_error e ≢ http_ok
unfolding status_of_error
error_status_ne_ok none h = ground arith
error_status_ne_ok (some e) h = status_ne_ok e.code h

not-not : (b : Bool) → b ≡ not (not b)
not-not true = refl
not-not false = refl

module _ {V : Type 0} where
  -- What a settled run promises about the value it hands on.
  settle_value :
      (o : Operation V) (v : Option V) (e : Option HandlerError) (d : V)
      → (settle o v e).0 ≡ some d
      → validate_output o d ≡ none
  unfolding settle
  settle_value o none e d h = ground arith
  settle_value o (some x) e d h = ground arith

  -- A reply with an error if and only if it is not ok.
  pub IsCoherent : Response V → Type 0
  IsCoherent r = has r.error ≡ not r.ok_flag

  status_for_iff : (r : Response V) → (status_for r ≡ http_ok) ↔ (r.ok_flag ≡ true)
  unfolding status_for
  status_for_iff r = ground (arith, error_status_ne_ok r.error)

  checked_response-IsCoherent :
      (c : Checks V) (id : Ident) (v : Option V) (e : Option Error)
      → let r =
          checked_response c (record { id = id; ok_flag = not (has e); value = v; error = e }) in
        IsCoherent r × (r.id ≡ id)
  unfolding checked_response invalid_response IsCoherent
  checked_response-IsCoherent c id v e =
      elim (Option-cases
        (c.response (record { id = id; ok_flag = not (has e); value = v; error = e }))) [
          | inl n ↦ rw (n, checked_response) (not-not (has e), refl)
          | inr (x, n) ↦ rw (n, checked_response) (refl, refl)
        ]

  -- A reply bears the id of its request, has an error exactly when it is not ok, and is sent with the
  -- status 200 exactly when it is ok, whatever the handler returned and the schema of replies says.
  pub simple_run-IsCoherent :
      (c : Checks V) (req : Request V) (o : Operation V) (run : Ident)
      → let (status, reply) = simple_run c req o run in
        (reply.id ≡ req.id) × IsCoherent reply × ((status ≡ http_ok) ↔ (reply.ok_flag ≡ true))
  unfolding simple_run
  simple_run-IsCoherent c req o run =
      let r = exec o (record { cwd = req.cwd; run = run }) req.args in
      let (coherent, id) = checked_response-IsCoherent c req.id r.1.0 r.1.1 in
      (id, coherent, status_for_iff (simple_run c req o run).1)

  checked_value :
      (c : Checks V) (r : Response V) (d : V)
      → (checked_response c r).value ≡ some d
      → r.value ≡ some d
  unfolding checked_response invalid_response
  checked_value c r d h = ground arith

  -- The data of a reply, if it has any, satisfies the output schema of its operation.
  simple_run_value :
      (c : Checks V) (req : Request V) (o : Operation V) (run : Ident) (d : V)
      → (simple_run c req o run).1.value ≡ some d
      → validate_output o d ≡ none
  unfolding simple_run exec
  simple_run_value c req o run d h =
      let out = o.handler (record { cwd = req.cwd; run = run }) req.args in
      settle_value o out.value out.error d (checked_value c _ d h)
