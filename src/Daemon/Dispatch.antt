-- ===== src/Daemon/Dispatch.antt =====
-- internal/daemon/server.go: how one request is authenticated, dispatched and answered. Parameters are
-- what lies outside: `Checks` are the protocol's JSON schemas, and an operation's handler is the function
-- in the registry.
pub mod Prepared
pub mod Samples
use game_forge.Prelude.{
  ℕ, ◌+◌, Bool, true, false, ◌&&◌, ◌||◌, not, String, ◌==ₛ◌, List, [], ◌∷◌, ◌++◌, map, Option, none,
  some, Text, codes, is_empty, text_eq, Result, ok, err, if◌then◌else◌, has, ◌==◌ as ◌==ₙ◌, reverse,
}
use game_forge.Prelude.Int.{ℤ, pos}
use game_forge.Project.Key.{Machine}
use game_forge.Project.Manifest.{FilePath}
use game_forge.Project.Registry
use game_forge.Project.Registry.{
  RegistryDisk, LookupError, unknown_project, project_unavailable, project_changed, resolve,
}
use game_forge.Op.{
  Code, invalid_request, unsupported_version, unknown_op, invalid_args, canceled, failed, internal,
  unauthorized, forbidden, Error, HandlerError, wire, context_canceled, deadline_exceeded, plain,
  Ident, given, drawn, Status, pass, fail, Progress, stage, artifact, Request, Response, Context,
  Outcome, Operation, Registry, lookup_op, validate_args, validate_output,
}

abbrev pub protocol_version : ℤ
protocol_version = pos 1

-- One line of an NDJSON stream.
pub data Body (V : Type 0) : Type 0 where
  started : Ident → Body V
  progressed : Ident → Progress → Body V
  done : Option Ident → Status → ℕ → Option V → Option Error → Body V

pub record Event (V : Type 0) : Type 0 where
  pub id : Ident
  pub body : Body V

-- The schemas of the protocol: the first complaint about a request, a response or an event.
pub record Checks (V : Type 0) : Type 0 where
  pub request : V → Option Error
  pub response : Response V → Option Error
  pub event : Event V → Option Error

-- The fields of `Server` that a request reads, and `runSeq`.
pub record Server (V : Type 0) : Type 0 where
  pub reg : Registry V
  pub token : Text
  pub incarnation : String
  pub run_seq : ℕ
  pub machine : Machine
  pub projects : RegistryDisk
  pub proj_err : Option String
  pub mcp_tok : Text
  pub mcp_err : Bool
  pub mcp_mounted : Bool

module _ {V : Type 0} where
  unfoldable pub next_id : Server V → String → Server V × Ident
  next_id s prefix =
      (record s { run_seq = s.run_seq + 1 }, drawn prefix s.incarnation (s.run_seq + 1))

abbrev pub fault : Code → String → Error
fault c m = record { code = c; path = ""; msg = m }

-- The wire code of a `LookupError`.
lookup_code : LookupError → Code
lookup_code unknown_project = Code.unknown_project
lookup_code project_unavailable = Code.project_unavailable
lookup_code project_changed = Code.project_changed

-- The project selector of a request: the context that it selects, or an error.
unfoldable pub select_project : {V : Type 0} → Server V → Request V → Result Error (Request V)
unfolding lookup_code
select_project s req =
    if is_empty req.project
    then ok req
    else if has req.cwd
    then err (fault invalid_request "specify project or cwd, not both")
    else if has s.proj_err
    then err (fault internal "project registry")
    else elim (resolve s.machine req.project s.projects) [
      | err e ↦ err (fault (lookup_code e) "project lookup")
      | ok root ↦ ok (record req { cwd = some root; project = [] })
    ]

unfoldable pub checked_args :
    {V : Type 0} → Operation V → Request V → Result Error (Operation V × Request V)
checked_args o req = elim (validate_args o req.args) [ none ↦ ok (o, req) | some e ↦ err e ]

-- `prepare` returns the operation, and has put the selected project into the request.
unfoldable pub prepare :
    {V : Type 0} → Server V → Request V → Result Error (Operation V × Request V)
unfolding select_project checked_args
prepare s req = elim (lookup_op s.reg req.op) [
  | none ↦ err (fault unknown_op req.op)
  | some o ↦ elim (select_project s req) [ err e ↦ err e | ok req' ↦ checked_args o req' ]
]

to_wire_err : HandlerError → Error
to_wire_err (wire e) = e
to_wire_err (context_canceled m) = fault canceled m
to_wire_err (deadline_exceeded m) = fault canceled m
to_wire_err (plain m) = fault failed m

wire_err : Option HandlerError → Option Error
unfolding to_wire_err
wire_err none = none
wire_err (some e) = some (to_wire_err e)

-- Data that violates the output schema is dropped, and the violation is the error.
unfoldable pub settle :
    {V : Type 0} → Operation V → Option V → Option HandlerError → Option V × Option Error
unfolding wire_err
settle o none e = (none, wire_err e)
settle o (some d) e = elim (validate_output o d) [
  | none ↦ (some d, wire_err e)
  | some x ↦ (none, some x)
]

-- `exec`, with what the handler sent to its sink.
unfoldable pub exec :
    {V : Type 0} → Operation V → Context → V → List Progress × (Option V × Option Error)
unfolding settle
exec o ctx args = let out = o.handler ctx args in (out.progress, settle o out.value out.error)
