-- ===== src/Frontend/Calls.antt =====
-- internal/mcpfrontend/frontend.go, call: one tool call. The dispatcher and the encoder of JSON are
-- arguments.
pub mod Routing
use game_forge.Prelude.{
  Bool, true, false, String, ◌==ₛ◌, List, [], ◌∷◌, Option, none, some, Result, ok, err,
  if◌then◌else◌, Text, codes,
}
use game_forge.Op.{Error, invalid_args, Progress, Request, given}
use game_forge.Daemon.Dispatch.{protocol_version}
use game_forge.Frontend.Json.{
  Value, null, boolean, number, text, array, object, Fields, end, get, delete,
}
use game_forge.Frontend.Tools.{Frontend, op_name}
use game_forge.Frontend.Progress.{emit_all, err_text}

-- The arguments as they came: none, bytes that do not decode to an object, or an object.
pub data Arguments : Type 0 where
  absent malformed : Arguments
  fields : Fields → Arguments

pub record CallResult : Type 0 where
  pub is_error : Bool
  pub content : List Text
  pub structured : Option Value

pub record Called : Type 0 where
  pub notified : List Text
  pub result : CallResult

-- `errResult`.
pub err_result : Error → CallResult
unfolding err_text
err_result e = record { is_error = true; content = err_text e ∷ []; structured = none }

arg_error : String → String → Error
arg_error path m = record { code = invalid_args; path = path; msg = m }

code_of : Fields → Value → Result Error (Text × Fields)
unfolding arg_error delete
code_of args (text s) =
    if s ==ₛ ""
    then err (arg_error "/project_code" "project_code must be a non-empty string")
    else ok (codes s, delete "project_code" args)
code_of args v = err (arg_error "/project_code" "project_code must be a non-empty string")

-- `takeProjectCode`: the code, and the arguments without it.
pub take_project_code : Fields → Result Error (Text × Fields)
unfolding code_of arg_error get
take_project_code args = elim (get "project_code" args) [
  | none ↦ err (arg_error "/project_code" "project_code is required")
  | some v ↦ code_of args v
]

decoded : Arguments → Result Error Fields
unfolding arg_error
decoded absent = ok end
decoded malformed = err (arg_error "/" "arguments are not valid JSON")
decoded (fields fs) = ok fs

-- The envelope of a call.
pub request_of : String → Text → Fields → Request Value
request_of op code rest = record {
  v = protocol_version;
  id = given "";
  op = op;
  cwd = none;
  project = code;
  args = object rest;
}

-- A dispatcher: the progress that it reported, and its data and error.
abbrev pub Dispatcher : Type 0
Dispatcher = Request Value → List Progress × (Option Value × Option Error)

success : (Value → Text) → Bool → Option Value → CallResult
success render compat none = record { is_error = false; content = []; structured = none }
success render compat (some v) = record {
  is_error = false;
  content = if compat then render v ∷ [] else [];
  structured = some v;
}

result_of : (Value → Text) → Bool → Option Value × Option Error → CallResult
unfolding success err_result
result_of render compat (value, some e) = err_result e
result_of render compat (value, none) = success render compat value

refused : Error → Called
unfolding err_result
refused e = record { notified = []; result = err_result e }

dispatched : (Value → Text) → Dispatcher → Bool → Request Value → Called
unfolding result_of emit_all
dispatched render run compat req =
    let (progress, outcome) = run req in
    record { notified = emit_all none progress; result = result_of render compat outcome }

with_code : (Value → Text) → Dispatcher → Bool → String → Result Error (Text × Fields) → Called
unfolding refused dispatched request_of
with_code render run compat op (err e) = refused e
with_code render run compat op (ok (code, rest)) =
    dispatched render run compat (request_of op code rest)

with_args : (Value → Text) → Dispatcher → Bool → String → Result Error Fields → Called
unfolding refused with_code take_project_code
with_args render run compat op (err e) = refused e
with_args render run compat op (ok args) = with_code render run compat op (take_project_code args)

-- `call`; `none` is the Go error for an unknown tool.
unfoldable pub call : (Value → Text) → Dispatcher → Frontend → Text → Arguments → Option Called
unfolding op_name with_args decoded
call render run f tool args = elim (op_name f tool) [
  | none ↦ none
  | some op ↦ some (with_args render run f.options.compat_text op (decoded args))
]
