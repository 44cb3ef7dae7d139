-- ===== src/Frontend/Examples.antt =====
-- Tests of the MCP adapter, and its theorems at concrete inputs.
use game_forge.Project.Key.{key_for}
use game_forge.Contract.{parse}
use game_forge.Project.Manifest.{load}
use game_forge.Project.Code.{normalize_code, sanitize}
use game_forge.Project.Registry.{resolve}
use game_forge.Prelude.{
  ◌||◌, List, [], ◌∷◌, none, some, ok, err, ◌≡◌, refl, true, false, All, codes, String, ◌==ₛ◌,
}
use game_forge.Prelude.Int.{pos}
use game_forge.Project.Samples.{machine, one_project}
use game_forge.Op.{
  Progress, Operation, lookup_op, validate_args, validate_output, stage, artifact, pass,
}
use game_forge.Daemon.Discovery.{protocol_name}
use game_forge.Daemon.Dispatch.{Server, prepare}
use game_forge.Daemon.Run.{is_version}
use game_forge.Daemon.Run.InProcess.{Meta, run_in_process}
use game_forge.Frontend.Json.{
  Value, number, text, array, object, nil, item, Fields, end, field, get,
}
use game_forge.Frontend.Schemas.{requires, required_of, inject_project_code, properties_of}
use game_forge.Frontend.Schemas.Selector.{IsSelecting, inject_project_code-IsSelecting}
use game_forge.Frontend.Tools.{Options, Frontend, Catalogued, collision, new}
use game_forge.Frontend.Tools.Faithful.{tool_names, named_for, DistinctTexts, Reached, new-Reached}
use game_forge.Frontend.Progress.{emit_all, Changes, IsShort, IsTold, emit_all-Changes}
use game_forge.Frontend.Calls.{call, Called}
use game_forge.Frontend.Calls.Routing.{IsRouted, in_process, call-IsRouted}

-- {"$id": "x", "type": "object", "properties": {"n": {"type": "number"}}, "required": ["n"]}
abbrev schema : Fields
schema = field "$id" (text "x") (
    field "type" (text "object") (
      field "properties" (object (field "n" (object (field "type" (text "number") end)) end))
        (field "required" (array (item (text "n") nil)) end)))

abbrev meta : String → Meta Value
meta op = record {
  op = op;
  summary = "";
  stream = false;
  input = object schema;
  output = object end;
}

abbrev options : Options
options = record { compat_text = false; full_schemas = false }

abbrev catalog : List (Meta Value) → Catalogued
catalog ms = record { protocol = protocol_name; version = pos 1; ops = ms }

new_collides :
    new options (some (catalog (meta "scenario.run" ∷ meta "scenario_run" ∷ [])))
    ≡ err (collision "scenario_run")
unfolding new is_version
new_collides = refl

inject_project_code-IsSelecting_example :
    (made : Fields) × (inject_project_code (object schema) ≡ object made)
    × IsSelecting made
    × ((k : String)
        → ("properties" ==ₛ k) ≡ false
        → ("required" ==ₛ k) ≡ false
        → get k made ≡ get k schema)
    × ((k : String)
        → ("project_code" ==ₛ k) ≡ false
        → get k (properties_of made) ≡ get k (properties_of schema))
    × ((key : String)
        → requires key (required_of made)
          ≡ (requires key (required_of schema) || ("project_code" ==ₛ key)))
    × (inject_project_code (object made) ≡ object made)
inject_project_code-IsSelecting_example = inject_project_code-IsSelecting schema

abbrev two_ops : List (Meta Value)
two_ops = meta "scenario.run" ∷ meta "project.info" ∷ []

abbrev made : Frontend
made = elim (new options (some (catalog two_ops))) [
  | ok f ↦ f
  | err e ↦ record { options = options; tools = []; ops = []; metas = [] }
]

new-Reached_example :
    (protocol_name ≡ protocol_name)
    × (is_version (pos 1) ≡ true)
    × (tool_names made.tools ≡ named_for two_ops)
    × DistinctTexts (named_for two_ops)
    × Reached made two_ops
unfolding new is_version
new-Reached_example = new-Reached options (catalog two_ops) made refl

abbrev notes : List Progress
notes = stage "build" pass 4 "" ∷ stage "build" pass 9 "" ∷ artifact "image" "shot" "/tmp/x" ∷ []

-- The same stage again is not told again.
emit_all_repeats : emit_all none notes ≡ codes "build pass" ∷ codes "image shot" ∷ []
unfolding emit_all
emit_all_repeats = refl

emit_all-Changes_example :
    Changes none (emit_all none notes)
    × All IsShort (emit_all none notes)
    × All (IsTold none (emit_all none notes)) notes
emit_all-Changes_example = emit_all-Changes none notes

-- An operation that returns its arguments.
abbrev echo_op : Operation Value
echo_op = record {
  name = "scenario.run";
  summary = "";
  stream = false;
  in_raw = object end;
  out_raw = object end;
  handler = λ ctx v. record { progress = notes; value = some v; error = none };
  in_schema = λ v. none;
  out_schema = λ v. none;
}

abbrev daemon : Server Value
daemon = record {
  reg = record { order = echo_op ∷ []; by_name = ("scenario.run", echo_op) ∷ [] };
  token = codes "secret";
  incarnation = "i1";
  run_seq = 4;
  machine = machine;
  projects = one_project;
  proj_err = none;
  mcp_tok = codes "mcp";
  mcp_err = false;
  mcp_mounted = true;
}

abbrev arguments : Fields
arguments = field "n" (number 3) (field "project_code" (text "SP1") end)

abbrev answered_call : Called
answered_call = record {
  notified = emit_all none notes;
  result = record {
    is_error = false;
    content = [];
    structured = some (object (field "n" (number 3) end));
  };
}

call-IsRouted_example : IsRouted daemon made (codes "scenario_run") arguments answered_call
unfolding call new is_version in_process run_in_process prepare lookup_op resolve normalize_code
    load parse key_for sanitize validate_args validate_output
call-IsRouted_example =
    call-IsRouted (λ v. codes "") daemon made (codes "scenario_run") arguments answered_call refl
      refl
