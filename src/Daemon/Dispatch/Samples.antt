-- ===== src/Daemon/Dispatch/Samples.antt =====
-- Data for the tests of the daemon: a server with one operation; JSON values are numbers.
use game_forge.Prelude.{
  ℕ, ◌+◌, Bool, true, false, not, ◌&&◌, ◌==ₛ◌, [], ◌∷◌, none, some, codes, ltb, if◌then◌else◌,
}
use game_forge.Prelude.Int.{pos}
use game_forge.Project.Samples.{machine}
use game_forge.Storage.{missing}
use game_forge.Op.{Operation, Request, given, Progress, pass, stage, artifact, internal}
use game_forge.Daemon.Dispatch.{Server, Checks, Event, progressed}

-- Adds one, and reports one stage; its arguments lie below 100 and its results below 50.
abbrev pub step_op : Operation ℕ
step_op = record {
  name = "step";
  summary = "adds one";
  stream = true;
  in_raw = 1;
  out_raw = 1;
  handler = λ ctx v. record {
    progress = stage "step" pass 5 "" ∷ [];
    value = some (v + 1);
    error = none;
  };
  in_schema = λ v. if ltb v 100 then none else some ("", "too large");
  out_schema = λ v. if ltb v 50 then none else some ("", "too large");
}

abbrev pub server : Server ℕ
server = record {
  reg = record { order = step_op ∷ []; by_name = ("step", step_op) ∷ [] };
  token = codes "secret";
  incarnation = "i1";
  run_seq = 4;
  machine = machine;
  projects = missing;
  proj_err = none;
  mcp_tok = codes "mcp";
  mcp_err = false;
  mcp_mounted = true;
}

abbrev pub request : ℕ → Request ℕ
request n = record { v = pos 1; id = given "a"; op = "step"; cwd = none; project = []; args = n }

abbrev pub lenient : Checks ℕ
lenient = record { request = λ v. none; response = λ r. none; event = λ e. none }

-- Rejects the progress of a run.
abbrev pub no_progress : Checks ℕ
no_progress = record {
  request = λ v. none;
  response = λ r. none;
  event = λ (e : Event ℕ). elim e.body [
    | progressed run p ↦ some (record { code = internal; path = ""; msg = "stage" })
    | _ ↦ none
  ];
}

-- Rejects a stage or an artifact with an empty name, kind, reference or path, like the event schema, since the
-- encoder leaves empty fields out.
abbrev filled : Progress → Bool
filled (stage name status ms detail) = not (name ==ₛ "")
filled (artifact kind ref path) = not (kind ==ₛ "") && (not (ref ==ₛ "") && not (path ==ₛ ""))

abbrev pub complete : Checks ℕ
complete = record {
  request = λ v. none;
  response = λ r. none;
  event = λ (e : Event ℕ). elim e.body [
    | progressed run p ↦
        if filled p then none else some (record { code = internal; path = ""; msg = "empty" })
    | _ ↦ none
  ];
}
