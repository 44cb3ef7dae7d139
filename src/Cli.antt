-- ===== src/Cli.antt =====
-- internal/cli/dispatch.go: command lines as calls of operations. This file has what the commands share: flags and
-- their values, the arguments of a call, and the two parsers of arguments. The standard flag package, behind
-- reorder (Flags), is the argument `parse` of the commands.
pub mod Commands
pub mod Pages
pub mod Dispatch
pub mod Schemas
pub mod Conforms
mod Examples
use game_forge.Prelude.{
  ℕ, zero, suc, Bool, true, false, String, List, [], ◌∷◌, ◌++◌, Text, codes, text_eq, is_empty,
  if◌then◌else◌, Option, none, some, Result, ok, err, cut_at, is_nil,
}
use game_forge.Prelude.Int.{ℤ, pos, negsuc}
use game_forge.Contract.{scan_decimal}

-- A flag that a command declares, with its default. A duration is in milliseconds.
pub data Flag : Type 0 where
  bool_flag : String → Flag
  text_flag : String → String → Flag
  int_flag : String → ℤ → Flag
  duration_flag : String → ℕ → Flag
  list_flag : String → Flag

-- The values of the flags after parsing, by name, and the positional arguments.
pub record Values : Type 0 where
  pub flag : String → Bool
  pub text : String → Text
  pub int : String → ℤ
  pub ms : String → ℤ
  pub list : String → List Text
  pub rest : List Text

-- `flagSet.parse`: the values, or the exit code with which the command is over.
abbrev pub Parser : Type 0
Parser = String → List Flag → List Text → Result ℕ Values

abbrev pub exit_usage : ℕ
exit_usage = 2

-- The value of an argument.
pub data Arg : Type 0 where
  text_arg : Text → Arg
  int_arg : ℤ → Arg
  bool_arg : Bool → Arg
  texts_arg : List Text → Arg
  params_arg : List (Text × Text) → Arg
  points_arg : List (ℤ × ℤ) → Arg

-- The map of arguments, in the order of the assignments.
abbrev pub Args : Type 0
Args = List (String × Arg)

pub data Renderer : Type 0 where
  render_doctor render_resource_list render_reclaim render_server_start render_server_state :
      Renderer
  render_project_info render_scenario_list render_json render_scenario_run : Renderer
  render_scenario_compare render_shot render_sweep render_pixel render_eval render_errors : Renderer
  render_gpu render_profile_summary : Renderer

-- `call`, with the two fields of its output mode.
pub record Call : Type 0 where
  pub op : String
  pub args : Args
  pub stream : Bool
  pub render : Renderer
  pub json : Bool
  pub ndjson : Bool

-- The two flags of `outputMode.register`, in front of those of a command.
pub with_output : List Flag → List Flag
with_output fs = bool_flag "json" ∷ bool_flag "ndjson" ∷ fs

unfoldable pub call_of : Values → String → Args → Bool → Renderer → Call
call_of v op args stream render = record {
  op = op;
  args = args;
  stream = stream;
  render = render;
  json = v.flag "json";
  ndjson = v.flag "ndjson";
}

-- `if *seed != "" { a["seed"] = *seed }`
unfoldable pub opt_text : String → Text → Args
opt_text key v = if is_empty v then [] else (key, text_arg v) ∷ []

-- `if *ticks >= 0 { a["ticks"] = *ticks }`
unfoldable pub opt_count : String → ℤ → Args
opt_count key (pos n) = (key, int_arg (pos n)) ∷ []
opt_count key (negsuc n) = []

-- `if *frames >= 1 { a["frames"] = *frames }`
unfoldable pub opt_positive : String → ℤ → Args
opt_positive key (pos zero) = []
opt_positive key (pos (suc n)) = (key, int_arg (pos (suc n))) ∷ []
opt_positive key (negsuc n) = []

-- `if *unmuted { a["unmuted"] = true }`
unfoldable pub opt_flag : String → Bool → Args
opt_flag key b = if b then (key, bool_arg true) ∷ [] else []

unfoldable pub opt_texts : String → List Text → Args
opt_texts key xs = if is_nil xs then [] else (key, texts_arg xs) ∷ []

unfoldable pub opt_params : List (Text × Text) → Args
opt_params pm = if is_nil pm then [] else ("params", params_arg pm) ∷ []

unfoldable pub first : List Text → Text
first [] = []
first (a ∷ rest) = a

-- `m[k] = v`
set_param : Text → Text → List (Text × Text) → List (Text × Text)
set_param k v [] = (k, v) ∷ []
set_param k v ((j, w) ∷ m) =
    let rest = set_param k v m in if text_eq j k then (j, v) ∷ m else (j, w) ∷ rest

param_of : Text → Option (Text × Text)
unfolding cut_at
param_of p = elim (cut_at b'=' p) [
  | none ↦ none
  | some (k, v) ↦ if is_empty k then none else some (k, v)
]

-- The loop of `paramMap`; `none` is its error.
unfoldable pub param_map : List Text → List (Text × Text) → Option (List (Text × Text))
unfolding param_of set_param
param_map [] m = some m
param_map (p ∷ list) m = elim (param_of p) [
  | none ↦ none
  | some (k, v) ↦ param_map list (set_param k v m)
]

point_of : Text → Option (ℤ × ℤ)
unfolding cut_at
point_of a = elim (cut_at b',' a) [
  | none ↦ none
  | some (xs, ys) ↦ elim (scan_decimal xs) [
    | none ↦ none
    | some x ↦ elim (scan_decimal ys) [ none ↦ none | some y ↦ some (x, y) ]
  ]
]

-- `parsePoints`; `none` is its error.
unfoldable pub parse_points : List Text → Option (List (ℤ × ℤ))
unfolding point_of
parse_points [] = some []
parse_points (a ∷ args) = elim (point_of a) [
  | none ↦ none
  | some p ↦ elim (parse_points args) [ none ↦ none | some out ↦ some (p ∷ out) ]
]
