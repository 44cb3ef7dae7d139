-- ===== src/Frontend/Tools.antt =====
-- internal/mcpfrontend/frontend.go: the tools that New derives from the dispatcher's catalog. The MCP
-- library's server is the list of the tools that were added to it.
pub mod Faithful
use game_forge.Prelude.{
  ℕ, Bool, true, false, not, ◌||◌, String, ◌==ₛ◌, List, [], ◌∷◌, ◌++◌, map, Option, none, some,
  Result, ok, err, if◌then◌else◌, Text, text_eq, codes, has, ◌==◌ as ◌==ₙ◌,
}
use game_forge.Prelude.Int.{ℤ, pos}
use game_forge.Daemon.Run.{is_version}
use game_forge.Daemon.Run.InProcess.{Meta}
use game_forge.Daemon.Discovery.{protocol_name}
use game_forge.Frontend.Json.{Value}
use game_forge.Frontend.Schemas.{compact_schema, inject_project_code}

pub record Options : Type 0 where
  pub compat_text : Bool
  pub full_schemas : Bool

pub record Tool : Type 0 where
  pub name : Text
  pub description : String
  pub input : Value
  pub output : Option Value

pub record Frontend : Type 0 where
  pub options : Options
  pub tools : List Tool
  pub ops : List (Text × String)
  pub metas : List (String × Meta Value)

pub data NewError : Type 0 where
  no_catalog other_protocol : NewError
  collision : String → NewError

-- '.' becomes '_'.
dotless : ℕ → ℕ
dotless c = if c ==ₙ b'.' then b'_' else c

-- `toolName`.
unfoldable pub tool_name : String → Text
unfolding dotless
tool_name s = map dotless (codes s)

-- f.ops[name].
pub find_op : Text → List (Text × String) → Option String
find_op n [] = none
find_op n ((name, op) ∷ ops) = if text_eq name n then some op else find_op n ops

-- `OpName`.
unfoldable pub op_name : Frontend → Text → Option String
unfolding find_op
op_name f n = find_op n f.ops

tool_of : Options → Meta Value → Tool
unfolding tool_name
tool_of o m = record {
  name = tool_name m.op;
  description = if m.summary ==ₛ "" then m.op else m.summary;
  input = inject_project_code (compact_schema m.input);
  output = if o.full_schemas then some (compact_schema m.output) else none;
}

-- `add`.
unfoldable pub add : Frontend → Meta Value → Result NewError Frontend
unfolding tool_of find_op
add f m =
    if has (find_op (tool_name m.op) f.ops)
    then err (collision m.op)
    else ok (record f {
      tools = f.tools ++ tool_of f.options m ∷ [];
      ops = (tool_name m.op, m.op) ∷ f.ops;
      metas = (m.op, m) ∷ f.metas;
    })

-- The loop of New.
add_all : Frontend → List (Meta Value) → Result NewError Frontend
unfolding add
add_all f [] = ok f
add_all f (m ∷ ms) = elim (add f m) [ err e ↦ err e | ok g ↦ add_all g ms ]

-- What the dispatcher's Catalog returns.
pub record Catalogued : Type 0 where
  pub protocol : String
  pub version : ℤ
  pub ops : List (Meta Value)

empty_frontend : Options → Frontend
empty_frontend o = record { options = o; tools = []; ops = []; metas = [] }

-- `New`.
unfoldable pub new : Options → Option Catalogued → Result NewError Frontend
unfolding add_all empty_frontend
new o none = err no_catalog
new o (some c) =
    if not (c.protocol ==ₛ protocol_name) || not (is_version c.version)
    then err other_protocol
    else add_all (empty_frontend o) c.ops
