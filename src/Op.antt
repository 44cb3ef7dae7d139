-- ===== src/Op.antt =====
-- Package internal/op: the wire types of op.go and the operation registry of registry.go. `V` stands for
-- JSON values. The JSON Schema validator is a library: a compiled schema is a function that answers with
-- the path and message of its first complaint, and `compile` is an argument.
pub mod Catalog
mod Examples
use game_forge.Prelude.{
  ℕ, ◌+◌, Bool, true, false, String, ◌==ₛ◌, List, [], ◌∷◌, ◌++◌, map, Option, none, some, Text,
  Result, ok, err, if◌then◌else◌, lookup, has,
}
use game_forge.Prelude.Int.{ℤ}
use game_forge.Project.Manifest.{FilePath}

-- The error codes of the wire contract, the two of the authentication layer, and any other text that a
-- handler puts into an error.
pub data Code : Type 0 where
  invalid_request unsupported_version unknown_op invalid_args invalid_output canceled failed : Code
  internal unknown_project project_unavailable project_changed unauthorized forbidden : Code
  other : String → Code

pub record Error : Type 0 where
  pub code : Code
  pub path : String
  pub msg : String

-- What a handler's Go error may be: an `*Error` somewhere in its chain, one of the two errors of a
-- context, or any other.
pub data HandlerError : Type 0 where
  wire : Error → HandlerError
  context_canceled deadline_exceeded plain : String → HandlerError

-- An id is a text of the client, or one that the daemon composed of a prefix, its incarnation and a number.
pub data Ident : Type 0 where
  given : String → Ident
  drawn : String → String → ℕ → Ident

pub data Status : Type 0 where
  pass fail : Status

-- What a running handler reports through its `Sink`.
pub data Progress : Type 0 where
  stage : String → Status → ℕ → String → Progress
  artifact : String → String → String → Progress

-- An empty `cwd` is `none`.
pub record Request (V : Type 0) : Type 0 where
  pub v : ℤ
  pub id : Ident
  pub op : String
  pub cwd : Option FilePath
  pub project : Text
  pub args : V

pub record Response (V : Type 0) : Type 0 where
  pub id : Ident
  pub ok_flag : Bool
  pub value : Option V
  pub error : Option Error

-- The context values that a handler reads.
pub record Context : Type 0 where
  pub cwd : Option FilePath
  pub run : Ident

pub record Outcome (V : Type 0) : Type 0 where
  pub progress : List Progress
  pub value : Option V
  pub error : Option HandlerError

abbrev pub Handler : Type 0 → Type 0
Handler V = Context → V → Outcome V

-- The first complaint of a schema: a path and a message.
abbrev pub Schema : Type 0 → Type 0
Schema V = V → Option (String × String)

pub record Operation (V : Type 0) : Type 0 where
  pub name : String
  pub summary : String
  pub stream : Bool
  pub handler : Handler V
  pub in_raw : V
  pub out_raw : V
  pub in_schema : Schema V
  pub out_schema : Schema V

-- What `AddRaw` is given: a handler may be missing.
pub record Candidate (V : Type 0) : Type 0 where
  pub name : String
  pub summary : String
  pub stream : Bool
  pub handler : Option (Handler V)

pub record Registry (V : Type 0) : Type 0 where
  pub order : List (Operation V)
  pub by_name : List (String × Operation V)

pub data AddError : Type 0 where
  no_name : AddError
  no_handler registered_twice bad_input bad_output : String → AddError

-- A complaint of a schema as a wire error.
complaint : Code → Option (String × String) → Option Error
complaint c none = none
complaint c (some (path, msg)) = some (record { code = c; path = path; msg = msg })

module _ {V : Type 0} where
  pub new_registry : Registry V
  new_registry = record { order = []; by_name = [] }

  pub operation_of : Candidate V → Handler V → V → V → Schema V → Schema V → Operation V
  operation_of c h input output i o = record {
    name = c.name;
    summary = c.summary;
    stream = c.stream;
    handler = h;
    in_raw = input;
    out_raw = output;
    in_schema = i;
    out_schema = o;
  }

  -- The end of AddRaw: the two compiled schemas and the handler make the operation.
  pub enter : Registry V → Operation V → Registry V
  enter r o = record { order = r.order ++ o ∷ []; by_name = (o.name, o) ∷ r.by_name }

  compiled :
      (V → Option (Schema V))
      → Registry V
      → Candidate V
      → Handler V
      → V
      → V
      → Registry V × Option AddError
  unfolding enter operation_of
  compiled compile r c h input output = elim (compile input) [
    | none ↦ (r, some (bad_input c.name))
    | some i ↦ elim (compile output) [
      | none ↦ (r, some (bad_output c.name))
      | some o ↦ (enter r (operation_of c h input output i o), none)
    ]
  ]

  pub add_raw :
      (V → Option (Schema V)) → Registry V → Candidate V → V → V → Registry V × Option AddError
  unfolding compiled lookup
  add_raw compile r c input output = if c.name ==ₛ "" then (r, some no_name) else elim c.handler [
    | none ↦ (r, some (no_handler c.name))
    | some h ↦
        if has (lookup c.name r.by_name)
        then (r, some (registered_twice c.name))
        else compiled compile r c h input output
  ]

  unfoldable pub lookup_op : Registry V → String → Option (Operation V)
  unfolding lookup
  lookup_op r name = lookup name r.by_name

  pub all_ops : Registry V → List (Operation V)
  all_ops r = r.order

  unfoldable pub validate_args : Operation V → V → Option Error
  unfolding complaint
  validate_args o args = complaint invalid_args (o.in_schema args)

  unfoldable pub validate_output : Operation V → V → Option Error
  unfolding complaint
  validate_output o value = complaint invalid_output (o.out_schema value)
