-- ===== src/Frontend/Audit.antt =====
-- internal/mcpfrontend/audit.go: the efficiency audit, over the measured sizes and times. The order that
-- sort.Slice gives is an argument; serialization and the probe's calls are measured outside.
pub mod Limits
use game_forge.Prelude.{
  ℕ, zero, suc, ◌+◌, ◌/◌, ◌≤◌, Bool, true, false, ◌&&◌, not, String, ◌==ₛ◌, ◌||◌, List, [], ◌∷◌,
  map, Option, none, some, if◌then◌else◌, leb, ltb, length, all_by, ◌≡◌, ◌↔◌, refl, arith, All,
  Bool-cases, inl, inr, ◌==◌ as ◌==ₙ◌,
}
use game_forge.Frontend.Progress.{take}

-- The limits of `Budget` that Audit reads.
pub record Budget : Type 0 where
  pub max_catalog_bytes : ℕ
  pub max_model_surface_bytes : ℕ
  pub max_description_bytes_per_tool : ℕ
  pub max_tool_bytes : ℕ
  pub max_avg_tool_bytes : ℕ
  pub max_init_http_requests : ℕ
  pub max_warm_init_ms : ℕ
  pub max_warm_ready_ms : ℕ
  pub max_structured_text_duplicate_bytes : ℕ
  pub max_success_text_bytes : ℕ
  pub max_result_bytes : ℕ
  pub max_trivial_call_ms : ℕ

pub record Gate : Type 0 where
  pub name : String
  pub limit : ℕ
  pub actual : ℕ
  pub unit : String
  pub passes : Bool

unit_of : String → String
unit_of name =
    if name ==ₛ "warmInitMs" || name ==ₛ "warmReadyMs" || name ==ₛ "trivialCallP95Ms"
    then "ms"
    else if name ==ₛ "initHTTPRequests"
    then "requests"
    else "bytes"

pub gate : String → ℕ → ℕ → Gate
unfolding unit_of
gate name limit actual = record {
  name = name;
  limit = limit;
  actual = actual;
  unit = unit_of name;
  passes = leb actual limit;
}

-- The serialized sizes of one tool: its name, description, schemas and the whole definition.
pub record Measured : Type 0 where
  pub name : String
  pub name_bytes : ℕ
  pub description_bytes : ℕ
  pub input_bytes : ℕ
  pub output_bytes : ℕ
  pub tool_bytes : ℕ

pub record ToolSize : Type 0 where
  pub name : String
  pub size : ℕ

sum_of : (Measured → ℕ) → List Measured → ℕ
sum_of f [] = 0
sum_of f (m ∷ ms) = f m + sum_of f ms

-- `if len(t.Description) > maxDesc { maxDesc = len(t.Description) }`
longest : ℕ → List Measured → ℕ
longest n [] = n
longest n (m ∷ ms) = longest (if ltb n m.description_bytes then m.description_bytes else n) ms

tool_size : Measured → ToolSize
tool_size m = record { name = m.name; size = m.tool_bytes }

-- What the catalog measures, and what the probe and the clock do.
pub record Surface : Type 0 where
  pub tools : List Measured
  pub catalog_bytes : ℕ
  pub init_http_requests : ℕ
  pub warm_init_ms : ℕ
  pub warm_ready_ms : ℕ
  pub duplicate_bytes : ℕ
  pub text_bytes : ℕ
  pub result_bytes : ℕ
  pub p95_ms : ℕ

pub record Report : Type 0 where
  pub passes : Bool
  pub model_surface_bytes : ℕ
  pub avg_tool_bytes : ℕ
  pub estimated_tokens : ℕ
  pub largest : List ToolSize
  pub gates : List Gate

pub model_surface : List Measured → ℕ
unfolding sum_of
model_surface ms =
    sum_of (λ m. m.name_bytes) ms
    + sum_of (λ m. m.description_bytes) ms
    + sum_of (λ m. m.input_bytes) ms

pub average : List Measured → ℕ
unfolding sum_of
average [] = 0
average (m ∷ ms) = sum_of (λ x. x.tool_bytes) (m ∷ ms) / length (m ∷ ms)

pub max_tool : List ToolSize → ℕ
max_tool [] = 0
max_tool (t ∷ ts) = t.size

-- The five largest.
pub largest_of : (List ToolSize → List ToolSize) → List Measured → List ToolSize
unfolding tool_size
largest_of sort ms = take 5 (sort (map tool_size ms))

pub gates : Budget → Surface → List ToolSize → List Gate
unfolding gate model_surface average longest max_tool
gates b s largest =
    gate "catalogBytes" b.max_catalog_bytes s.catalog_bytes
    ∷ gate "modelSurfaceBytes" b.max_model_surface_bytes (model_surface s.tools)
    ∷ gate "descriptionBytesPerTool" b.max_description_bytes_per_tool (longest 0 s.tools)
    ∷ gate "toolBytes" b.max_tool_bytes (max_tool largest)
    ∷ gate "avgToolBytes" b.max_avg_tool_bytes (average s.tools)
    ∷ gate "initHTTPRequests" b.max_init_http_requests s.init_http_requests
    ∷ gate "warmInitMs" b.max_warm_init_ms s.warm_init_ms
    ∷ gate "warmReadyMs" b.max_warm_ready_ms s.warm_ready_ms
    ∷ gate "structuredTextDuplicateBytes" b.max_structured_text_duplicate_bytes s.duplicate_bytes
    ∷ gate "successTextBytes" b.max_success_text_bytes s.text_bytes
    ∷ gate "resultBytes" b.max_result_bytes s.result_bytes
    ∷ gate "trivialCallP95Ms" b.max_trivial_call_ms s.p95_ms
    ∷ []

-- `for _, g := range rep.Gates { if !g.Pass { rep.Status = "FAIL" } }`
pub status : Bool → List Gate → Bool
status st [] = st
status st (g ∷ gs) = status (if g.passes then st else false) gs

-- `Audit`.
pub audit : (List ToolSize → List ToolSize) → Budget → Surface → Report
unfolding gates status largest_of
audit sort b s =
    let largest = largest_of sort s.tools in
    let gs = gates b s largest in
    record {
      passes = status true gs;
      model_surface_bytes = model_surface s.tools;
      avg_tool_bytes = average s.tools;
      estimated_tokens = (model_surface s.tools + 3) / 4;
      largest = largest;
      gates = gs;
    }

-- The exit code of `Render`.
pub exit_code : Report → ℕ
exit_code r = if r.passes then 0 else 1
