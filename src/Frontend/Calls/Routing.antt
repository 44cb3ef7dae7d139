-- ===== src/Frontend/Calls/Routing.antt =====
-- internal/mcpfrontend/frontend.go over internal/daemon/server.go: a tool call runs in the project that it
-- names.
use game_forge.Prelude.{
  Bool, false, String, ◌==ₛ◌, List, [], Option, none, some, ok, err, ◌≡◌, refl, sym, ap, ◌∙◌, subst,
  arith, Option-cases, Result-cases, Bool-cases, inl, inr, Text, codes, is_empty, ok_injective,
}
use game_forge.Project.Manifest.{FilePath}
use game_forge.Project.Registry.{resolve}
use game_forge.Op.{Error, Operation, Request, lookup_op, Progress}
use game_forge.Daemon.Dispatch.{Server, prepare, exec, next_id}
use game_forge.Daemon.Dispatch.Prepared.{IsPrepared, IsSelected, prepare_iff}
use game_forge.Daemon.Run.InProcess.{run_in_process}
use game_forge.Frontend.Json.{
  Value, null, boolean, number, text, array, object, Fields, get, delete,
}
use game_forge.Frontend.Tools.{Frontend, op_name}
use game_forge.Frontend.Progress.{emit_all}
use game_forge.Frontend.Calls.{
  fields, Called, Dispatcher, call, with_args, with_code, dispatched, result_of, success, refused,
  err_result, take_project_code, code_of, request_of,
}

-- The dispatcher of the daemon's own process.
unfoldable pub in_process :
    Server Value → Request Value → List Progress × (Option Value × Option Error)
in_process s req = (run_in_process s req).1

-- What a call that succeeded has done: its tool's operation ran in the checkout to which the project code
-- of its arguments resolves, with the other arguments, and the result is that of the operation.
pub record IsRouted (s : Server Value) (f : Frontend) (tool : Text) (args : Fields) (c : Called)
    : Type 0 where
  pub op : String
  pub code : String
  pub root : FilePath
  pub operation : Operation Value
  pub named : op_name f tool ≡ some op
  pub selected : get "project_code" args ≡ some (text code)
  pub resolved : resolve s.machine (codes code) s.projects ≡ ok root
  pub looked_up : lookup_op s.reg op ≡ some operation
  pub outcome :
      let out =
        exec operation
          (record { cwd = some root; run = (next_id s "r").1 })
          (object (delete "project_code" args)) in
      (c.notified ≡ emit_all none out.0) × (c.result.structured ≡ out.1.0) × (out.1.1 ≡ none)

codes_empty : (s : String) → (s ==ₛ "") ≡ false → is_empty (codes s) ≡ false
codes_empty String.[] h = ground arith
codes_empty (String.◌∷◌ c s) h = refl

code_of_ok :
    (args rest : Fields) (code : Text) (v : Value)
    → code_of args v ≡ ok (code, rest)
    → (s : String) × (v ≡ text s)
      × ((s ==ₛ "") ≡ false)
      × (code ≡ codes s)
      × (rest ≡ delete "project_code" args)
unfolding code_of
code_of_ok args rest code null h = ground arith
code_of_ok args rest code (boolean b) h = ground arith
code_of_ok args rest code (number n) h = ground arith
code_of_ok args rest code (array xs) h = ground arith
code_of_ok args rest code (object fs) h = ground arith
code_of_ok args rest code (text s) h = elim (Bool-cases (s ==ₛ "")) [
  | inl e ↦ ground (arith, rw (e, code_of) at h)
  | inr e ↦
      let same = ok_injective (rw (e, code_of) at h) in
      (
        s,
        refl,
        e,
        sym (ap (λ (p : Text × Fields). p.0) same),
        sym (ap (λ (p : Text × Fields). p.1) same),
      )
]

-- The code that was taken is the text under its key.
take_ok :
    (args rest : Fields) (code : Text)
    → take_project_code args ≡ ok (code, rest)
    → (s : String) × (get "project_code" args ≡ some (text s))
      × ((s ==ₛ "") ≡ false)
      × (code ≡ codes s)
      × (rest ≡ delete "project_code" args)
unfolding take_project_code
take_ok args rest code h = elim (Option-cases (get "project_code" args)) [
  | inl e ↦ ground (arith, rw (e, take_project_code) at h)
  | inr (v, e) ↦
      let (s, same, full, c, r) = code_of_ok args rest code v (rw (e, take_project_code) at h) in
      (s, e ∙ ap some same, full, c, r)
]

result_of_ok :
    (render : Value → Text) (compat : Bool) (r : Option Value × Option Error)
    → (result_of render compat r).is_error ≡ false
    → ((result_of render compat r).structured ≡ r.0) × (r.1 ≡ none)
unfolding result_of success err_result
result_of_ok render compat (none, none) h = (refl, refl)
result_of_ok render compat (some v, none) h = (refl, refl)
result_of_ok render compat (value, some e) h = ground arith

-- What a dispatched request did that did not end in an error.
abbrev Ran : Server Value → Called → Operation Value → Request Value → Type 0
Ran s c o req =
    let out = exec o (record { cwd = req.cwd; run = (next_id s "r").1 }) req.args in
    (c.notified ≡ emit_all none out.0) × (c.result.structured ≡ out.1.0) × (out.1.1 ≡ none)

abbrev Report : Type 0
Report = List Progress × (Option Value × Option Error)

dispatched_of :
    (render : Value → Text) (run : Dispatcher) (compat : Bool) (req : Request Value) (out : Report)
    → run req ≡ out
    → (dispatched render run compat req).result.is_error ≡ false
    → ((dispatched render run compat req).notified ≡ emit_all none out.0)
      × ((dispatched render run compat req).result.structured ≡ out.1.0)
      × (out.1.1 ≡ none)
unfolding dispatched
dispatched_of render run compat req out e h =
    let r = result_of_ok render compat (run req).1 h in
    (
      ap (λ (x : Report). emit_all none x.0) e,
      r.0 ∙ ap (λ (x : Report). x.1.0) e,
      ap (λ (x : Report). x.1.1) (sym e) ∙ r.1,
    )

refused_report :
    (s : Server Value) (req : Request Value) (e : Error)
    → prepare s req ≡ err e
    → in_process s req ≡ ([], (none, some e))
unfolding in_process run_in_process
refused_report s req e q = rw (q, in_process, run_in_process) refl

prepared_report :
    (s : Server Value) (req : Request Value) (o : Operation Value) (req' : Request Value)
    → prepare s req ≡ ok (o, req')
    → in_process s req ≡ exec o (record { cwd = req'.cwd; run = (next_id s "r").1 }) req'.args
unfolding in_process run_in_process
prepared_report s req o req' q = rw (q, in_process, run_in_process) refl

option_injective : {a b : Called} → ◌≡◌ {A = Option Called} (some a) (some b) → a ≡ b
option_injective h = cc

dispatched_ok :
    (render : Value → Text) (s : Server Value) (compat : Bool) (req : Request Value)
    → (dispatched render (in_process s) compat req).result.is_error ≡ false
    → (p : Operation Value × Request Value) × (prepare s req ≡ ok p)
      × Ran s (dispatched render (in_process s) compat req) p.0 p.1
dispatched_ok render s compat req h = elim (Result-cases (prepare s req)) [
  | inl (e, q) ↦
      let r = dispatched_of render (in_process s) compat req _ (refused_report s req e q) h in
      ground (arith, r.2)
  | inr ((o, req'), q) ↦ (
    (o, req'),
    q,
    dispatched_of render (in_process s) compat req _ (prepared_report s req o req' q) h,
  )
]

-- A request that names a project and no directory runs in the project's checkout.
prepared_in :
    (s : Server Value) (op : String) (code : Text) (rest : Fields) (o : Operation Value)
    (req' : Request Value)
    → is_empty code ≡ false
    → prepare s (request_of op code rest) ≡ ok (o, req')
    → (root : FilePath) × (lookup_op s.reg op ≡ some o)
      × (resolve s.machine code s.projects ≡ ok root)
      × (req' ≡ record (request_of op code rest) { cwd = some root; project = [] })
unfolding IsPrepared IsSelected request_of
prepared_in s op code rest o req' full h =
    let (found, selected, valid) = (prepare_iff s (request_of op code rest) (o, req')).0 h in
    elim selected [
      | inl (e, same) ↦ ground arith
      | inr (e, free, readable, (root, r, same)) ↦ (root, found, r, same)
    ]

routed :
    (render : Value → Text) (s : Server Value) (f : Frontend) (tool : Text) (args rest : Fields)
    (op : String) (code : Text)
    → op_name f tool ≡ some op
    → take_project_code args ≡ ok (code, rest)
    → let c = dispatched render (in_process s) f.options.compat_text (request_of op code rest) in
      c.result.is_error ≡ false → IsRouted s f tool args c
unfolding request_of
routed render s f tool args rest op code named taken h =
    let (text', selected, full, same, less) = take_ok args rest code taken in
    let ((o, req'), q, ran) =
      dispatched_ok render s f.options.compat_text (request_of op code rest) h in
    let nonempty : is_empty code ≡ false =
      subst (λ x. is_empty x ≡ false) (sym same) (codes_empty text' full) in
    let (root, found, r, eq) = prepared_in s op code rest o req' nonempty q in
    record {
      op = op;
      code = text';
      root = root;
      operation = o;
      named = named;
      selected = selected;
      resolved = subst (λ x. resolve s.machine x s.projects ≡ ok root) same r;
      looked_up = found;
      outcome =
          subst
            (λ (x : Fields).
              Ran s
                (dispatched render (in_process s) f.options.compat_text (request_of op code rest)) o
                (record (request_of op code x) { cwd = some root; project = [] }))
            less
            (subst
              (Ran s
                (dispatched render (in_process s) f.options.compat_text (request_of op code rest))
                o)
              eq ran);
    }

-- A tool call that the daemon's own dispatcher answers without an error has run, in the checkout to which
-- the project code of its arguments resolves, the operation of its tool on the remaining arguments; the
-- structured content is what this operation returned, and the notifications are its progress.
pub call-IsRouted :
    (render : Value → Text) (s : Server Value) (f : Frontend) (tool : Text) (args : Fields)
    (c : Called)
    → call render (in_process s) f tool (fields args) ≡ some c
    → c.result.is_error ≡ false
    → IsRouted s f tool args c
unfolding call with_args with_code refused err_result
call-IsRouted render s f tool args c h fine = elim (Option-cases (op_name f tool)) [
  | inl e ↦ ground (arith, rw (e, call) at h)
  | inr (op, e) ↦ elim (Result-cases (take_project_code args)) [
    | inl (x, q) ↦
        let same = option_injective (rw (e, call, q, with_code) at h) in
        ground (arith, subst (λ (d : Called). d.result.is_error ≡ false) (sym same) fine)
    | inr ((code, rest), q) ↦
        let same = option_injective (rw (e, call, q, with_code) at h) in
        subst (IsRouted s f tool args) same (
          routed render s f tool args rest op code e q
            (subst (λ (d : Called). d.result.is_error ≡ false) (sym same) fine))
  ]
]
