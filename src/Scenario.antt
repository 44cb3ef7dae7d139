-- ===== src/Scenario.antt =====
-- internal/scenario/scenario.go: the runs of a scenario by the adapter and in the browser, and their
-- comparison. The adapter, the browser session and encoding/json are the fields of `Host`; `W` is what the
-- adapter and the browser remember. A map that `range` visits is an association list.
pub mod Batch
pub mod Matching
mod Examples
use game_forge.Prelude.{
  ℕ, suc, Bool, true, false, ◌&&◌, not, String, ◌==ₛ◌, ◌++ₛ◌, List, [], ◌∷◌, Option, none, some,
  Result, ok, err, ◌==◌, lookup, if◌then◌else◌, is_nil, length,
}
use game_forge.Prelude.Int.{ℤ}
use game_forge.Frontend.Json.{Value, number, text, object, Fields, end, field, put}

pub record Check : Type 0 where
  pub name : String
  pub passed : Bool
  pub detail : String

pub record Report : Type 0 where
  pub scenario : String
  pub status : String
  pub sim_seed : ℤ
  pub world_seed : ℤ
  pub ticks : ℤ
  pub params : Fields
  pub checks : List Check
  pub metrics : Fields
  pub digest : String

unfoldable pub failed_checks : List Check → ℕ
failed_checks [] = 0
failed_checks (c ∷ cs) = let n = failed_checks cs in if c.passed then n else suc n

unfoldable pub has_passed : Report → Bool
unfolding failed_checks
has_passed r = (r.status ==ₛ "PASS") && (failed_checks r.checks == 0)

-- Every caller sets `Ticks` to a positive number or leaves it nil.
pub record RunOptions : Type 0 where
  pub id : String
  pub seed : String
  pub world_seed : String
  pub ticks : Option ℕ
  pub params : List (String × String)

-- The copy of the parameters.
texts : List (String × String) → Fields
texts [] = end
texts ((k, v) ∷ ps) = put k (text v) (texts ps)

put_text : String → String → Fields → Fields
put_text k v out = if v ==ₛ "" then out else put k (text v) out

put_ticks : Option ℕ → Fields → Fields
put_ticks none out = out
put_ticks (some n) out = put "ticks" (number n) out

wire_options : RunOptions → Fields
unfolding texts put_text put_ticks
wire_options o =
    let plain =
      put_ticks o.ticks (put_text "worldSeed" o.world_seed (put_text "seed" o.seed end)) in
    if is_nil o.params then plain else put "params" (object (texts o.params)) plain

-- The loop `params[k] = v` over the fields of a map.
put_all : Fields → Fields → Fields
put_all end params = params
put_all (field k v fs) params = put_all fs (put k v params)

-- What the code calls: the adapter client, `EvalString` of the session, and encoding/json, which gives a
-- text for a value, and the report and the ids of the catalogue in a text.
pub record Host (W : Type 0) : Type 0 where
  pub call : String → Fields → W → Result String String × W
  pub eval_string : String → W → Result String String × W
  pub marshal : Value → Result String String
  pub unmarshal_report : String → Result String Report
  pub unmarshal_ids : String → Result String (List String)

module _ {W : Type 0} (h : Host W) where
  ids_of : Result String String × W → Result String (List String) × W
  ids_of (err e, w) = (err e, w)
  ids_of (ok raw, w) = (
    elim (h.unmarshal_ids raw) [ err e ↦ err ("parse scenario.list: " ++ₛ e) | ok ids ↦ ok ids ],
    w,
  )

  -- The ids of `List`, the fields that the callers here read.
  unfoldable pub list_ids : W → Result String (List String) × W
  unfolding ids_of
  list_ids w = ids_of (h.call "scenario.list" end w)

  decode_report : String → Result String Report
  decode_report raw = elim (h.unmarshal_report raw) [
    | err e ↦ err ("parse scenario report: " ++ₛ e)
    | ok r ↦ ok r
  ]

  -- The end of both runs.
  decoded : Result String String × W → Result String Report × W
  unfolding decode_report
  decoded (err e, w) = (err e, w)
  decoded (ok raw, w) = (decode_report raw, w)

  unfoldable pub run : RunOptions → W → Result String Report × W
  unfolding decoded wire_options put_all
  run o w = decoded (h.call "scenario.run" (put_all (wire_options o) (put "id" (text o.id) end)) w)

  script : String → String → String
  script id wire =
      "JSON.stringify(window.__gameForge.scenarioRun(" ++ₛ id ++ₛ ", " ++ₛ wire ++ₛ "))"

  run_in_browser : RunOptions → W → Result String Report × W
  unfolding decoded wire_options script
  run_in_browser o w = elim (h.marshal (object (wire_options o))) [
    | err e ↦ (err e, w)
    | ok wire ↦ elim (h.marshal (text o.id)) [
      | err e ↦ (err e, w)
      | ok id ↦ decoded (h.eval_string (script id wire) w)
    ]
  ]

abbrev pub same : Bool → Bool → Bool
same true b = b
same false b = not b

-- The map `am` after the loop over the first report's checks: the last write of a name is found first.
unfoldable pub index : List Check → List (String × Bool) → List (String × Bool)
index [] m = m
index (c ∷ cs) m = index cs ((c.name, c.passed) ∷ m)

abbrev pub agrees : Option Bool → Bool → Bool
agrees none b = false
agrees (some got) b = same got b

unfoldable pub all_found : List (String × Bool) → List Check → Bool
unfolding lookup
all_found m [] = true
all_found m (c ∷ cs) = agrees (lookup c.name m) c.passed && all_found m cs

unfoldable pub checks_equal : List Check → List Check → Bool
unfolding index all_found
checks_equal a b = (length a == length b) && all_found (index a []) b

pub record CompareResult : Type 0 where
  pub id : String
  pub is_match : Bool
  pub digest : String
  pub headless : String
  pub browser : String
  pub headless_ok : Bool
  pub browser_ok : Bool
  pub explanation : String

explain : Report → Report → String
unfolding has_passed
explain a b =
    if not (a.digest ==ₛ b.digest)
    then "digest mismatch: headless=" ++ₛ a.digest ++ₛ " browser=" ++ₛ b.digest
    else if not (same (has_passed a) (has_passed b))
    then "check status mismatch: headless=" ++ₛ a.status ++ₛ " browser=" ++ₛ b.status
    else "check results differ"

-- `res.Match` of two reports.
unfoldable pub matches : Report → Report → Bool
unfolding has_passed checks_equal
matches a b =
    (a.digest ==ₛ b.digest)
    && (same (has_passed a) (has_passed b) && checks_equal a.checks b.checks)

result_of : String → Report → Report → CompareResult
unfolding explain matches has_passed
result_of id a b = record {
  id = id;
  is_match = matches a b;
  digest = a.digest;
  headless = a.digest;
  browser = b.digest;
  headless_ok = has_passed a;
  browser_ok = has_passed b;
  explanation = if matches a b then "" else explain a b;
}

-- `Compare`, from the browser's report and from the headless one.
with_browser : String → Report → Result String Report → Result String CompareResult
unfolding result_of
with_browser id a (err e) = err ("browser: " ++ₛ e)
with_browser id a (ok b) = ok (result_of id a b)

with_headless :
    {W : Type 0} → Host W → RunOptions → Result String Report × W → Result String CompareResult × W
unfolding with_browser run_in_browser
with_headless h o (err e, w) = (err ("headless: " ++ₛ e), w)
with_headless h o (ok a, w) = let (b, w') = run_in_browser h o w in (with_browser o.id a b, w')

unfoldable pub compare_runs :
    {W : Type 0} → Host W → RunOptions → W → Result String CompareResult × W
unfolding run with_headless
compare_runs h o w = with_headless h o (run h o w)
