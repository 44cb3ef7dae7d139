-- ===== src/Visual/Gpu.antt =====
-- internal/gpu/gpu.go, Verify; RendererInfo.IsSoftware of internal/browser/browser.go; and gpuRun of
-- internal/core/ops.go. The benchmark's numbers are the type `B`: they are passed on and never looked at.
pub mod Hardware
use game_forge.Prelude.{
  ℕ, Bool, true, false, not, List, [], ◌∷◌, ◌++◌, map, Text, codes, is_empty, if◌then◌else◌, any_by,
  join, contains, Option, none, some, Result, ok, err,
}
use game_forge.Prelude.Int.{ℤ, pos, is_positive}
use game_forge.Project.Code.{lower}

pub record RendererInfo : Type 0 where
  pub vendor : Text
  pub unmasked_vendor : Text
  pub renderer : Text
  pub unmasked_renderer : Text

abbrev pub markers : List Text
markers =
    codes "swiftshader"
    ∷ codes "warp"
    ∷ codes "llvmpipe"
    ∷ codes "microsoft basic render"
    ∷ codes "software"
    ∷ []

-- What is searched for the markers.
pub haystack : (ℕ → ℕ) → RendererInfo → Text
unfolding lower join
haystack other r =
    map (lower other)
      (join (codes " ") (r.vendor ∷ r.unmasked_vendor ∷ r.renderer ∷ r.unmasked_renderer ∷ []))

unfoldable pub is_software : (ℕ → ℕ) → RendererInfo → Bool
unfolding haystack contains
is_software other r = any_by (λ marker. contains (haystack other r) marker) markers

-- What Verify calls: the renderer of the provider, `EvalString`, `EvalJSON` into a benchmark, json.Marshal of a
-- text, the digits of a number, and Go's `unicode` above 127.
pub record Device (W B : Type 0) : Type 0 where
  pub renderer : W → Result Text RendererInfo × W
  pub eval_string : Text → W → Result Text Text × W
  pub eval_benchmark : Text → W → Result Text B × W
  pub quote : Text → Text
  pub itoa : ℤ → Text
  pub other : ℕ → ℕ

pub record Options : Type 0 where
  pub scenario : Text
  pub ticks : ℤ
  pub frames : ℤ

-- `Result` of gpu.go.
pub record GpuResult (B : Type 0) : Type 0 where
  pub renderer : RendererInfo
  pub software : Bool
  pub scenario : Text
  pub ticks : ℤ
  pub benchmark : Option B
  pub is_ok : Bool

pub data GpuError : Type 0 where
  inspect_failed software_renderer load_failed advance_failed benchmark_failed : Text → GpuError

-- The pair that Verify returns.
pub record Verified (B : Type 0) : Type 0 where
  pub result : Option (GpuResult B)
  pub error : Option GpuError

-- The rest of Verify after a call that may fail.
pub unless_failed :
    {W A B : Type 0}
    → (Text → Verified B)
    → Result Text A × W
    → (A → W → Verified B × W)
    → Verified B × W
unless_failed stop (err e, w) next = (stop e, w)
unless_failed stop (ok a, w) next = next a w

module _ {W B : Type 0} (d : Device W B) (o : Options) where
  -- `res` as it is before the benchmark.
  pub found : RendererInfo → GpuResult B
  unfolding is_software
  found info = record {
    renderer = info;
    software = is_software d.other info;
    scenario = o.scenario;
    ticks = o.ticks;
    benchmark = none;
    is_ok = false;
  }

  stop_with : RendererInfo → (Text → GpuError) → Text → Verified B
  unfolding found
  stop_with info wrap e = record { result = some (found info); error = some (wrap e) }

  load_scenario : W → Result Text Text × W
  load_scenario w =
      d.eval_string
        (codes "window.__gameForge.visual.load(" ++ (d.quote o.scenario ++ codes "); 'ok'")) w

  run_ticks : W → Result Text Text × W
  run_ticks w =
      if is_positive o.ticks
      then d.eval_string
          (codes "window.__gameForge.advance(" ++ (d.itoa o.ticks ++ codes "); 'ok'")) w
      else (ok [], w)

  frames_used : ℤ
  frames_used = if is_positive o.frames then o.frames else pos 120

  pub benchmark_script : Text
  unfolding frames_used
  benchmark_script =
      codes "JSON.stringify(window.__gameForge.benchmark(" ++ (d.itoa frames_used ++ codes "))")

  measured : RendererInfo → B → Verified B
  unfolding found
  measured info b = record {
    result = some (record {
      renderer = info;
      software = is_software d.other info;
      scenario = o.scenario;
      ticks = o.ticks;
      benchmark = some b;
      is_ok = true;
    });
    error = none;
  }

  measure : RendererInfo → W → Verified B × W
  unfolding unless_failed stop_with benchmark_script measured
  measure info w =
      unless_failed (stop_with info benchmark_failed) (d.eval_benchmark benchmark_script w)
        (λ b w'. (measured info b, w'))

  load_and_measure : RendererInfo → W → Verified B × W
  unfolding unless_failed stop_with load_scenario run_ticks measure
  load_and_measure info w = unless_failed (stop_with info load_failed) (load_scenario w) (λ u w1.
      unless_failed (stop_with info advance_failed) (run_ticks w1) (λ v w2. measure info w2))

  inspected : RendererInfo → W → Verified B × W
  unfolding is_software stop_with measure load_and_measure
  inspected info w =
      if is_software d.other info
      then (stop_with info software_renderer info.unmasked_renderer, w)
      else if is_empty o.scenario
      then measure info w
      else load_and_measure info w

  unfoldable pub verify : W → Verified B × W
  unfolding unless_failed inspected
  verify w =
      unless_failed (λ e. record { result = none; error = some (inspect_failed e) }) (d.renderer w)
        inspected

-- The arguments and the manifest's defaults for them, both as `Options`.
unfoldable pub chosen : Options → Options → Options
chosen asked default = record {
  scenario = if is_empty asked.scenario then default.scenario else asked.scenario;
  ticks = if is_positive asked.ticks then asked.ticks else default.ticks;
  frames = if is_positive asked.frames then asked.frames else default.frames;
}

pub data RunError : Type 0 where
  stopped : Text → RunError
  verify_failed : GpuError → RunError
  no_result not_verified : RunError

pub record Answer (B : Type 0) : Type 0 where
  pub out : Option (GpuResult B)
  pub error : Option RunError

-- The end of gpuRun, on what Verify returned.
pub answered : {B : Type 0} → Option (GpuResult B) → Option GpuError → Answer B
answered none (some e) = record { out = none; error = some (verify_failed e) }
answered none none = record { out = none; error = some no_result }
answered (some r) e = record { out = some r; error = if r.is_ok then none else some not_verified }

answer_of : {W B : Type 0} → Verified B × W → Answer B × W
unfolding answered
answer_of (v, w) = (answered v.result v.error, w)

pub with_opened : {W A B : Type 0} → Result Text A × W → (A → W → Answer B × W) → Answer B × W
with_opened (err e, w) next = (record { out = none; error = some (stopped e) }, w)
with_opened (ok a, w) next = next a w

module _ {W B : Type 0} (d : Device W B) where
  -- `open_manifest` gives the manifest's `gpu` section, `open_page` the session that `d` is then about.
  unfoldable pub gpu_run :
      Options
      → (open_manifest : W → Result Text Options × W) → (open_page : W → Result Text Text × W) → W
      → Answer B × W
  unfolding with_opened chosen answer_of verify
  gpu_run asked open_manifest open_page w = with_opened (open_manifest w) (λ default w1.
      with_opened (open_page w1) (λ u w2. answer_of (verify d (chosen asked default) w2)))
