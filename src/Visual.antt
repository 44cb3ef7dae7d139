-- ===== src/Visual.antt =====
-- internal/visual/visual.go: screenshots and sweeps. The browser session, the files and encoding/json are the
-- fields of `Page`; `W` is what the browser and the files remember.
pub mod Crop
pub mod Shots
pub mod Sweep
pub mod Diagnostics
pub mod Gpu
pub mod Samples
mod Examples
use game_forge.Prelude.{
  ℕ, Bool, true, false, not, ◌&&◌, ◌||◌, List, [], ◌∷◌, ◌++◌, map, Text, codes, is_empty, text_eq,
  if◌then◌else◌, is_nil, Option, none, some, Result, ok, err, trim_both, contains,
}
use game_forge.Prelude.Int.{ℤ, is_positive}
use game_forge.Contract.{is_space}
use game_forge.Project.Code.{lower}
use game_forge.Visual.Crop.{RegionRect, Png, CropError, crop_png}

-- A declared visual case.
pub record Case : Type 0 where
  pub name : Text
  pub kind : Text

-- What the code calls: `EvalString`, `EvalJSON` into a list of cases and into a rectangle, and the provider of the
-- session; the image files, os.Remove, and the size that os.Stat finds; json.Marshal of a
-- text and of a map of texts, the decimal digits of a number, and Go's `unicode` above 127.
pub record Page (W : Type 0) : Type 0 where
  pub eval_string : Text → W → Result Text Text × W
  pub eval_cases : Text → W → Result Text (List Case) × W
  pub eval_rect : Text → W → Result Text RegionRect × W
  pub clear_errors : W → W
  pub page_errors : W → Result Text (List Text) × W
  pub console_errors : W → Result Text (List Text) × W
  pub screenshot : Text → W → Result Text Text × W
  pub png : Png W
  pub remove_file : Text → W → W
  pub stat : Text → W → Result Text ℕ × W
  pub quote : Text → Text
  pub marshal : List (Text × Text) → Text
  pub itoa : ℤ → Text
  pub other : ℕ → ℕ

-- The errors that are told apart, each with what it wraps.
pub data VisualError : Type 0 where
  case_required output_required : VisualError
  load_failed advance_failed expr_failed screenshot_failed region_failed : Text → VisualError
  not_written : Text → VisualError
  page_failed : List Text → VisualError
  crop_failed : CropError → VisualError

-- The rest of a function after `if err != nil { return nil, wrap(err) }`.
abbrev pub after :
    {W E A B : Type 0}
    → (E → VisualError)
    → Result E A × W
    → (A → W → Result VisualError B × W)
    → Result VisualError B × W
after wrap (err e, w) next = (err (wrap e), w)
after wrap (ok a, w) next = next a w

-- What is no error, as the loop of FilterNoise finds it.
pub is_noise : (ℕ → ℕ) → Text → Bool
unfolding trim_both is_space contains lower
is_noise other m =
    let low = map (lower other) (trim_both is_space m) in
    is_empty low || (contains low (codes "no page errors") || contains low (codes "no console"))

unfoldable pub filter_noise : (ℕ → ℕ) → List Text → List Text
unfolding is_noise
filter_noise other [] = []
filter_noise other (m ∷ ms) =
    let rest = filter_noise other ms in if is_noise other m then rest else m ∷ rest

option_of : Text → Text → List (Text × Text)
option_of k v = if is_empty v then [] else (k, v) ∷ []

module _ {W : Type 0} (p : Page W) where
  -- The script of loadCase.
  load_script : Text → Text → Text → Text
  unfolding option_of
  load_script name seed world =
      codes "window.__gameForge.visual.load("
      ++ (p.quote name
          ++ (codes ", "
              ++ (p.marshal (option_of (codes "seed") seed ++ option_of (codes "worldSeed") world)
                  ++ codes "); 'ok'")))

  unfoldable pub load_case : Text → Text → Text → W → Result Text Text × W
  unfolding load_script
  load_case name seed world w = p.eval_string (load_script name seed world) w

  unfoldable pub advance : ℤ → W → Result Text Text × W
  advance ticks w =
      if not (is_positive ticks)
      then (ok [], w)
      else p.eval_string (codes "window.__gameForge.advance(" ++ (p.itoa ticks ++ codes "); 'ok'"))
          w

  -- What PageErrors returned, without the markers.
  told : Result Text (List Text) → List Text
  unfolding filter_noise
  told (err e) = []
  told (ok raw) = filter_noise p.other raw

  unfoldable pub fresh_errors : W → List Text × W
  unfolding told
  fresh_errors w = let (r, w') = p.page_errors w in (told r, w')

-- `ShotOptions`
pub record ShotOptions : Type 0 where
  pub case : Text
  pub ticks : ℤ
  pub seed : Text
  pub world_seed : Text
  pub output : Text
  pub region : Text
  pub expr : Text

pub record ShotResult : Type 0 where
  pub case : Text
  pub ticks : ℤ
  pub output : Text
  pub bytes : ℕ

module _ {W : Type 0} (p : Page W) where
  unfoldable pub is_cropped : ShotOptions → Bool
  unfolding lower
  is_cropped o =
      let region = map (lower p.other) o.region in
      not (is_empty region) && not (text_eq region (codes "full"))

  unfoldable pub capture_path : ShotOptions → Text
  unfolding is_cropped
  capture_path o = if is_cropped o then o.output ++ codes ".full.png" else o.output

  unfoldable pub run_expr : ShotOptions → W → Result Text Text × W
  run_expr o w = if is_empty o.expr then (ok [], w) else p.eval_string o.expr w

  region_script : Text → Text
  region_script name =
      codes "JSON.stringify(window.__gameForge.region(" ++ (p.quote name ++ codes "))")

  unfoldable pub crop_region : ShotOptions → W → Result VisualError Text × W
  unfolding region_script capture_path crop_png
  crop_region o w = after region_failed (p.eval_rect (region_script o.region) w) (λ rect w1.
      after crop_failed (crop_png p.png (capture_path o) o.output rect w1)
        (λ u w2. (ok u, p.remove_file (capture_path o) w2)))

  -- The end of `Shot`.
  stated : ShotOptions → W → Result VisualError ShotResult × W
  stated o w = after not_written (p.stat o.output w) (λ size w'.
      (ok (record { case = o.case; ticks = o.ticks; output = o.output; bytes = size }), w'))

  with_region : ShotOptions → Result VisualError Text × W → Result VisualError ShotResult × W
  unfolding stated
  with_region o (err e, w) = (err e, w)
  with_region o (ok u, w) = stated o w

  finish_shot : ShotOptions → W → Result VisualError ShotResult × W
  unfolding is_cropped crop_region stated with_region
  finish_shot o w = if is_cropped o then with_region o (crop_region o w) else stated o w

  checked_shot : ShotOptions → List Text × W → Result VisualError ShotResult × W
  unfolding finish_shot
  checked_shot o ([], w) = finish_shot o w
  checked_shot o (m ∷ ms, w) = (err (page_failed (m ∷ ms)), w)

  taken : ShotOptions → W → Result VisualError ShotResult × W
  unfolding load_case advance run_expr capture_path fresh_errors checked_shot
  taken o w =
      after load_failed (load_case p o.case o.seed o.world_seed (p.clear_errors w)) (λ u1 w1.
        after advance_failed (advance p o.ticks w1) (λ u2 w2.
          after expr_failed (run_expr o w2) (λ u3 w3.
            after screenshot_failed (p.screenshot (capture_path o) w3)
              (λ u4 w4. checked_shot o (fresh_errors p w4)))))

  unfoldable pub shot : ShotOptions → W → Result VisualError ShotResult × W
  unfolding taken
  shot o w =
      if is_empty o.case
      then (err case_required, w)
      else if is_empty o.output
      then (err output_required, w)
      else taken o w
