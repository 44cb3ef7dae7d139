-- ===== src/Visual/Examples.antt =====
-- Tests of the visual checks, and their theorems at concrete inputs.
use game_forge.Prelude.{
  ℕ, ◌*◌, true, false, List, [], ◌∷◌, Text, codes, text_eq, if◌then◌else◌, none, some, Result, ok,
  err, ◌≡◌, refl,
}
use game_forge.Prelude.Int.{pos, negsuc}
use game_forge.Visual.{Page, ShotOptions, ShotResult, shot, VisualError}
use game_forge.Visual.Shots.{shot-IsClean}
use game_forge.Visual.Shots.Way.{IsClean}
use game_forge.Visual.Sweep.{visual_sweep}
use game_forge.Visual.Diagnostics.{browser_errors}
use game_forge.Visual.Diagnostics.Distinct.{IsAnswer as IsTold, browser_errors-IsAnswer}
use game_forge.Visual.Gpu.{Device, Options, is_software, gpu_run}
use game_forge.Visual.Gpu.Hardware.{IsVerified, gpu_run-IsVerified}
use game_forge.Visual.Crop.{Image, RegionRect, crop, span}
use game_forge.Visual.Crop.Region.{IsRegion, crop-IsRegion}
use game_forge.Visual.Samples.{Point, PixelArgs, Defaults, Disk, sample_points, visual_pixel}
use game_forge.Visual.Samples.Inside.{IsSampling, sample_points-IsSampling}
use game_forge.Visual.Samples.Capture.{IsRemoved, visual_pixel-IsRemoved}

abbrev other : ℕ → ℕ
other c = c

-- The state is the list of the scripts; a page on which the case "bad" is loaded tells two errors and a marker.
abbrev World : Type 0
World = List Text

abbrev told : World → List Text
told w =
    if text_eq (elim w [ [] ↦ [] | x ∷ xs ↦ x ]) (codes "bad")
    then codes "boom" ∷ codes " No page errors " ∷ codes "boom" ∷ []
    else []

abbrev image : Image
image = record {
  width = 2;
  height = 3;
  at = λ x y. record { r = 256 * 171; g = 256 * x; b = 256 * y; a = 65535 };
}

abbrev page : Page World
page = record {
  eval_string = λ s w. (ok [], w);
  eval_cases = λ s w. (
    ok (
        record { name = codes "a"; kind = codes "k" }
        ∷ record { name = codes "b"; kind = codes "k" }
        ∷ []),
    w,
  );
  eval_rect = λ s w. (ok (record { x = pos 0; y = pos 0; width = pos 2; height = pos 2 }), w);
  clear_errors = λ w. w;
  page_errors = λ w. (ok (told w), w);
  console_errors = λ w. (err (codes "closed"), w);
  screenshot = λ path w. (ok [], path ∷ w);
  png = record {
    read = λ src w. (ok image, w);
    write = λ dst img w. (ok [], dst ∷ w);
    store = λ c. c;
  };
  remove_file = λ path w. w;
  stat = λ path w. (ok 7, w);
  quote = λ s. s;
  marshal = λ kvs. [];
  itoa = λ n. codes "1";
  other = other;
}

abbrev shot_options : ShotOptions
shot_options = record {
  case = codes "duel";
  ticks = pos 3;
  seed = [];
  world_seed = [];
  output = codes "o.png";
  region = codes "HUD";
  expr = [];
}

abbrev shot_result : ShotResult
shot_result = record { case = codes "duel"; ticks = pos 3; output = codes "o.png"; bytes = 7 }

shot_duel : (shot page shot_options []).0 ≡ ok shot_result
unfolding shot
shot_duel = refl

shot-IsClean_example : IsClean page shot_options [] shot_result
shot-IsClean_example = shot-IsClean page shot_options [] shot_result shot_duel

-- A page that told an error fails the shot, although the file is written.
shot_bad :
    (shot page
      (record {
        case = codes "duel";
        ticks = pos 3;
        seed = [];
        world_seed = [];
        output = codes "bad";
        region = [];
        expr = [];
      })
      []).0
    ≡ err (VisualError.page_failed (codes "boom" ∷ codes "boom" ∷ []))
unfolding shot
shot_bad = refl

abbrev opened : World → Result Text Text × World
opened w = (ok [], w)

visual_sweep_two : (visual_sweep page (pos 0) (λ w. (ok (pos 5), w)) opened []).0.error ≡ none
unfolding visual_sweep
visual_sweep_two = refl

browser_errors-IsAnswer_example :
    IsTold page []
      (pos 0)
      opened
      (codes "bad" ∷ [])
      (browser_errors page [] (pos 0) opened (codes "bad" ∷ [])).0
browser_errors-IsAnswer_example = browser_errors-IsAnswer page [] (pos 0) opened (codes "bad" ∷ [])

browser_errors_bad :
    (browser_errors page [] (pos 0) opened (codes "bad" ∷ [])).0.out
    ≡ some (record { is_ok = false; messages = codes "boom" ∷ [] })
unfolding browser_errors
browser_errors_bad = refl

abbrev device : Device World ℕ
device = record {
  renderer = λ w. (
    ok (record {
      vendor = codes "Google";
      unmasked_vendor = codes "AMD";
      renderer = codes "WebKit";
      unmasked_renderer = codes "Radeon";
    }),
    w,
  );
  eval_string = λ s w. (ok [], s ∷ w);
  eval_benchmark = λ s w. (ok 60, w);
  quote = λ s. s;
  itoa = λ n. codes "1";
  other = other;
}

abbrev defaults : Options
defaults = record { scenario = codes "arena"; ticks = pos 10; frames = pos 0 }

gpu_run_arena :
    (gpu_run device
      (record { scenario = []; ticks = pos 0; frames = pos 0 })
      (λ w. (ok defaults, w))
      opened
      []).0.error
    ≡ none
unfolding gpu_run
gpu_run_arena = refl

gpu_run-IsVerified_example :
    IsVerified device
      (record { scenario = []; ticks = pos 0; frames = pos 0 })
      (λ w. (ok defaults, w))
      opened
      []
      (gpu_run device
        (record { scenario = []; ticks = pos 0; frames = pos 0 })
        (λ w. (ok defaults, w))
        opened
        []).0
gpu_run-IsVerified_example =
    gpu_run-IsVerified device (record { scenario = []; ticks = pos 0; frames = pos 0 })
      (λ w. (ok defaults, w)) opened [] gpu_run_arena

is_software_llvm :
    is_software other (record {
      vendor = codes "Mesa";
      unmasked_vendor = codes "Mesa";
      renderer = codes "WebKit";
      unmasked_renderer = codes "LLVMpipe (LLVM 15)";
    })
    ≡ true
unfolding is_software
is_software_llvm = refl

abbrev points : List Point
points = (pos 1, pos 2) ∷ (pos 0, pos 3) ∷ (negsuc 0, pos 0) ∷ []

sample_points_first : sample_points image points ≡ err (pos 0, pos 3)
unfolding sample_points
sample_points_first = refl

sample_points-IsSampling_example : IsSampling image points (sample_points image points)
sample_points-IsSampling_example = sample_points-IsSampling image points

abbrev disk : Disk World
disk = record {
  make_temp = λ w. (ok (codes "/tmp/p"), codes "made" ∷ w);
  remove_all = λ tmp w. codes "removed" ∷ w;
  open_image = λ path w. (ok image, w);
}

abbrev pixel_args : PixelArgs
pixel_args = record {
  points = (pos 1, pos 2) ∷ [];
  case = codes "duel";
  ticks = pos 0;
  seed = [];
  world = [];
  region = [];
  image = [];
  out = [];
}

abbrev manifest : World → Result Text Defaults × World
manifest w = (ok (record { case = []; ticks = pos 5 }), w)

visual_pixel-IsRemoved_example :
    IsRemoved page disk pixel_args
      (codes "/tmp/p")
      (visual_pixel page disk pixel_args opened manifest [])
visual_pixel-IsRemoved_example =
    visual_pixel-IsRemoved page disk pixel_args opened manifest [] [] (codes "made" ∷ [])
      (record { case = []; ticks = pos 5 }) (codes "/tmp/p") refl refl refl refl refl

-- To the left of (2, 1), and below the image.
abbrev rect : RegionRect
rect = record { x = pos 2; y = pos 1; width = negsuc 0; height = pos 9 }

crop-IsRegion_example : IsRegion (λ c. c) image rect (crop (λ c. c) image rect)
crop-IsRegion_example = crop-IsRegion (λ c. c) image rect

crop_empty :
    crop (λ c. c) image (record { x = negsuc 4; y = pos 1; width = pos 5; height = pos 1 }) ≡ none
unfolding crop
crop_empty = refl

-- A width that overflows: the ends are 1 and a number below zero.
crop_wrapped : span 3 (pos 1) (pos 9223372036854775807) ≡ record { from = 0; to = 1 }
unfolding span
crop_wrapped = refl
