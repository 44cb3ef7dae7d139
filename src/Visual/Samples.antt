-- ===== src/Visual/Samples.antt =====
-- internal/core/ops.go, sampleImage and visualPixel: the colours of an image at given points. What the operation
-- opens before (the core with the manifest, the dev server with the browser) either fails with an error or goes
-- on; closing them again, the time limit and the sink are left out.
pub mod Inside
pub mod Capture
use game_forge.Prelude.{
  ℕ, ◌+◌, ◌/◌, ◌%◌, ◌<◌, Bool, true, false, not, ◌&&◌, List, [], ◌∷◌, ◌++◌, Text, codes, is_empty,
  is_nil, ltb, if◌then◌else◌, Option, none, some, Result, ok, err,
}
use game_forge.Prelude.Int.{ℤ, pos, negsuc, is_positive}
use game_forge.Visual.Crop.{Rgba, Image}
use game_forge.Visual.{Page, VisualError, ShotOptions, ShotResult, shot}

-- `pixelSampleOut`
pub record Sample : Type 0 where
  pub x : ℕ
  pub y : ℕ
  pub r : ℕ
  pub g : ℕ
  pub b : ℕ
  pub a : ℕ
  pub color : Text

hex_digit : ℕ → ℕ
hex_digit n = if ltb n 10 then b'0' + n else b'W' + n

-- `%02x`, for a byte
hex2 : ℕ → Text
unfolding hex_digit
hex2 n = hex_digit (n / 16) ∷ hex_digit (n % 16) ∷ []

pub sample_of : ℕ → ℕ → Rgba → Sample
unfolding hex2
sample_of x y c = record {
  x = x;
  y = y;
  r = c.r / 256;
  g = c.g / 256;
  b = c.b / 256;
  a = c.a / 256;
  color = codes "#" ++ (hex2 (c.r / 256) ++ (hex2 (c.g / 256) ++ hex2 (c.b / 256)));
}

abbrev pub Point : Type 0
Point = ℤ × ℤ

-- A coordinate that is neither below 0 nor at or above the bound.
pub within : ℕ → ℤ → Option ℕ
within bound (pos n) = if ltb n bound then some n else none
within bound (negsuc n) = none

sample_xy : Image → Option ℕ → Option ℕ → Option Sample
unfolding sample_of
sample_xy img (some x) (some y) = some (sample_of x y (img.at x y))
sample_xy img (some x) none = none
sample_xy img none y = none

-- The body of the loop.
pub sample_point : Image → Point → Option Sample
unfolding within sample_xy
sample_point img (x, y) = sample_xy img (within img.width x) (within img.height y)

-- The loop of sampleImage, which fails with the first point outside.
unfoldable pub sample_points : Image → List Point → Result Point (List Sample)
unfolding sample_point
sample_points img [] = ok []
sample_points img (p ∷ ps) =
    let rest = sample_points img ps in
    elim (sample_point img p) [
      | none ↦ err p
      | some s ↦ elim rest [ err q ↦ err q | ok ss ↦ ok (s ∷ ss) ]
    ]

pub record PixelArgs : Type 0 where
  pub points : List Point
  pub case : Text
  pub ticks : ℤ
  pub seed : Text
  pub world : Text
  pub region : Text
  pub image : Text
  pub out : Text

-- `pixelOut`
pub record PixelOut : Type 0 where
  pub image : Text
  pub width : ℕ
  pub height : ℕ
  pub samples : List Sample

pub data PixelError : Type 0 where
  no_points : PixelError
  stopped : Text → PixelError
  shot_failed : VisualError → PixelError
  outside : Point → ℕ → ℕ → PixelError

-- The manifest's DefaultCase and DefaultTicks.
pub record Defaults : Type 0 where
  pub case : Text
  pub ticks : ℤ

-- os.MkdirTemp, os.RemoveAll, and opening and decoding an image.
pub record Disk (W : Type 0) : Type 0 where
  pub make_temp : W → Result Text Text × W
  pub remove_all : Text → W → W
  pub open_image : Text → W → Result Text Image × W

abbrev Answer : Type 0
Answer = Result PixelError PixelOut

module _ {W : Type 0} (p : Page W) (d : Disk W) (a : PixelArgs) where
  -- `cleanup`
  clean_up : Option Text → W → W
  clean_up none w = w
  clean_up (some tmp) w = d.remove_all tmp w

  answer_at : Text → Image → Result Point (List Sample) → Answer
  answer_at path img (err q) = err (outside q img.width img.height)
  answer_at path img (ok ss) =
      ok (record { image = path; width = img.width; height = img.height; samples = ss })

  answer_of : Text → Result Text Image → Answer
  unfolding answer_at sample_points
  answer_of path (err e) = err (stopped e)
  answer_of path (ok img) = answer_at path img (sample_points img a.points)

  -- The end of visualPixel, with the deferred clean-up.
  sampled : Option Text → Text → W → Answer × W
  unfolding clean_up answer_of
  sampled tmp path w = let (r, w') = d.open_image path w in (answer_of path r, clean_up tmp w')

  shot_options : Defaults → Text → ShotOptions
  shot_options m path = record {
    case = if is_empty a.case then m.case else a.case;
    ticks = if is_positive a.ticks then a.ticks else m.ticks;
    seed = a.seed;
    world_seed = a.world;
    output = path;
    region = a.region;
    expr = [];
  }

  after_shot : Option Text → Text → Result VisualError ShotResult × W → Answer × W
  unfolding clean_up sampled
  after_shot tmp path (err e, w) = (err (shot_failed e), clean_up tmp w)
  after_shot tmp path (ok r, w) = sampled tmp path w

  -- From the opening of the browser on.
  captured : Defaults → Option Text → Text → Result Text Text × W → Answer × W
  unfolding clean_up after_shot shot_options shot
  captured m tmp path (err e, w) = (err (stopped e), clean_up tmp w)
  captured m tmp path (ok u, w) = after_shot tmp path (shot p (shot_options m path) w)

module _ {W : Type 0} (p : Page W) (d : Disk W) (a : PixelArgs)
    (open_page : W → Result Text Text × W) where
  with_temp : Defaults → Result Text Text × W → Answer × W
  unfolding captured
  with_temp m (err e, w) = (err (stopped e), w)
  with_temp m (ok tmp, w) = captured p d a m (some tmp) (tmp ++ codes "/sample.png") (open_page w)

  with_manifest : Result Text Defaults × W → Answer × W
  unfolding captured with_temp
  with_manifest (err e, w) = (err (stopped e), w)
  with_manifest (ok m, w) =
      if is_empty a.out
      then with_temp m (d.make_temp w)
      else captured p d a m none a.out (open_page w)

  unfoldable pub visual_pixel : (open_manifest : W → Result Text Defaults × W) → W → Answer × W
  unfolding with_manifest sampled
  visual_pixel open_manifest w =
      if is_nil a.points
      then (err no_points, w)
      else if is_empty a.image
      then with_manifest (open_manifest w)
      else sampled p d a none a.image w
