-- ===== src/Visual/Samples/Capture.antt =====
-- internal/core/ops.go, visualPixel: what becomes of the temporary directory of a capture.
use game_forge.Prelude.{
  true, false, List, ◌++◌, Text, codes, is_empty, is_nil, some, Result, ok, err, ◌≡◌, refl,
}
use game_forge.Visual.{Page, ShotResult, VisualError, shot}
use game_forge.Visual.Crop.{Image}
use game_forge.Visual.Samples.{
  Point, Sample, sample_points, PixelArgs, PixelOut, PixelError, Defaults, Disk, clean_up,
  answer_at, answer_of, sampled, shot_options, after_shot, captured, with_temp, with_manifest,
  visual_pixel,
}

capture_name : Text → Text
capture_name tmp = tmp ++ codes "/sample.png"

-- The image that an answer names, if it is one.
Names : Text → Result PixelError PixelOut → Type 0
Names path (err e) = Unit {0}
Names path (ok out) = out.image ≡ path

module _ {W : Type 0} (p : Page W) (d : Disk W) (a : PixelArgs) where
  -- The directory is removed at the end, and the image that is named was in it.
  pub IsRemoved : Text → Result PixelError PixelOut × W → Type 0
  unfolding Names capture_name
  IsRemoved tmp r = (v : W) × (r.1 ≡ d.remove_all tmp v) × Names (capture_name tmp) r.0

  answer_of-Names : (path : Text) (i : Result Text Image) → Names path (answer_of p d a path i)
  unfolding answer_of Names
  answer_of-Names path (err e) = tt
  answer_of-Names path (ok img) = by_samples (sample_points img a.points)
    where
      by_samples : (r : Result Point (List Sample)) → Names path (answer_at p d a path img r)
      by_samples (err q) = tt
      by_samples (ok ss) = refl

  after_shot-IsRemoved :
      (tmp : Text) (r : Result VisualError ShotResult × W)
      → IsRemoved tmp (after_shot p d a (some tmp) (capture_name tmp) r)
  unfolding after_shot IsRemoved sampled clean_up
  after_shot-IsRemoved tmp (err e, w) = (w, refl, tt)
  after_shot-IsRemoved tmp (ok r, w) =
      let opened = d.open_image (capture_name tmp) w in
      (opened.1, refl, answer_of-Names (capture_name tmp) opened.0)

  captured-IsRemoved :
      (m : Defaults) (tmp : Text) (r : Result Text Text × W)
      → IsRemoved tmp (captured p d a m (some tmp) (capture_name tmp) r)
  unfolding captured IsRemoved clean_up
  captured-IsRemoved m tmp (err e, w) = (w, refl, tt)
  captured-IsRemoved m tmp (ok u, w) =
      after_shot-IsRemoved tmp (shot p (shot_options p d a m (capture_name tmp)) w)

  -- `visualPixel`, called with points but with neither an image nor an output path, captures into a temporary
  -- directory. Whether the browser, the capture and the sampling then succeed or fail, the directory is
  -- removed at the end, after everything that uses it; and if there is an answer, the image that it
  -- names is the file `sample.png` of that directory.
  pub visual_pixel-IsRemoved :
      (open_page : W → Result Text Text × W) (open_manifest : W → Result Text Defaults × W)
      (w w1 w2 : W) (m : Defaults) (tmp : Text)
      → is_nil a.points ≡ false
      → is_empty a.image ≡ true
      → is_empty a.out ≡ true
      → open_manifest w ≡ (ok m, w1)
      → d.make_temp w1 ≡ (ok tmp, w2)
      → IsRemoved tmp (visual_pixel p d a open_page open_manifest w)
  unfolding visual_pixel with_manifest with_temp capture_name
  visual_pixel-IsRemoved open_page open_manifest w w1 w2 m tmp hp hi ho e f =
      rw hp (rw hi (rw e (rw ho (rw f (captured-IsRemoved m tmp (open_page w2))))))
