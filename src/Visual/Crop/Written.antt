-- ===== src/Visual/Crop/Written.antt =====
-- internal/visual/crop.go, cropPNG: the files of a region that was cut out.
use game_forge.Prelude.{Text, Option, none, some, Result, ok, err, ◌≡◌, refl, ap}
use game_forge.Visual.Crop.{
  RegionRect, Image, Png, crop, crop_png, cropped_from, write_region, written,
}

-- A call that succeeded, and what it left.
abbrev Did : {W A E : Type 0} → Result E A × W → W → Type 0
Did {A = A} r w = (a : A) × (r ≡ (ok a, w))

-- What a region that was cut went through.
module _ {W : Type 0} (f : Png W) where
  written-ok : (r : Result Text Text × W) (v : W) {a : Text} → written r ≡ (ok a, v) → Did r v
  unfolding written
  written-ok (err e, w) v h = cc
  written-ok (ok u, w) v h = (u, ap (λ x. (ok u, x)) (ap (λ x. x.1) h))

  unfoldable pub IsCropped : Text → Text → RegionRect → W → W → Type 0
  IsCropped src dst rect w v =
      (img out : Image) × (w1 : W) × (f.read src w ≡ (ok img, w1))
      × (crop f.store img rect ≡ some out)
      × Did (f.write dst out w1) v

  write_region-ok :
      (dst : Text) (o : Option Image) (w v : W) {a : Text}
      → write_region f dst o w ≡ (ok a, v)
      → (out : Image) × (o ≡ some out) × Did (f.write dst out w) v
  unfolding write_region
  write_region-ok dst none w v h = cc
  write_region-ok dst (some out) w v h = (out, refl, written-ok (f.write dst out w) v h)

  cropped_from-ok :
      (src dst : Text) (rect : RegionRect) (w v : W) (r : Result Text Image × W) {a : Text}
      → f.read src w ≡ r
      → cropped_from f dst rect r ≡ (ok a, v)
      → IsCropped src dst rect w v
  unfolding cropped_from IsCropped
  cropped_from-ok src dst rect w v (err e, w1) i h = cc
  cropped_from-ok src dst rect w v (ok img, w1) i h =
      let (out, e, d) = write_region-ok dst (crop f.store img rect) w1 v h in
      (img, out, w1, i, e, d)

  pub crop_png-ok :
      (src dst : Text) (rect : RegionRect) (w v : W) {a : Text}
      → crop_png f src dst rect w ≡ (ok a, v)
      → IsCropped src dst rect w v
  unfolding crop_png
  crop_png-ok src dst rect w v h = cropped_from-ok src dst rect w v (f.read src w) refl h
