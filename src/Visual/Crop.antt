-- ===== src/Visual/Crop.antt =====
-- internal/visual/crop.go, cropPNG: the region that is cut out of a screenshot. The bounds of what png.Decode gives
-- begin at (0, 0).
pub mod Region
pub mod Written
use game_forge.Prelude.{
  ℕ, suc, ◌+◌, ◌-◌, ◌^◌, Bool, ◌&&◌, Text, ltb, leb, if◌then◌else◌, Result, ok, err, Option, none,
  some,
}
use game_forge.Prelude.Int.{ℤ, pos, negsuc}

-- A named crop rectangle.
pub record RegionRect : Type 0 where
  pub x : ℤ
  pub y : ℤ
  pub width : ℤ
  pub height : ℤ

-- What `RGBA` gives, with 16 bits each.
pub record Rgba : Type 0 where
  pub r : ℕ
  pub g : ℕ
  pub b : ℕ
  pub a : ℕ

-- A decoded image: its size, and its pixels, counted from the corner `Min` of its bounds.
pub record Image : Type 0 where
  pub width : ℕ
  pub height : ℕ
  pub at : ℕ → ℕ → Rgba

-- `m - n` as an integer.
pub minus : ℕ → ℕ → ℤ
minus m n = if leb n m then pos (m - n) else negsuc (n - suc m)

-- The sum of two ints of 64 bits: it wraps at 2^63.
pub plus : ℤ → ℤ → ℤ
unfolding minus
plus (pos m) (pos n) = if ltb (m + n) (2 ^ 63) then pos (m + n) else negsuc (2 ^ 64 - suc (m + n))
plus (pos m) (negsuc n) = minus m (suc n)
plus (negsuc m) (pos n) = minus n (suc m)
plus (negsuc m) (negsuc n) =
    if ltb (suc (m + n)) (2 ^ 63) then negsuc (suc (m + n)) else pos (2 ^ 64 - suc (suc (m + n)))

-- The nearest number from 0 to the bound.
pub clamp : ℕ → ℤ → ℕ
clamp bound (pos n) = if ltb n bound then n else bound
clamp bound (negsuc n) = 0

-- From the first coordinate on, up to the second and without it.
pub record Span : Type 0 where
  pub from : ℕ
  pub to : ℕ

in_order : ℕ → ℕ → Span
in_order m n = if leb m n then record { from = m; to = n } else record { from = n; to = m }

-- One axis of image.Rect, which swaps the ends of a negative length, and of Intersect with the bounds.
unfoldable pub span : ℕ → ℤ → ℤ → Span
unfolding clamp plus in_order
span bound start length = in_order (clamp bound start) (clamp bound (plus start length))

-- `r.Empty()` does not hold.
pub has_pixels : Span → Span → Bool
has_pixels h v = ltb h.from h.to && ltb v.from v.to

-- draw.Draw into an image of the size of the region, which stores a colour as `store` gives it.
pub drawn : (Rgba → Rgba) → Image → Span → Span → Image
drawn store img h v = record {
  width = h.to - h.from;
  height = v.to - v.from;
  at = λ x y. store (img.at (h.from + x) (v.from + y));
}

unfoldable pub crop : (Rgba → Rgba) → Image → RegionRect → Option Image
unfolding span has_pixels drawn
crop store img r =
    let h = span img.width r.x r.width in
    let v = span img.height r.y r.height in
    if has_pixels h v then some (drawn store img h v) else none

pub data CropError : Type 0 where
  open_failed write_failed : Text → CropError
  region_empty : CropError

-- Opening with png.Decode, os.Create with png.Encode, and what draw.Draw makes of a colour for an image of the type RGBA.
pub record Png (W : Type 0) : Type 0 where
  pub read : Text → W → Result Text Image × W
  pub write : Text → Image → W → Result Text Text × W
  pub store : Rgba → Rgba

written : {W : Type 0} → Result Text Text × W → Result CropError Text × W
written (err e, w) = (err (write_failed e), w)
written (ok u, w) = (ok u, w)

write_region : {W : Type 0} → Png W → Text → Option Image → W → Result CropError Text × W
unfolding written
write_region f dst none w = (err region_empty, w)
write_region f dst (some img) w = written (f.write dst img w)

cropped_from :
    {W : Type 0} → Png W → Text → RegionRect → Result Text Image × W → Result CropError Text × W
unfolding write_region crop
cropped_from f dst r (err e, w) = (err (open_failed e), w)
cropped_from f dst r (ok img, w) = write_region f dst (crop f.store img r) w

unfoldable pub crop_png :
    {W : Type 0} → Png W → Text → Text → RegionRect → W → Result CropError Text × W
unfolding cropped_from
crop_png f src dst r w = cropped_from f dst r (f.read src w)
