-- ===== src/Visual/Crop/Region.antt =====
-- internal/visual/crop.go, cropPNG: which pixels the region has. The far end of the rectangle is the
-- sum of ints, which wraps at 64 bits.
use game_forge.Prelude.{
  ℕ, ◌+◌, ◌<◌, ◌≤◌, Bool, true, false, ◌&&◌, ltb, leb, if◌then◌else◌, Option, none, some, ◌≡◌, refl,
  ◌∙◌, not, ◌||◌, arith,
}
use game_forge.Prelude.Int.{ℤ, pos, negsuc}
use game_forge.Visual.Crop.{
  RegionRect, Image, Rgba, plus, clamp, Span, in_order, span, has_pixels, drawn, crop,
}

-- `z ≤ n`, for an integer and a coordinate.
at_most : ℤ → ℕ → Bool
at_most (pos m) n = leb m n
at_most (negsuc m) n = true

-- Whether a coordinate lies between two ends, whichever comes first.
between : ℤ → ℤ → ℕ → Bool
unfolding at_most
between a b n = (at_most a n && not (at_most b n)) || (at_most b n && not (at_most a n))

in_span : Span → ℕ → Bool
in_span s n = leb s.from n && ltb n s.to

clamp-at_most : (bound : ℕ) (z : ℤ) (n : ℕ) → n < bound → leb (clamp bound z) n ≡ at_most z n
unfolding clamp at_most
clamp-at_most bound (pos m) n h = ground (arith, h)
clamp-at_most bound (negsuc m) n h = ground (arith, h)

in_order-between :
    (a b n : ℕ)
    → in_span (in_order a b) n ≡ ((leb a n && not (leb b n)) || (leb b n && not (leb a n)))
unfolding in_order in_span
in_order-between a b n = ground arith

span_iff :
    (bound : ℕ) (start length : ℤ) (n : ℕ)
    → n < bound
    → in_span (span bound start length) n ≡ between start (plus start length) n
unfolding span between
span_iff bound start length n h =
    in_order-between (clamp bound start) (clamp bound (plus start length)) n
    ∙ rw (clamp-at_most bound start n h, clamp-at_most bound (plus start length) n h) refl

clamp_bound : (bound : ℕ) (z : ℤ) → clamp bound z ≤ bound
unfolding clamp
clamp_bound bound (pos m) = ground arith
clamp_bound bound (negsuc m) = ground arith

span_bound : (bound : ℕ) (start length : ℤ) → (span bound start length).to ≤ bound
unfolding span in_order
span_bound bound start length =
    ground (arith, clamp_bound bound start, clamp_bound bound (plus start length))

-- Cut to the bounds: no bound on the coordinate is needed.
span_all :
    (bound : ℕ) (start length : ℤ) (n : ℕ)
    → (between start (plus start length) n && ltb n bound) ≡ in_span (span bound start length) n
unfolding in_span
span_all bound start length n =
    ground (arith, span_iff bound start length n, span_bound bound start length)

-- Whether a pixel of the image lies in the rectangle.
covers : Image → RegionRect → ℕ → ℕ → Bool
unfolding between
covers img r x y =
    (between r.x (plus r.x r.width) x && ltb x img.width)
    && (between r.y (plus r.y r.height) y && ltb y img.height)

-- The result is the part of the image that the rectangle covers, or none if it covers no pixel.
pub IsRegion : (Rgba → Rgba) → Image → RegionRect → Option Image → Type 0
unfolding covers
IsRegion store img r none = (x y : ℕ) → covers img r x y ≡ false
IsRegion store img r (some out) =
    (left top : ℕ) × (0 < out.width)
    × (0 < out.height)
    × (left + out.width ≤ img.width)
    × (top + out.height ≤ img.height)
    × ((x y : ℕ)
        → covers img r x y
          ≡ ((leb left x && ltb x (left + out.width)) && (leb top y && ltb y (top + out.height))))
    × ((x y : ℕ) → out.at x y ≡ store (img.at (left + x) (top + y)))

by_spans :
    (store : Rgba → Rgba) (img : Image) (r : RegionRect) (h v : Span)
    → ((x : ℕ) → (between r.x (plus r.x r.width) x && ltb x img.width) ≡ in_span h x)
    → ((y : ℕ) → (between r.y (plus r.y r.height) y && ltb y img.height) ≡ in_span v y)
    → h.to ≤ img.width
    → v.to ≤ img.height
    → (b : Bool) → has_pixels h v ≡ b
    → IsRegion store img r (if b then some (drawn store img h v) else none)
unfolding IsRegion in_span has_pixels drawn covers
by_spans store img r h v eh ev bh bv true e = (
  h.from,
  v.from,
  ground (arith, e),
  ground (arith, e),
  ground (arith, e),
  ground (arith, e),
  λ x y. rw (eh x, ev y) (ground (arith, e)),
  λ x y. refl,
)
by_spans store img r h v eh ev bh bv false e = λ x y. rw (eh x, ev y) (ground (arith, e))

-- `cropPNG` cuts out exactly the pixels of the image that lie in the rectangle, a negative width or height being
-- read to the left of or above its origin, and it fails as empty exactly if no pixel of the
-- image does. The far ends are the sums of ints that Go has, wrapped at 64 bits. The result is not empty, lies within the image, and each of its pixels has
-- the stored colour of the pixel of the image at the same place from the corner that is cut out.
pub crop-IsRegion :
    (store : Rgba → Rgba) (img : Image) (r : RegionRect) → IsRegion store img r (crop store img r)
unfolding crop
crop-IsRegion store img r =
    by_spans store img r (span img.width r.x r.width) (span img.height r.y r.height)
      (λ x. span_all img.width r.x r.width x) (λ y. span_all img.height r.y r.height y)
      (span_bound img.width r.x r.width) (span_bound img.height r.y r.height)
      (has_pixels (span img.width r.x r.width) (span img.height r.y r.height)) refl
