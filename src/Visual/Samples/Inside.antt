-- ===== src/Visual/Samples/Inside.antt =====
-- internal/core/ops.go, sampleImage: which points are sampled.
use game_forge.Prelude.{
  ℕ, ◌<◌, ◌≤◌, Bool, true, false, List, [], ◌∷◌, ◌++◌, ltb, if◌then◌else◌, Option, none, some,
  Result, ok, err, ◌≡◌, refl, ap, arith,
}
use game_forge.Prelude.Int.{ℤ, pos, negsuc}
use game_forge.Visual.Crop.{Image}
use game_forge.Visual.Samples.{
  Sample, sample_of, Point, within, sample_xy, sample_point, sample_points,
}

-- The samples of points that lie in the image.
data Sampled (img : Image) : List Point → List Sample → Type 0 where
  no_more : Sampled img [] []
  sample_at :
      (x y : ℕ) {ps : List Point} {ss : List Sample}
      → x < img.width
      → y < img.height
      → Sampled img ps ss
      → Sampled img ((pos x, pos y) ∷ ps) (sample_of x y (img.at x y) ∷ ss)

-- A point that does not.
data Outside (img : Image) : Point → Type 0 where
  left_of : {n : ℕ} {y : ℤ} → Outside img (negsuc n, y)
  above : {x : ℤ} {n : ℕ} → Outside img (x, negsuc n)
  right_of : {n : ℕ} {y : ℤ} → img.width ≤ n → Outside img (pos n, y)
  below : {x : ℤ} {n : ℕ} → img.height ≤ n → Outside img (x, pos n)

-- All points are sampled, or the first that is outside is named.
pub IsSampling : Image → List Point → Result Point (List Sample) → Type 0
IsSampling img ps (ok ss) = Sampled img ps ss
IsSampling img ps (err q) =
    (before after : List Point) × (ss : List Sample) × (ps ≡ before ++ q ∷ after)
    × Sampled img before ss
    × Outside img q

-- What the body of the loop finds for one point.
data Found (img : Image) : Point → Option Sample → Type 0 where
  refused : {q : Point} → Outside img q → Found img q none
  taken :
      (x y : ℕ)
      → x < img.width
      → y < img.height
      → Found img (pos x, pos y) (some (sample_of x y (img.at x y)))

above-Found :
    (img : Image) (x : ℤ) (n : ℕ) (o : Option ℕ) → Found img (x, negsuc n) (sample_xy img o none)
unfolding sample_xy
above-Found img x n none = refused above
above-Found img x n (some k) = refused above

sample_xy-Found :
    (img : Image) (x y : ℕ) (b c : Bool)
    → ltb x img.width ≡ b
    → ltb y img.height ≡ c
    → Found img
        (pos x, pos y)
        (sample_xy img (if b then some x else none) (if c then some y else none))
unfolding sample_xy
sample_xy-Found img x y true true h k = taken x y (ground (arith, h)) (ground (arith, k))
sample_xy-Found img x y true false h k = refused (below (ground (arith, k)))
sample_xy-Found img x y false c h k = refused (right_of (ground (arith, h)))

sample_point-Found : (img : Image) (q : Point) → Found img q (sample_point img q)
unfolding sample_point within sample_xy
sample_point-Found img (negsuc n, y) = refused left_of
sample_point-Found img (pos x, negsuc n) =
    above-Found img (pos x) n (if ltb x img.width then some x else none)
sample_point-Found img (pos x, pos y) =
    sample_xy-Found img x y (ltb x img.width) (ltb y img.height) refl refl

extend :
    (img : Image) (q : Point) (ps : List Point) (o : Option Sample) (r : Result Point (List Sample))
    → Found img q o
    → IsSampling img ps r
    → IsSampling img
        (q ∷ ps)
        (elim o [ none ↦ err q | some s ↦ elim r [ err q ↦ err q | ok ss ↦ ok (s ∷ ss) ] ])
unfolding IsSampling
extend img q ps none r (refused out) j = ([], ps, [], refl, no_more, out)
extend img q ps (some s) (ok ss) (taken x y lx ly) j = sample_at x y lx ly j
extend img q ps (some s) (err o) (taken x y lx ly) (before, after, ss, g, k, out) =
    (q ∷ before, after, _, ap (λ l. q ∷ l) g, sample_at x y lx ly k, out)

-- `sampleImage` gives one sample per point, in their order, if every point lies in the image: that of the pixel
-- at the point. Otherwise it fails with the first point that is left of the image, above it, or at or beyond its
-- width or height. So no pixel outside the image is read.
pub sample_points-IsSampling :
    (img : Image) (ps : List Point) → IsSampling img ps (sample_points img ps)
unfolding sample_points IsSampling
sample_points-IsSampling img [] = no_more
sample_points-IsSampling img (q ∷ ps) =
    extend img q ps (sample_point img q) (sample_points img ps) (sample_point-Found img q)
      (sample_points-IsSampling img ps)
