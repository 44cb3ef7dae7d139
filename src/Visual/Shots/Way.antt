-- ===== src/Visual/Shots/Way.antt =====
-- internal/visual/visual.go, Shot: the calls of a screenshot that succeeds, in terms of the session and the files.
use game_forge.Prelude.{
  Bool, true, false, not, ◌&&◌, List, [], ◌∷◌, ◌++◌, map, Text, codes, is_empty, text_eq,
  if◌then◌else◌, some, Result, ok, err, All, ◌≡◌, ◌⊎◌,
}
use game_forge.Prelude.Int.{is_positive}
use game_forge.Project.Code.{lower}
use game_forge.Visual.Crop.{RegionRect, Image, crop}
use game_forge.Visual.{Page, ShotOptions, ShotResult, is_noise}

-- A call that succeeded, and what it left.
abbrev pub Did : {W A E : Type 0} → Result E A × W → W → Type 0
Did {A = A} r w = (a : A) × (r ≡ (ok a, w))

-- A call that is made if there is a reason for it.
abbrev pub DidIf : {W A E : Type 0} → Bool → Result E A × W → W → W → Type 0
DidIf wanted r w v = ((wanted ≡ true) × Did r v) ⊎ ((wanted ≡ false) × (v ≡ w))

-- The messages of an answer; one that failed has none.
unfoldable pub messages : Result Text (List Text) → List Text
messages (ok ms) = ms
messages (err e) = []

module _ {W : Type 0} (p : Page W) (o : ShotOptions) where
  -- The scripts.
  unfoldable pub loading : Text
  loading =
      let seed = if is_empty o.seed then [] else (codes "seed", o.seed) ∷ [] in
      let world = if is_empty o.world_seed then [] else (codes "worldSeed", o.world_seed) ∷ [] in
      codes "window.__gameForge.visual.load("
      ++ (p.quote o.case ++ (codes ", " ++ (p.marshal (seed ++ world) ++ codes "); 'ok'")))

  unfoldable pub advancing : Text
  advancing = codes "window.__gameForge.advance(" ++ (p.itoa o.ticks ++ codes "); 'ok'")

  unfoldable pub asking_region : Text
  asking_region =
      codes "JSON.stringify(window.__gameForge.region(" ++ (p.quote o.region ++ codes "))")

  -- Whether a region is asked for, and where the screenshot is put.
  unfoldable pub wants_region : Bool
  unfolding lower
  wants_region =
      let name = map (lower p.other) o.region in
      not (is_empty name) && not (text_eq name (codes "full"))

  unfoldable pub target : Text
  unfolding wants_region
  target = if wants_region then o.output ++ codes ".full.png" else o.output

  -- The region is resolved, cut out of the screenshot and written, and the screenshot is removed.
  unfoldable pub IsCut : W → W → Type 0
  unfolding target asking_region
  IsCut w v =
      (rect : RegionRect) × (img out : Image) × (w1 w2 w3 : W) × (p.eval_rect asking_region w
        ≡ (ok rect, w1))
      × (p.png.read target w1 ≡ (ok img, w2))
      × (crop p.png.store img rect ≡ some out)
      × Did (p.png.write o.output out w2) w3
      × (v ≡ p.remove_file target w3)

  -- The file of the result is there.
  abbrev pub IsStated : W → ShotResult → Type 0
  IsStated v r =
      (u : W) × (p.stat o.output v ≡ (ok r.bytes, u))
      × (r.case ≡ o.case)
      × (r.ticks ≡ o.ticks)
      × (r.output ≡ o.output)

  -- It is the screenshot itself, or the region cut out of it.
  unfoldable pub IsWritten : W → ShotResult → Type 0
  unfolding wants_region IsCut
  IsWritten w r =
      (v : W) × (((wants_region ≡ true) × IsCut w v) ⊎ ((wants_region ≡ false) × (v ≡ w)))
      × IsStated v r

  -- The way of a shot, one state after each call.
  unfoldable pub IsClean : W → ShotResult → Type 0
  unfolding loading advancing target messages IsWritten
  IsClean w r =
      (is_empty o.case ≡ false)
      × (is_empty o.output ≡ false)
      × (w1 w2 w3 w4 w5 : W) × (told : Result Text (List Text)) × Did
          (p.eval_string loading (p.clear_errors w)) w1
      × DidIf (is_positive o.ticks) (p.eval_string advancing w1) w1 w2
      × DidIf (not (is_empty o.expr)) (p.eval_string o.expr w2) w2 w3
      × Did (p.screenshot target w3) w4
      × (p.page_errors w4 ≡ (told, w5))
      × All (λ m. is_noise p.other m ≡ true) (messages told)
      × IsWritten w5 r
