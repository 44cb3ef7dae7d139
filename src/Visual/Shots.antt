-- ===== src/Visual/Shots.antt =====
-- internal/visual/visual.go, Shot: what a screenshot that succeeds went through.
pub mod Way
use game_forge.Prelude.{
  ℕ, true, false, not, Bool, [], ◌∷◌, List, Text, is_empty, if◌then◌else◌, Option, none, some,
  Result, ok, err, ◌≡◌, refl, sym, ap, ◌∙◌, ok_injective, All, arith, inl, inr,
}
use game_forge.Prelude.Int.{ℤ, is_positive}
use game_forge.Visual.Crop.{RegionRect, CropError, crop_png}
use game_forge.Visual.Crop.Written.{IsCropped, crop_png-ok}
use game_forge.Visual.{
  Page, ShotOptions, ShotResult, VisualError, after, shot, taken, load_case, load_script, option_of,
  advance, run_expr, capture_path, fresh_errors, told, checked_shot, finish_shot, is_cropped,
  crop_region, region_script, stated, with_region, filter_noise, is_noise, not_written,
  region_failed, crop_failed,
}
use game_forge.Visual.Shots.Way.{
  Did, DidIf, messages, loading, advancing, asking_region, wants_region, target, IsCut, IsStated,
  IsWritten, IsClean,
}

after-ok :
    {W E A B : Type 0} (wrap : E → VisualError) (r : Result E A × W)
    (next : A → W → Result VisualError B × W) {b : B}
    → (after wrap r next).0 ≡ ok b
    → (a : A) × (w : W) × (r ≡ (ok a, w)) × ((next a w).0 ≡ ok b)
after-ok wrap (err e, w) next h = cc
after-ok wrap (ok a, w) next h = (a, w, refl, h)

-- A call that may be skipped, read from its result.
did_unless :
    {W : Type 0} (b : Bool) (r : Result Text Text × W) (w v : W) {a : Text}
    → (if b then (ok [], w) else r) ≡ (ok a, v)
    → DidIf (not b) r w v
did_unless true r w v h = inr (refl, sym (ap (λ x. x.1) h))
did_unless false r w v h = inl (refl, (_, h))

did_if :
    {W : Type 0} (b : Bool) (r : Result Text Text × W) (w v : W) {a : Text}
    → (if not b then (ok [], w) else r) ≡ (ok a, v)
    → DidIf b r w v
did_if true r w v h = inl (refl, (_, h))
did_if false r w v h = inr (refl, sym (ap (λ x. x.1) h))

filter_noise-nil :
    (other : ℕ → ℕ) (ms : List Text)
    → filter_noise other ms ≡ []
    → All (λ m. is_noise other m ≡ true) ms
unfolding filter_noise
filter_noise-nil other [] h = tt
filter_noise-nil other (m ∷ ms) h = ground (arith, filter_noise-nil other ms)

module _ {W : Type 0} (p : Page W) where
  stated-ok :
      (o : ShotOptions) (v : W) (r : ShotResult) → (stated p o v).0 ≡ ok r → IsStated p o v r
  unfolding stated
  stated-ok o v r h =
      let (size, u, e, g) = after-ok not_written (p.stat o.output v) _ h in
      let same = ok_injective g in
      (
        u,
        e ∙ ap (λ x. (ok x, u)) (ap (λ s. s.bytes) same),
        sym (ap (λ s. s.case) same),
        sym (ap (λ s. s.ticks) same),
        sym (ap (λ s. s.output) same),
      )

  same_target : (o : ShotOptions) → capture_path p o ≡ target p o
  unfolding capture_path target is_cropped wants_region
  same_target o = refl

  with_region-IsCut :
      (o : ShotOptions) (w : W) (r : ShotResult)
      → (with_region p o (crop_region p o w)).0 ≡ ok r
      → (v : W) × IsCut p o w v × IsStated p o v r
  unfolding crop_region region_script with_region IsCut IsCropped asking_region capture_path target
      is_cropped wants_region
  with_region-IsCut o w r h = by_rect (p.eval_rect (asking_region p o) w) refl h
    where
      by_crop :
          (rect : RegionRect) (w1 : W) (c : Result CropError Text × W)
          → p.eval_rect (asking_region p o) w ≡ (ok rect, w1)
          → crop_png p.png (target p o) o.output rect w1 ≡ c
          → (with_region p o
              (after crop_failed c (λ u w2. (ok u, p.remove_file (target p o) w2)))).0
            ≡ ok r
          → (v : W) × IsCut p o w v × IsStated p o v r
      by_crop rect w1 (err e, w2) i j h = cc
      by_crop rect w1 (ok u, w2) i j h =
          let (img, out, wa, read, cut, put) =
            crop_png-ok p.png (target p o) o.output rect w1 w2 j in
          let v = p.remove_file (target p o) w2 in
          (v, (rect, img, out, w1, wa, w2, i, read, cut, put, refl), stated-ok o v r h)

      by_rect :
          (c : Result Text RegionRect × W)
          → p.eval_rect (asking_region p o) w ≡ c
          → (with_region p o (
              after region_failed c (λ rect w1.
                after crop_failed
                  (crop_png p.png (target p o) o.output rect w1)
                  (λ u w2. (ok u, p.remove_file (target p o) w2))))).0
            ≡ ok r
          → (v : W) × IsCut p o w v × IsStated p o v r
      by_rect (err e, w1) i h = cc
      by_rect (ok rect, w1) i h =
          by_crop rect w1 (crop_png p.png (target p o) o.output rect w1) i refl h

  finish_by :
      (o : ShotOptions) (w : W) (r : ShotResult) (b : Bool)
      → wants_region p o ≡ b
      → (if b then with_region p o (crop_region p o w) else stated p o w).0 ≡ ok r
      → IsWritten p o w r
  unfolding IsWritten
  finish_by o w r true e h = let (v, cut, s) = with_region-IsCut o w r h in (v, inl (e, cut), s)
  finish_by o w r false e h = (w, inr (e, refl), stated-ok o w r h)

  finish_shot-ok :
      (o : ShotOptions) (w : W) (r : ShotResult) → (finish_shot p o w).0 ≡ ok r → IsWritten p o w r
  unfolding finish_shot is_cropped wants_region
  finish_shot-ok o w r h = finish_by o w r (wants_region p o) refl h

  -- The page's answer has nothing but noise.
  IsQuiet : Result Text (List Text) → Type 0
  unfolding messages
  IsQuiet told = All (λ m. is_noise p.other m ≡ true) (messages told)

  quiet : (told_by : Result Text (List Text)) → told p told_by ≡ [] → IsQuiet told_by
  unfolding told IsQuiet
  quiet (ok ms) h = filter_noise-nil p.other ms h
  quiet (err e) h = tt

  checked_shot-ok :
      (o : ShotOptions) (ms : List Text) (w : W) (r : ShotResult)
      → (checked_shot p o (ms, w)).0 ≡ ok r
      → (ms ≡ []) × IsWritten p o w r
  unfolding checked_shot
  checked_shot-ok o [] w r h = (refl, finish_shot-ok o w r h)
  checked_shot-ok o (m ∷ ms) w r h = cc

  taken-IsClean :
      (o : ShotOptions) (w : W) (r : ShotResult)
      → is_empty o.case ≡ false
      → is_empty o.output ≡ false
      → (taken p o w).0 ≡ ok r
      → IsClean p o w r
  unfolding taken IsClean fresh_errors load_case load_script option_of loading advance advancing
      run_expr capture_path target is_cropped wants_region IsQuiet
  taken-IsClean o w r c f h =
      let (a1, w1, e1, h1) =
        after-ok _ (load_case p o.case o.seed o.world_seed (p.clear_errors w)) _ h in
      let (a2, w2, e2, h2) = after-ok _ (advance p o.ticks w1) _ h1 in
      let (a3, w3, e3, h3) = after-ok _ (run_expr p o w2) _ h2 in
      let (a4, w4, e4, h4) = after-ok _ (p.screenshot (capture_path p o) w3) _ h3 in
      let (raw, w5) = p.page_errors w4 in
      let (none_told, s) = checked_shot-ok o (told p raw) w5 r h4 in
      (
        c,
        f,
        w1,
        w2,
        w3,
        w4,
        w5,
        raw,
        (a1, e1),
        did_if (is_positive o.ticks) (p.eval_string (advancing p o) w1) w1 w2 e2,
        did_unless (is_empty o.expr) (p.eval_string o.expr w2) w2 w3 e3,
        (a4, e4),
        refl,
        quiet raw none_told,
        s,
      )

  -- A shot that succeeds has a case and an output path, and went this way: the errors of the page were cleared,
  -- the case was loaded, the ticks ran if they are positive and the expression if there is one, and the
  -- screenshot was taken, each with success and in this order; the page was then asked for its
  -- errors, and all that it told is noise, where an answer that failed counts as having told
  -- nothing; if a region is asked for, it was resolved, cut out of the screenshot and written,
  -- and the screenshot removed; and the file at the output path has the size that is
  -- returned with the case, the ticks and the path.
  pub shot-IsClean :
      (o : ShotOptions) (w : W) (r : ShotResult) → (shot p o w).0 ≡ ok r → IsClean p o w r
  unfolding shot
  shot-IsClean o w r h = by_case (is_empty o.case) (is_empty o.output) refl refl h
    where
      by_case :
          (b c : Bool)
          → is_empty o.case ≡ b
          → is_empty o.output ≡ c
          → (if b
              then (err VisualError.case_required, w)
              else if c
              then (err VisualError.output_required, w)
              else taken p o w).0
            ≡ ok r
          → IsClean p o w r
      by_case true c x y h = cc
      by_case false true x y h = cc
      by_case false false x y h = taken-IsClean o w r x y h
