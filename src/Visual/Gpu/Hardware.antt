-- ===== src/Visual/Gpu/Hardware.antt =====
-- internal/core/ops.go, gpuRun: what a run without an error has found.
use game_forge.Prelude.{
  subst, ◌++◌, codes, ℕ, Bool, true, false, Text, is_empty, Option, if◌then◌else◌, none, some,
  Result, ok, err, ◌≡◌, refl, sym, ap, ◌∙◌, All, contains, List, [], ◌∷◌, any_by, arith,
}
use mathlib.Core.Option.{some-injective}
use game_forge.Prelude.Int.{pos, is_positive}
use game_forge.Visual.Gpu.{
  frames_used, RendererInfo, haystack, is_software, markers, Device, Options, GpuResult, GpuError,
  Verified, unless_failed, found, stop_with, benchmark_script, measured, measure, load_and_measure,
  inspected, verify, chosen, Answer, answered, answer_of, with_opened, gpu_run, load_scenario,
  run_ticks, software_renderer, inspect_failed, load_failed, advance_failed, benchmark_failed,
}

-- No name of a software renderer is in what the browser tells of its renderer.
IsHardware : (ℕ → ℕ) → RendererInfo → Type 0
IsHardware other r = All (λ marker. contains (haystack other r) marker ≡ false) markers

any_by-none :
    {A : Type 0} (f : A → Bool) (xs : List A) → any_by f xs ≡ false → All (λ x. f x ≡ false) xs
any_by-none f [] h = tt
any_by-none f (x ∷ xs) h = ground (arith, any_by-none f xs)

is_software-false :
    (other : ℕ → ℕ) (r : RendererInfo) → is_software other r ≡ false → IsHardware other r
unfolding is_software IsHardware
is_software-false other r h = any_by-none (λ marker. contains (haystack other r) marker) markers h

module _ {W B : Type 0} (d : Device W B) where
  -- From one state to the next by what the options ask for before the benchmark.
  data Loaded (o : Options) : W → W → Type 0 where
    no_scenario : {v : W} → is_empty o.scenario ≡ true → Loaded o v v
    no_ticks :
        {v v1 : W} {u : Text}
        → is_empty o.scenario ≡ false
        → d.eval_string
            (codes "window.__gameForge.visual.load(" ++ (d.quote o.scenario ++ codes "); 'ok'"))
            v
          ≡ (ok u, v1)
        → is_positive o.ticks ≡ false
        → Loaded o v v1
    some_ticks :
        {v v1 v2 : W} {u1 u2 : Text}
        → is_empty o.scenario ≡ false
        → d.eval_string
            (codes "window.__gameForge.visual.load(" ++ (d.quote o.scenario ++ codes "); 'ok'"))
            v
          ≡ (ok u1, v1)
        → is_positive o.ticks ≡ true
        → d.eval_string
            (codes "window.__gameForge.advance(" ++ (d.itoa o.ticks ++ codes "); 'ok'"))
            v1
          ≡ (ok u2, v2)
        → Loaded o v v2

  -- The script of the benchmark, over 120 frames if no number is set.
  measuring : Options → Text
  measuring o =
      codes "JSON.stringify(window.__gameForge.benchmark("
      ++ (d.itoa (if is_positive o.frames then o.frames else pos 120) ++ codes "))")

  -- The result of a measurement with the options `o`, one state after the other.
  IsMeasured : Options → W → GpuResult B → Type 0
  unfolding IsHardware measuring
  IsMeasured o w r =
      (info : RendererInfo) × (b : B) × (w1 w2 w3 : W) × (d.renderer w ≡ (ok info, w1))
      × IsHardware d.other info
      × Loaded o w1 w2
      × (d.eval_benchmark (measuring o) w2 ≡ (ok b, w3))
      × (r.renderer ≡ info)
      × (r.software ≡ false)
      × (r.benchmark ≡ some b)
      × (r.scenario ≡ o.scenario)
      × (r.ticks ≡ o.ticks)

  -- A result that is ok is measured.
  Sound : Options → W → Verified B → Type 0
  unfolding IsMeasured
  Sound o w v = (r : GpuResult B) → v.result ≡ some r → r.is_ok ≡ true → IsMeasured o w r

  unless_failed-Sound :
      (o : Options) (w : W) {A : Type 0} (stop : Text → Verified B) (c : Result Text A × W)
      (next : A → W → Verified B × W)
      → ((e : Text) → Sound o w (stop e))
      → ((a : A) (w' : W) → c ≡ (ok a, w') → Sound o w (next a w').0)
      → Sound o w (unless_failed stop c next).0
  unfolding unless_failed
  unless_failed-Sound o w stop (err e, v) next q g = q e
  unless_failed-Sound o w stop (ok a, v) next q g = g a v refl

  stop_with-Sound :
      (o : Options) (w : W) (info : RendererInfo) (wrap : Text → GpuError) (e : Text)
      → Sound o w (stop_with d o info wrap e)
  unfolding Sound stop_with found
  stop_with-Sound o w info wrap e r h k =
      ground (arith, ap (λ x. x.is_ok) (some-injective _ _ h), k)

  measured-Sound :
      (o : Options) (w w1 w2 w3 : W) (info : RendererInfo) (b : B)
      → d.renderer w ≡ (ok info, w1)
      → is_software d.other info ≡ false
      → Loaded o w1 w2
      → d.eval_benchmark (benchmark_script d o) w2 ≡ (ok b, w3)
      → Sound o w (measured d o info b)
  unfolding Sound measured IsMeasured measuring benchmark_script frames_used
  measured-Sound o w w1 w2 w3 info b e hard l m r h k =
      let same = some-injective _ _ h in
      (
        info,
        b,
        w1,
        w2,
        w3,
        e,
        is_software-false d.other info hard,
        l,
        m,
        sym (ap (λ x. x.renderer) same),
        sym (ap (λ x. x.software) same) ∙ hard,
        sym (ap (λ x. x.benchmark) same),
        sym (ap (λ x. x.scenario) same),
        sym (ap (λ x. x.ticks) same),
      )

  module _ (o : Options) (w w1 : W) (info : RendererInfo) (e : d.renderer w ≡ (ok info, w1)) where
    measure-Sound :
        (v : W)
        → is_software d.other info ≡ false
        → Loaded o w1 v
        → Sound o w (measure d o info v).0
    unfolding measure
    measure-Sound v hard l =
        unless_failed-Sound o w (stop_with d o info benchmark_failed)
          (d.eval_benchmark (benchmark_script d o) v) (λ b v'. (measured d o info b, v'))
          (λ x. stop_with-Sound o w info benchmark_failed x)
          (λ b v' m. measured-Sound o w w1 v v' info b e hard l m)

    run_ticks-Loaded :
        (b : Bool) (u u2 : Text) (v1 v2 : W)
        → is_positive o.ticks ≡ b
        → is_empty o.scenario ≡ false
        → load_scenario d o w1 ≡ (ok u, v1)
        → (if b
            then d.eval_string
                (codes "window.__gameForge.advance(" ++ (d.itoa o.ticks ++ codes "); 'ok'"))
                v1
            else (ok [], v1))
          ≡ (ok u2, v2)
        → Loaded o w1 v2
    unfolding load_scenario
    run_ticks-Loaded true u u2 v1 v2 t n i j = some_ticks n i t j
    run_ticks-Loaded false u u2 v1 v2 t n i j =
        subst (λ v. Loaded o w1 v) (ap (λ x. x.1) j) (no_ticks n i t)

    load_and_measure-Sound :
        is_software d.other info ≡ false
        → is_empty o.scenario ≡ false
        → Sound o w (load_and_measure d o info w1).0
    unfolding load_and_measure run_ticks
    load_and_measure-Sound hard n =
        unless_failed-Sound o w (stop_with d o info load_failed) (load_scenario d o w1)
          (λ u v1.
            unless_failed (stop_with d o info advance_failed) (run_ticks d o v1)
              (λ u2 v2. measure d o info v2))
          (λ x. stop_with-Sound o w info load_failed x)
          (λ u v1 i.
            unless_failed-Sound o w (stop_with d o info advance_failed) (run_ticks d o v1)
              (λ u2 v2. measure d o info v2) (λ x. stop_with-Sound o w info advance_failed x)
              (λ u2 v2 j.
                measure-Sound v2 hard
                  (run_ticks-Loaded (is_positive o.ticks) u u2 v1 v2 refl n i j)))

    inspected-Sound : Sound o w (inspected d o info w1).0
    unfolding inspected
    inspected-Sound = by_case (is_software d.other info) (is_empty o.scenario) refl refl
      where
        by_case :
            (s n : Bool)
            → is_software d.other info ≡ s
            → is_empty o.scenario ≡ n
            → Sound o w
                (if s
                  then (stop_with d o info software_renderer info.unmasked_renderer, w1)
                  else if n
                  then measure d o info w1
                  else load_and_measure d o info w1).0
        by_case true n h k = stop_with-Sound o w info software_renderer info.unmasked_renderer
        by_case false true h k = measure-Sound w1 h (no_scenario k)
        by_case false false h k = load_and_measure-Sound h k

  unseen : Text → Verified B
  unseen e = record { result = none; error = some (inspect_failed e) }

  unseen-Sound : (o : Options) (w : W) (e : Text) → Sound o w (unseen e)
  unfolding Sound unseen
  unseen-Sound o w e r h k = cc

  verify-Sound : (o : Options) (w : W) → Sound o w (verify d o w).0
  unfolding verify unseen
  verify-Sound o w =
      unless_failed-Sound o w unseen (d.renderer w) (inspected d o) (unseen-Sound o w)
        (λ info w1 e. inspected-Sound o w w1 info e)

  -- What is asked for, and the manifest's values for what is not.
  requested : Options → Options → Options
  requested asked default = record {
    scenario = if is_empty asked.scenario then default.scenario else asked.scenario;
    ticks = if is_positive asked.ticks then asked.ticks else default.ticks;
    frames = if is_positive asked.frames then asked.frames else default.frames;
  }

  -- The answer is an ok result, measured in the state `w`.
  IsPassed : Options → W → Answer B → Type 0
  unfolding IsMeasured
  IsPassed o w a = (r : GpuResult B) × (a.out ≡ some r) × (r.is_ok ≡ true) × IsMeasured o w r

  answered-IsPassed :
      (o : Options) (w : W) (v : Verified B)
      → Sound o w v
      → (answered v.result v.error).error ≡ none
      → IsPassed o w (answered v.result v.error)
  unfolding IsPassed Sound answered
  answered-IsPassed o w v s h = by_result v.result v.error (λ r e. s r e) h
    where
      by_result :
          (r : Option (GpuResult B)) (e : Option GpuError)
          → ((x : GpuResult B) → r ≡ some x → x.is_ok ≡ true → IsMeasured o w x)
          → (answered r e).error ≡ none
          → IsPassed o w (answered r e)
      by_result none none s h = cc
      by_result none (some e) s h = cc
      by_result (some r) e s h =
          let good : r.is_ok ≡ true = ground (arith, h) in (r, refl, good, s r refl good)

  with_opened_ok :
      {A : Type 0} (Q : Answer B → Type 0) (c : Result Text A × W) (next : A → W → Answer B × W)
      → ((a : A) (w : W) → c ≡ (ok a, w) → (next a w).0.error ≡ none → Q (next a w).0)
      → (with_opened c next).0.error ≡ none
      → Q (with_opened c next).0
  unfolding with_opened
  with_opened_ok Q (err e, w) next g h = cc
  with_opened_ok Q (ok a, w) next g h = g a w refl h

  module _ (asked : Options) (open_manifest : W → Result Text Options × W)
      (open_page : W → Result Text Text × W) where
    -- The manifest was read, the page opened after that, and the measurement made on it.
    pub IsVerified : W → Answer B → Type 0
    unfolding IsPassed requested
    IsVerified w a =
        (default : Options) × (u : Text) × (w1 w2 : W) × (open_manifest w ≡ (ok default, w1))
        × (open_page w1 ≡ (ok u, w2))
        × IsPassed (requested asked default) w2 a

    -- `gpuRun` comes back without an error only with an ok result, for which these steps succeeded one after the
    -- other: the manifest was read and the page opened; the browser told of its renderer, and no name of a
    -- software renderer is in that; the scenario, if there is one, was loaded, and then advanced if the ticks
    -- are positive; and a benchmark ran over the frames, or over 120. The scenario, the ticks and the frames
    -- are those asked for, each one that is not being the manifest's. The result holds that renderer, that
    -- benchmark, the scenario and the ticks, and does not say `software`.
    pub gpu_run-IsVerified :
        (w : W)
        → (gpu_run d asked open_manifest open_page w).0.error ≡ none
        → IsVerified w (gpu_run d asked open_manifest open_page w).0
    unfolding gpu_run answer_of chosen IsVerified requested
    gpu_run-IsVerified w =
        with_opened_ok (IsVerified w) (open_manifest w)
          (λ default w1.
            with_opened (open_page w1) (λ u w2. answer_of (verify d (chosen asked default) w2)))
          (λ default w1 e1.
            with_opened_ok (IsVerified w) (open_page w1)
              (λ u w2. answer_of (verify d (chosen asked default) w2))
              (λ u w2 e2 h. (
                default,
                u,
                w1,
                w2,
                e1,
                e2,
                answered-IsPassed (chosen asked default) w2 (verify d (chosen asked default) w2).0
                    (verify-Sound (chosen asked default) w2) h,
              )))
